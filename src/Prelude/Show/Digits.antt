-- ===== src/Prelude/Show/Digits.antt =====
-- A printed number holds digits alone, and reading it gives the number back: the fuel suffices.
use Prim.Native.Char.{Char, code}
use Prim.Native.Nat.{ℕ, zero, suc, ◌+◌, ◌-◌, ◌*◌, ◌/◌, ◌%◌, ◌<◌, ◌≤◌}
use Prim.Native.String.{String}
use mathlib.Core.Path.{◌≡◌, refl, sym, ap, ◌∙◌}
use mathlib.Core.Bool.{Bool, true, false, ◌&&◌}
use mathlib.Core.Logic.{inl, inr}
use native.Mathlib.Omega.{arith}
use text.Mathlib.TextLemmas.{nil-append, cons-append}
use bigfleet_web_dashboard.Prelude.Tests.{
  if◌then◌else◌, ltb, leb, ◌==◌, ◌<>◌, Bool-cases, ltb→lt, truthy,
}
use bigfleet_web_dashboard.Prelude.Show.{digit, digits, show}

abbrev pub is_numeral : ℕ → Bool
is_numeral c = leb b'0' c && leb c b'9'

abbrev pub all_chars : (ℕ → Bool) → String → Bool
all_chars p String.[] = true
all_chars p (String.◌∷◌ c s) = p (code c) && all_chars p s

pub all_chars-append :
    (p : ℕ → Bool) (s t : String)
    → all_chars p s ≡ true
    → all_chars p t ≡ true
    → all_chars p (s <> t) ≡ true
all_chars-append p String.[] t h k = rw (nil-append t) k
all_chars-append p (String.◌∷◌ c s) t h k =
    rw (cons-append c s t) (ground (arith, all_chars-append p s t))

-- The number that a text of digits stands for, read behind `acc`.
abbrev pub read_from : ℕ → String → ℕ
read_from acc String.[] = acc
read_from acc (String.◌∷◌ c s) = read_from (acc * 10 + (code c - b'0')) s

pub read_from-append :
    (acc : ℕ) (s t : String) → read_from acc (s <> t) ≡ read_from (read_from acc s) t
read_from-append acc String.[] t = rw (nil-append t) refl
read_from-append acc (String.◌∷◌ c s) t =
    rw (cons-append c s t) (read_from-append (acc * 10 + (code c - b'0')) s t)

read_digit : (acc d : ℕ) → d < 10 → read_from acc (digit d) ≡ acc * 10 + d
unfolding digit
read_digit acc zero h = omega arith
read_digit acc (suc zero) h = omega arith
read_digit acc (suc (suc zero)) h = omega arith
read_digit acc (suc (suc (suc zero))) h = omega arith
read_digit acc (suc (suc (suc (suc zero)))) h = omega arith
read_digit acc (suc (suc (suc (suc (suc zero))))) h = omega arith
read_digit acc (suc (suc (suc (suc (suc (suc zero)))))) h = omega arith
read_digit acc (suc (suc (suc (suc (suc (suc (suc zero))))))) h = omega arith
read_digit acc (suc (suc (suc (suc (suc (suc (suc (suc zero)))))))) h = omega arith
read_digit acc (suc (suc (suc (suc (suc (suc (suc (suc (suc zero))))))))) h = omega arith
read_digit acc (suc (suc (suc (suc (suc (suc (suc (suc (suc (suc d)))))))))) h =
    absurd (omega arith)

numeral_digit : (d : ℕ) → all_chars is_numeral (digit d) ≡ true
unfolding digit
numeral_digit zero = refl
numeral_digit (suc zero) = refl
numeral_digit (suc (suc zero)) = refl
numeral_digit (suc (suc (suc zero))) = refl
numeral_digit (suc (suc (suc (suc zero)))) = refl
numeral_digit (suc (suc (suc (suc (suc zero))))) = refl
numeral_digit (suc (suc (suc (suc (suc (suc zero)))))) = refl
numeral_digit (suc (suc (suc (suc (suc (suc (suc zero))))))) = refl
numeral_digit (suc (suc (suc (suc (suc (suc (suc (suc zero)))))))) = refl
numeral_digit (suc (suc (suc (suc (suc (suc (suc (suc (suc zero))))))))) = refl
numeral_digit (suc (suc (suc (suc (suc (suc (suc (suc (suc (suc d)))))))))) = refl

read_digits : (fuel n : ℕ) → n < fuel → read_from 0 (digits fuel n) ≡ n
unfolding digits
read_digits zero n h = absurd (omega arith)
read_digits (suc fuel) n h = elim (Bool-cases (ltb n 10)) [
  | inl e ↦ rw e (omega (arith, read_digit 0 n (ltb→lt n 10 e)))
  | inr e ↦ rw e (
      let big : 10 ≤ n = ground arith in
      read_from-append 0 (digits fuel (n / 10)) (digit (n % 10))
      ∙ read_digit (read_from 0 (digits fuel (n / 10))) (n % 10) (omega arith)
      ∙ omega (arith, read_digits fuel (n / 10) (omega arith)))
]

numeral_digits : (fuel n : ℕ) → all_chars is_numeral (digits fuel n) ≡ true
unfolding digits
numeral_digits zero n = refl
numeral_digits (suc fuel) n = elim (Bool-cases (ltb n 10)) [
  | inl e ↦ rw e (numeral_digit n)
  | inr e ↦ rw e (
      all_chars-append is_numeral (digits fuel (n / 10)) (digit (n % 10))
        (numeral_digits fuel (n / 10)) (numeral_digit (n % 10)))
]

pub read-show : (n : ℕ) → read_from 0 (show n) ≡ n
unfolding show
read-show n = read_digits (n + 1) n (omega arith)

pub show_numerals : (n : ℕ) → all_chars is_numeral (show n) ≡ true
unfolding show
show_numerals n = numeral_digits (n + 1) n

-- Two printed numbers are the same text only if they are the same number.
pub show_inj : (m n : ℕ) → show m ≡ show n → m ≡ n
show_inj m n h = sym (read-show m) ∙ ap (read_from 0) h ∙ read-show n

-- The text before the last character that is `c`, and the text behind it.
abbrev pub split_last : ℕ → String → Bool × String × String
split_last c String.[] = (false, "", "")
split_last c (String.◌∷◌ d s) =
    let (found, before, behind) = split_last c s in
    if found
    then (true, String.◌∷◌ d before, behind)
    else if code d == c
    then (true, "", s)
    else (false, "", "")

abbrev without : ℕ → ℕ → Bool
without c d = if d == c then false else true

split_last_none :
    (c : ℕ) (s : String) → all_chars (without c) s ≡ true → split_last c s ≡ (false, "", "")
split_last_none c String.[] h = refl
split_last_none c (String.◌∷◌ d s) h = ground (arith, split_last_none c s)

split_last_at :
    (c : Char) (a t : String)
    → all_chars (without (code c)) t ≡ true
    → split_last (code c) (a <> (String.◌∷◌ c t)) ≡ (true, a, t)
split_last_at c String.[] t h =
    rw (nil-append (String.◌∷◌ c t), split_last_none (code c) t h) (ground arith)
split_last_at c (String.◌∷◌ d a) t h =
    rw (cons-append d a (String.◌∷◌ c t), split_last_at c a t h) refl

-- What stands around the last `c` of a text is determined by the text.
pub last_inj :
    (c : Char) (a b s t : String)
    → all_chars (without (code c)) s ≡ true
    → all_chars (without (code c)) t ≡ true
    → a <> (String.◌∷◌ c s) ≡ b <> (String.◌∷◌ c t)
    → (a ≡ b) × (s ≡ t)
last_inj c a b s t h k e =
    let same : split_last (code c) (a <> (String.◌∷◌ c s))
        ≡ split_last (code c) (b <> (String.◌∷◌ c t)) =
      ap (split_last (code c)) e in
    let parts = sym (split_last_at c a s h) ∙ same ∙ split_last_at c b t k in
    (ap (λ p. p.1) parts, ap (λ p. p.2) parts)

truthy-append : (s t : String) → truthy t ≡ true → truthy (s <> t) ≡ true
truthy-append String.[] t h = rw (nil-append t) h
truthy-append (String.◌∷◌ c s) t h = rw (cons-append c s t) refl

truthy-digit : (d : ℕ) → truthy (digit d) ≡ true
unfolding digit
truthy-digit zero = refl
truthy-digit (suc zero) = refl
truthy-digit (suc (suc zero)) = refl
truthy-digit (suc (suc (suc zero))) = refl
truthy-digit (suc (suc (suc (suc zero)))) = refl
truthy-digit (suc (suc (suc (suc (suc zero))))) = refl
truthy-digit (suc (suc (suc (suc (suc (suc zero)))))) = refl
truthy-digit (suc (suc (suc (suc (suc (suc (suc zero))))))) = refl
truthy-digit (suc (suc (suc (suc (suc (suc (suc (suc zero)))))))) = refl
truthy-digit (suc (suc (suc (suc (suc (suc (suc (suc (suc d))))))))) = refl

truthy-digits-suc : (fuel n : ℕ) → truthy (digits (suc fuel) n) ≡ true
unfolding digits
truthy-digits-suc fuel n = elim (Bool-cases (ltb n 10)) [
  | inl e ↦ rw e (truthy-digit n)
  | inr e ↦ rw e (truthy-append (digits fuel (n / 10)) (digit (n % 10)) (truthy-digit (n % 10)))
]

truthy-digits : (fuel n : ℕ) → truthy (digits (fuel + 1) n) ≡ true
truthy-digits fuel n =
    let more : fuel + 1 ≡ suc fuel = omega arith in rw more (truthy-digits-suc fuel n)

-- A printed number is not the empty text.
pub truthy-show : (n : ℕ) → truthy (show n) ≡ true
unfolding show
truthy-show n = truthy-digits n n
