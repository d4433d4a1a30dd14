-- ===== src/Examples/Engines.antt =====
-- An engine whose numbers are the halves from -1 on, with the laws of whole numbers, and an encoding
-- of texts without the marks of an address.
use Prim.Native.Char.{Char, code}
use Prim.Native.Nat.{◌^◌}
use native.Mathlib.Nat.{
  two-pow-succ, one-le-pow, le_trans, div-eq_of_lt, div-mul-le_self, le-div_iff_mul-le,
  div-eq_of_eq-mul_left, mul-le-mul_right,
}
use text.Mathlib.TextEquality.{Char-path}
use bigfleet_web_dashboard.Prelude.{
  ℕ, zero, suc, ◌+◌, ◌-◌, ◌*◌, ◌/◌, ◌≤◌, ◌<◌, ◌≡◌, refl, sym, ap, true, false, String, arith,
  if◌then◌else◌, ltb, ltb→lt, ◌==◌, ==_iff, Bool-cases, inl, inr,
}
use bigfleet_web_dashboard.Prelude.Show.{show}
use bigfleet_web_dashboard.Prelude.Show.Digits.{read_from, read-show, all_chars}
use bigfleet_web_dashboard.Engine.{Engine, IsOrderedEngine}
use bigfleet_web_dashboard.Engine.Text.{cons}
use bigfleet_web_dashboard.Engine.Whole.{
  IsWholeEngine, IsRankedEngine, IsShareEngine, IsScaleEngine,
}
use bigfleet_web_dashboard.Api.Request.Parts.{is_plain}
use bigfleet_web_dashboard.Examples.Samples.{toy}

-- How often a number can be halved, with fuel.
pub whole_log : ℕ → ℕ → ℕ
whole_log zero n = 0
whole_log (suc fuel) n = let rest = whole_log fuel (n / 2) + 1 in if ltb n 2 then 0 else rest

whole_log-pow : (fuel k : ℕ) → k < fuel → whole_log fuel (2 ^ k) ≡ k
unfolding whole_log
whole_log-pow zero k h = absurd (omega arith)
whole_log-pow (suc fuel) zero h = refl
whole_log-pow (suc fuel) (suc k) h =
    let half : 2 ^ suc k / 2 ≡ 2 ^ k = omega (arith, two-pow-succ k) in
    let big : ltb (2 ^ suc k) 2 ≡ false =
      ground (arith, two-pow-succ k, one-le-pow k 2 (omega arith)) in
    rw (big, half, whole_log-pow fuel k (omega arith)) (omega arith)

-- `n` stands for n / 2 - 1.
abbrev pub halves : Engine
halves = record {
  Number = ℕ;
  of_ℕ = λ n. 2 * n + 2;
  add = λ a b. a + b - 2;
  sub = λ a b. a + 2 - b;
  mul = λ a b. a;
  div = λ a b. 2 * (a - 2) / (b - 2) + 2;
  rem = λ a b. a;
  lt = ltb;
  eq = λ a b. a == b;
  is_nan = λ n. false;
  is_finite = λ n. true;
  floor = λ n. n;
  round = λ n. n;
  ceil = λ n. n;
  abs = λ n. n;
  log2 = λ n. 2 * whole_log 53 ((n - 2) / 2) + 2;
  parse_float = λ s. 2 * read_from 0 s + 2;
  to_number = λ s. 2 * read_from 0 s + 2;
  to_fixed = λ n dp. show n;
  to_locale_string = show;
  to_text = show;
  upper_case = λ s. s;
  lower_case = λ s. s;
  underscores_to_spaces = λ s. s;
  text_before = λ a b. false;
  locale_before = λ a b. false;
}

log_of_power : (k : ℕ) → k < 53 → 2 * whole_log 53 ((2 * 2 ^ k + 2 - 2) / 2) + 2 ≡ 2 * k + 2
log_of_power k h =
    let back : (2 * 2 ^ k + 2 - 2) / 2 ≡ 2 ^ k = omega arith in rw (back, whole_log-pow 53 k h) refl

pub halves_whole : IsWholeEngine halves
halves_whole = record {
  finite = λ n h. refl;
  lt_of_ℕ = λ m n h k. ground arith;
  eq_of_ℕ = λ m n h k. ground arith;
  add_of_ℕ = λ m n h. omega arith;
  round_log2 = log_of_power;
  parse_show = λ n h. rw (read-show n) refl;
  upper_capital = λ s h. refl;
}

pub halves_ranked : IsRankedEngine halves
halves_ranked = record {
  to_number_show = λ n h. rw (read-show n) refl;
  below_whole = λ n h. ground arith;
  whole_above = λ n h. ground arith;
  below_half = refl;
  half_above = refl;
  half_self = refl;
  whole-half = λ n h. ground arith;
  half-whole = λ n h. ground arith;
}

-- The natural numbers themselves, with subtraction that stops at 0 and division that rounds down.
abbrev pub wholes : Engine
wholes = record toy { log2 = whole_log 53; parse_float = read_from 0; to_number = read_from 0 }

pub wholes_ordered : IsOrderedEngine wholes
wholes_ordered = record {
  lt_asym = λ a b h. ground arith;
  lt_cotrans = λ a b c n h k. ground arith;
  lt_nan = λ a b h. ground arith;
  of_ℕ_number = λ n. refl;
}

pub wholes_whole : IsWholeEngine wholes
wholes_whole = record {
  finite = λ n h. refl;
  lt_of_ℕ = λ m n h k. refl;
  eq_of_ℕ = λ m n h k. refl;
  add_of_ℕ = λ m n h. refl;
  round_log2 = λ k h. whole_log-pow 53 k h;
  parse_show = λ n h. read-show n;
  upper_capital = λ s h. refl;
}

pub wholes_share : IsShareEngine wholes
wholes_share = record {
  finite_number = λ a h. refl;
  not_positive = λ a h. ground arith;
  sub_number = λ a b h k. refl;
  sub_positive = λ a b. ground arith;
  zero_share = λ a h. div-eq_of_lt (ltb→lt 0 a h);
}

not_below : (a b : ℕ) → a ≤ b → ltb b a ≡ false
not_below a b h = ground arith

ge_of_not_below : (a b : ℕ) → ltb b a ≡ false → a ≤ b
ge_of_not_below a b h = ground arith

pub wholes_scale : IsScaleEngine wholes
wholes_scale = record {
  div_finite = λ a m h k l. refl;
  div_mono = λ a b m h p k l.
      not_below (a / m) (b / m) ((le-div_iff_mul-le p).1 (le_trans (div-mul-le_self a m) h));
  div_self = λ m h k. div-eq_of_eq-mul_left h (omega arith);
  mul_one = λ n h. omega arith;
  mul_number = λ a n h k. refl;
  mul_mono = λ a b n h. not_below (a * n) (b * n) (mul-le-mul_right n (ge_of_not_below a b h));
}

abbrev slash : Char
slash = "/"

abbrev question : Char
question = "?"

abbrev ampersand : Char
ampersand = "&"

abbrev equals : Char
equals = "="

-- A mark becomes `m` and a digit, any other character stands behind `p`.
pub encode_marks : String → String
encode_marks String.[] = ""
encode_marks (String.◌∷◌ c s) =
    let rest = encode_marks s in
    if code c == b'/'
    then cons "m" (cons "0" rest)
    else if code c == b'?'
    then cons "m" (cons "1" rest)
    else if code c == b'&'
    then cons "m" (cons "2" rest)
    else if code c == b'='
    then cons "m" (cons "3" rest)
    else cons "p" (cons c rest)

abbrev mark_of : ℕ → Char
mark_of d =
    if d == b'0'
    then slash
    else if d == b'1'
    then question
    else if d == b'2'
    then ampersand
    else equals

pub decode_marks : String → String
decode_marks String.[] = ""
decode_marks (String.◌∷◌ c String.[]) = ""
decode_marks (String.◌∷◌ c (String.◌∷◌ d s)) =
    let rest = decode_marks s in
    if code c == b'm' then cons (mark_of (code d)) rest else cons d rest

same_char : (c d : Char) → (code c == code d) ≡ true → c ≡ d
same_char c d h = Char-path c d ((==_iff (code c) (code d)).0 h)

pub decode-encode_marks : (s : String) → decode_marks (encode_marks s) ≡ s
unfolding encode_marks decode_marks
decode-encode_marks String.[] = refl
decode-encode_marks (String.◌∷◌ c s) = elim (Bool-cases (code c == b'/')) [
  | inl e ↦ rw (e, decode-encode_marks s) (ap (λ d. cons d s) (sym (same_char c slash e)))
  | inr e ↦ elim (Bool-cases (code c == b'?')) [
    | inl f ↦ rw (e, f, decode-encode_marks s) (ap (λ d. cons d s) (sym (same_char c question f)))
    | inr f ↦ elim (Bool-cases (code c == b'&')) [
      | inl g ↦
          rw (e, f, g, decode-encode_marks s) (ap (λ d. cons d s) (sym (same_char c ampersand g)))
      | inr g ↦ elim (Bool-cases (code c == b'=')) [
        | inl h ↦
            rw (e, f, g, h, decode-encode_marks s) (ap (λ d. cons d s) (sym (same_char c equals h)))
        | inr h ↦ rw (e, f, g, h, decode-encode_marks s) refl
      ]
    ]
  ]
]

pub encode_marks-IsPlain : (s : String) → all_chars is_plain (encode_marks s) ≡ true
unfolding encode_marks
encode_marks-IsPlain String.[] = refl
encode_marks-IsPlain (String.◌∷◌ c s) = ground (arith, encode_marks-IsPlain s)
