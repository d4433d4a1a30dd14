-- ===== src/Api/Request/Parts.antt =====
-- The texts between the marks of an address.
use Prim.Native.Char.{Char, code}
use text.Mathlib.TextLemmas.{nil-append, cons-append}
use bigfleet_web_dashboard.Prelude.{
  ℕ, ◌==◌, ◌≡◌, refl, sym, Bool, true, not, ◌||◌, List, [], ◌∷◌, String, arith, if◌then◌else◌, ◌<>◌,
  Bool-cases, inl, inr,
}
use bigfleet_web_dashboard.Prelude.Show.Digits.{all_chars, is_numeral}
use bigfleet_web_dashboard.Engine.Text.{cons}

-- The characters that part an address: `/`, `?`, `&` and `=`.
abbrev pub is_mark : ℕ → Bool
is_mark c = c == b'/' || c == b'?' || c == b'&' || c == b'='

abbrev pub is_plain : ℕ → Bool
is_plain c = not (is_mark c)

-- Text behind a text in parts joins the last of them.
abbrev pub glue : List String → List String → List String
glue [] ys = ys
glue (x ∷ []) [] = x ∷ []
glue (x ∷ []) (y ∷ ys) = (x <> y) ∷ ys
glue (x ∷ (z ∷ xs)) ys = x ∷ glue (z ∷ xs) ys

abbrev pub before : Char → List String → List String
before c [] = []
before c (x ∷ xs) = cons c x ∷ xs

-- The texts between the marks.
abbrev pub parts : String → List String
parts String.[] = "" ∷ []
parts (String.◌∷◌ c s) = let rest = parts s in if is_mark (code c) then "" ∷ rest else before c rest

-- The parts of a text are some.
abbrev IsNonempty : List String → Type 0
IsNonempty [] = ⊥
IsNonempty (x ∷ xs) = Unit {0}

before-IsNonempty : (c : Char) (xs : List String) → IsNonempty xs → IsNonempty (before c xs)
before-IsNonempty c [] h = elim h [ ]
before-IsNonempty c (x ∷ xs) h = tt

parts-IsNonempty : (s : String) → IsNonempty (parts s)
parts-IsNonempty String.[] = tt
parts-IsNonempty (String.◌∷◌ c s) = elim (Bool-cases (is_mark (code c))) [
  | inl e ↦ rw e tt
  | inr e ↦ rw e (before-IsNonempty c (parts s) (parts-IsNonempty s))
]

glue-nil : (ys : List String) → IsNonempty ys → glue ("" ∷ []) ys ≡ ys
glue-nil [] h = elim h [ ]
glue-nil (y ∷ ys) h = rw (nil-append y) refl

glue-before :
    (c : Char) (xs ys : List String)
    → IsNonempty xs
    → IsNonempty ys
    → glue (before c xs) ys ≡ before c (glue xs ys)
glue-before c [] ys h k = elim h [ ]
glue-before c (x ∷ []) [] h k = elim k [ ]
glue-before c (x ∷ []) (y ∷ ys) h k = rw (cons-append c x y) refl
glue-before c (x ∷ (z ∷ xs)) ys h k = refl

glue-mark : (xs ys : List String) → IsNonempty xs → glue ("" ∷ xs) ys ≡ "" ∷ glue xs ys
glue-mark [] ys h = elim h [ ]
glue-mark (x ∷ xs) ys h = refl

pub parts-append : (s t : String) → parts (s <> t) ≡ glue (parts s) (parts t)
parts-append String.[] t = rw (nil-append t) (sym (glue-nil (parts t) (parts-IsNonempty t)))
parts-append (String.◌∷◌ c s) t = elim (Bool-cases (is_mark (code c))) [
  | inl e ↦
      rw (cons-append c s t)
        (rw (e, parts-append s t) (sym (glue-mark (parts s) (parts t) (parts-IsNonempty s))))
  | inr e ↦ rw (cons-append c s t) (
      rw (e, parts-append s t)
        (sym (glue-before c (parts s) (parts t) (parts-IsNonempty s) (parts-IsNonempty t))))
]

pub parts_plain : (s : String) → all_chars is_plain s ≡ true → parts s ≡ s ∷ []
parts_plain String.[] h = refl
parts_plain (String.◌∷◌ c s) h = ground (arith, parts_plain s)

pub numeral-IsPlain : (s : String) → all_chars is_numeral s ≡ true → all_chars is_plain s ≡ true
numeral-IsPlain String.[] h = refl
numeral-IsPlain (String.◌∷◌ c s) h = ground (arith, numeral-IsPlain s)
