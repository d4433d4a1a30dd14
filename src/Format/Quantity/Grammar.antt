-- ===== src/Format/Quantity/Grammar.antt =====
-- What `parseQuantity` takes for a number with a unit.
use Prim.Native.Char.{code}
use text.Mathlib.TextLemmas.{nil-append, cons-append}
use bigfleet_web_dashboard.Prelude.{
  ℕ, ◌≡◌, refl, sym, ap, ◌∙◌, ◌↔◌, Bool, true, false, not, none, some, String, arith, ◌<>◌, truthy,
  or_else, Bool-cases, Option-cases, inl, inr,
}
use bigfleet_web_dashboard.Prelude.Dict.{get}
use bigfleet_web_dashboard.Engine.{Engine, or_zero}
use bigfleet_web_dashboard.Engine.Text.{
  cons, trim, take_while, drop_while, all_text, is_decimal, is_space, is_letter,
}
use bigfleet_web_dashboard.Format.Quantity.{match_quantity, qty_suffix, parse_quantity}

-- The text is a number, spaces and a unit, as `/^([0-9.]+)\s*([a-zA-Z]*)$/` has it.
abbrev pub IsQuantity : String → String → String → Type 0
IsQuantity s digits unit =
    (spaces : String) × (s ≡ digits <> spaces <> unit)
    × (truthy digits ≡ true)
    × (all_text is_decimal digits ≡ true)
    × (all_text is_space spaces ≡ true)
    × (all_text is_letter unit ≡ true)

-- No character that passes stands at the front.
abbrev starts_without : (ℕ → Bool) → String → Bool
starts_without p String.[] = true
starts_without p (String.◌∷◌ c s) = not (p (code c))

module _ (p : ℕ → Bool) where
  take-drop_while : (s : String) → take_while p s <> drop_while p s ≡ s
  unfolding take_while drop_while
  take-drop_while String.[] = nil-append ""
  take-drop_while (String.◌∷◌ c s) = elim (Bool-cases (p (code c))) [
    | inl e ↦
        rw e (cons-append c (take_while p s) (drop_while p s) ∙ ap (cons c) (take-drop_while s))
    | inr e ↦ rw e (nil-append (cons c s))
  ]

  all_text-take_while : (s : String) → all_text p (take_while p s) ≡ true
  unfolding take_while all_text
  all_text-take_while String.[] = refl
  all_text-take_while (String.◌∷◌ c s) = elim (Bool-cases (p (code c))) [
    | inl e ↦ rw e (rw (e, all_text-take_while s) refl)
    | inr e ↦ rw e refl
  ]

  -- A text of characters that pass, before one that has none at its front.
  take_while-append :
      (s t : String) → all_text p s ≡ true → starts_without p t ≡ true → take_while p (s <> t) ≡ s
  unfolding take_while all_text
  take_while-append String.[] String.[] h k = rw (nil-append "") refl
  take_while-append String.[] (String.◌∷◌ c t) h k = rw (nil-append (cons c t)) (ground arith)
  take_while-append (String.◌∷◌ c s) t h k =
      rw (cons-append c s t) (ground (arith, take_while-append s t))

  drop_while-append :
      (s t : String) → all_text p s ≡ true → starts_without p t ≡ true → drop_while p (s <> t) ≡ t
  unfolding drop_while all_text
  drop_while-append String.[] String.[] h k = rw (nil-append "") refl
  drop_while-append String.[] (String.◌∷◌ c t) h k = rw (nil-append (cons c t)) (ground arith)
  drop_while-append (String.◌∷◌ c s) t h k =
      rw (cons-append c s t) (ground (arith, drop_while-append s t))

-- A text of characters of one kind has none of another at its front, and nor has what stands behind
-- such a text.
other_kind :
    (p q : ℕ → Bool) (s : String)
    → ((c : ℕ) → q c ≡ true → p c ≡ false)
    → all_text q s ≡ true
    → starts_without p s ≡ true
unfolding all_text
other_kind p q String.[] apart h = refl
other_kind p q (String.◌∷◌ c s) apart h = ground (arith, apart (code c))

behind_other_kind :
    (p q : ℕ → Bool) (s t : String)
    → ((c : ℕ) → q c ≡ true → p c ≡ false)
    → all_text q s ≡ true
    → starts_without p t ≡ true
    → starts_without p (s <> t) ≡ true
unfolding all_text
behind_other_kind p q String.[] t apart h k = rw (nil-append t) k
behind_other_kind p q (String.◌∷◌ c s) t apart h k =
    rw (cons-append c s t) (ground (arith, apart (code c)))

letter_not_space : (c : ℕ) → is_letter c ≡ true → is_space c ≡ false
letter_not_space c h = ground arith

letter_not_decimal : (c : ℕ) → is_letter c ≡ true → is_decimal c ≡ false
letter_not_decimal c h = ground arith

space_not_decimal : (c : ℕ) → is_space c ≡ true → is_decimal c ≡ false
space_not_decimal c h = ground arith

IsQuantity-match_quantity :
    (s digits unit : String) → IsQuantity s digits unit → match_quantity s ≡ some (digits, unit)
unfolding match_quantity
IsQuantity-match_quantity s digits unit (spaces, e, d, n, sp, l) =
    let behind =
      behind_other_kind is_decimal is_space spaces unit space_not_decimal sp
        (other_kind is_decimal is_letter unit letter_not_decimal l) in
    let unit_start = other_kind is_space is_letter unit letter_not_space l in
    rw
      (
        e,
        take_while-append is_decimal digits (spaces <> unit) n behind,
        drop_while-append is_decimal digits (spaces <> unit) n behind,
        drop_while-append is_space spaces unit sp unit_start,
        d,
        l,
      )
      refl

-- The parts that the text is cut into.
abbrev number_of : String → String
number_of s = take_while is_decimal s

abbrev unit_of : String → String
unit_of s = drop_while is_space (drop_while is_decimal s)

parts-IsQuantity :
    (s : String)
    → truthy (number_of s) ≡ true
    → all_text is_letter (unit_of s) ≡ true
    → IsQuantity s (number_of s) (unit_of s)
parts-IsQuantity s d l =
    let rest = drop_while is_decimal s in
    (
      take_while is_space rest,
      sym (take-drop_while is_decimal s)
          ∙ ap (λ t. number_of s <> t) (sym (take-drop_while is_space rest)),
      d,
      all_text-take_while is_decimal s,
      all_text-take_while is_space rest,
      l,
    )

match_quantity-IsQuantity :
    (s digits unit : String) → match_quantity s ≡ some (digits, unit) → IsQuantity s digits unit
unfolding match_quantity
match_quantity-IsQuantity s digits unit h =
    let d : number_of s ≡ digits = ground arith in
    let u : unit_of s ≡ unit = ground arith in
    rw (← d, ← u) (parts-IsQuantity s (ground arith) (ground arith))

-- The code cuts a text into a number and a unit exactly where the text is one.
match_quantity_iff :
    (s digits unit : String) → (match_quantity s ≡ some (digits, unit)) ↔ IsQuantity s digits unit
match_quantity_iff s digits unit =
    (match_quantity-IsQuantity s digits unit, IsQuantity-match_quantity s digits unit)

module _ (js : Engine) where
  open js use {Number, of_ℕ, mul, parse_float}

  -- What a unit stands for; one that the table does not have stands for 1.
  abbrev pub unit_value : String → Number
  unit_value unit = or_else (get unit (qty_suffix js)) (of_ℕ 1)

  parse_unmatched :
      (s : String)
      → truthy s ≡ true
      → match_quantity (trim s) ≡ none
      → parse_quantity js (some s) ≡ or_zero js (parse_float s)
  unfolding parse_quantity
  parse_unmatched s t e = rw (t, e) refl

  -- A text that is not empty is, but for the space around it, a number and a unit, with spaces
  -- between them or none, in at most one way. Then its value is that of the number, NaN as 0, times
  -- that of the unit, which is 1 for a unit that the table does not have. Any other text has the value
  -- that `parseFloat` gives, NaN as 0.
  pub parse_quantity_lem :
      (s : String)
      → truthy s ≡ true
      → ((digits unit : String)
          → IsQuantity (trim s) digits unit
          → (parse_quantity js (some s) ≡ mul (or_zero js (parse_float digits)) (unit_value unit))
            × ((d u : String) → IsQuantity (trim s) d u → (d ≡ digits) × (u ≡ unit)))
        × (((digits unit : String) → ¬ IsQuantity (trim s) digits unit)
            → parse_quantity js (some s) ≡ or_zero js (parse_float s))
  unfolding parse_quantity
  parse_quantity_lem s t = (
    λ digits unit q.
        let e = IsQuantity-match_quantity (trim s) digits unit q in
        (
          rw (t, e) refl,
          λ d u r.
              let same = sym (IsQuantity-match_quantity (trim s) d u r) ∙ e in (cc same, cc same),
        ),
    λ no_match. elim (Option-cases (match_quantity (trim s))) [
      | inl e ↦ parse_unmatched s t e
      | inr ((d, u), e) ↦ absurd (no_match d u (match_quantity-IsQuantity (trim s) d u e))
    ],
  )
