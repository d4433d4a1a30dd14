-- ===== src/Needs/Kit/Coverage.antt =====
-- The coverage of a need, from what its resources are demanded and left short.
use bigfleet_web_dashboard.Prelude.{
  ◌≡◌, refl, ap, ◌∙◌, ◌⊎◌, inl, inr, false, List, [], ◌∷◌, String, arith, if◌then◌else◌, or_else,
  some, All, Bool-cases, true,
}
use mathlib.Core.Path.{ap₂}
use bigfleet_web_dashboard.Engine.{Engine, IsOrderedEngine, le, min, max}
use bigfleet_web_dashboard.Engine.Whole.{IsShareEngine}
use bigfleet_web_dashboard.Prelude.Dict.{get}
use bigfleet_web_dashboard.Format.Quantity.{parse_quantity}
use bigfleet_web_dashboard.Api.Demand.{NeedView}
use bigfleet_web_dashboard.Needs.Kit.{got, coverage, coverage_loop}

module _ (js : Engine) (laws : IsOrderedEngine js) where
  open js use {Number, of_ℕ, lt, is_nan, is_finite, sub, div}

  -- How much of a resource is demanded, and how much of it the cycle left short.
  abbrev pub demanded : String × String → Number
  demanded e = parse_quantity js (some e.1)

  abbrev pub left_short : NeedView → String × String → Number
  left_short n e = parse_quantity js (get e.0 (or_else n.residual_deficit []))

  -- The shares of the demanded resources that are covered: what is left short of the whole demand
  -- counts as nothing, and a resource of which nothing is demanded has no share.
  abbrev pub shares : NeedView → List (String × String) → List Number
  shares n [] = []
  shares n (e ∷ rest) =
      if lt (of_ℕ 0) (demanded e)
      then (if lt (left_short n e) (demanded e)
          then div (sub (demanded e) (left_short n e)) (demanded e)
          else of_ℕ 0)
        ∷ shares n rest
      else shares n rest

  -- Both amounts are numbers that are not infinite.
  abbrev pub IsFinite : NeedView → String × String → Type 0
  IsFinite n e = (is_finite (demanded e) ≡ true) × (is_finite (left_short n e) ≡ true)

  -- The fractions as the loop computes them.
  abbrev fractions : NeedView → List (String × String) → List Number
  fractions n [] = []
  fractions n ((k, v) ∷ rest) =
      let want = parse_quantity js (some v) in
      if le js want (of_ℕ 0)
      then fractions n rest
      else div (got js n k want) want ∷ fractions n rest

  -- The value is one of those listed.
  abbrev pub IsOneOf : Number → List Number → Type 0
  IsOneOf x [] = ⊥
  IsOneOf x (y ∷ ys) = (x ≡ y) ⊎ IsOneOf x ys

  -- `Math.min` along a list.
  least : Number → List Number → Number
  least m [] = m
  least m (x ∷ xs) = least (min js m x) xs

  coverage_loop_lem :
      (n : NeedView) (rs : List (String × String)) (m : Number)
      → coverage_loop js n rs m ≡ least m (fractions n rs)
  unfolding coverage_loop least
  coverage_loop_lem n [] m = refl
  coverage_loop_lem n ((k, v) ∷ rs) m =
      elim (Bool-cases (le js (parse_quantity js (some v)) (of_ℕ 0))) [
        | inl e ↦ rw e (coverage_loop_lem n rs m)
        | inr e ↦ rw e (coverage_loop_lem n rs _)
      ]

  min_below : (g m x : Number) → lt g m ≡ false → lt g (min js m x) ≡ false
  min_below g m x h = ground (
    arith,
    laws.lt_nan g m,
    laws.lt_nan g x,
    laws.lt_asym m g,
    laws.lt_cotrans g x m,
    laws.lt_cotrans x m g,
    laws.lt_asym x m,
    laws.lt_asym g x,
  )

  min_below_right : (m x : Number) → lt x (min js m x) ≡ false
  min_below_right m x = ground (arith, laws.lt_nan x m, laws.lt_nan x x, laws.lt_asym x x)

  least_below : (g m : Number) (xs : List Number) → lt g m ≡ false → lt g (least m xs) ≡ false
  unfolding least
  least_below g m [] h = h
  least_below g m (x ∷ xs) h = least_below g (min js m x) xs (min_below g m x h)

  least_below-All : (m : Number) (xs : List Number) → All (λ x. lt x (least m xs) ≡ false) xs
  unfolding least
  least_below-All m [] = tt
  least_below-All m (x ∷ xs) =
      (least_below x (min js m x) xs (min_below_right m x), least_below-All (min js m x) xs)

  min_cases : (m x : Number) → (min js m x ≡ m) ⊎ (min js m x ≡ x)
  min_cases m x = ground arith

  least_one : (m : Number) (xs : List Number) → (least m xs ≡ m) ⊎ IsOneOf (least m xs) xs
  unfolding least
  least_one m [] = inl refl
  least_one m (x ∷ xs) = elim (least_one (min js m x) xs) [
    | inl e ↦ elim (min_cases m x) [ inl f ↦ inl (e ∙ f) | inr f ↦ inr (inl (e ∙ f)) ]
    | inr o ↦ inr (inr o)
  ]

  coverage-least :
      (n : NeedView)
      → n.satisfied ≡ false
      → coverage js n ≡ least (of_ℕ 1) (fractions n (or_else n.aggregate_resources []))
  unfolding coverage
  coverage-least n h =
      ap (λ b. if b then of_ℕ 1 else coverage_loop js n (or_else n.aggregate_resources []) (of_ℕ 1))
        h
      ∙ coverage_loop_lem n (or_else n.aggregate_resources []) (of_ℕ 1)

  module _ (parts : IsShareEngine js) where
    max_zero :
        (x : Number) → is_nan x ≡ false → max js (of_ℕ 0) x ≡ (if lt (of_ℕ 0) x then x else of_ℕ 0)
    max_zero x h = rw (laws.of_ℕ_number 0, h) refl

    -- What the loop computes of one resource.
    fraction_share :
        (n : NeedView) (e : String × String)
        → IsFinite n e
        → lt (of_ℕ 0) (demanded e) ≡ true
        → div (got js n e.0 (demanded e)) (demanded e) ≡ (
            if lt (left_short n e) (demanded e)
            then div (sub (demanded e) (left_short n e)) (demanded e)
            else of_ℕ 0)
    fraction_share n e fin pos =
        let known = parts.sub_number (demanded e) (left_short n e) fin.0 fin.1 in
        elim (Bool-cases (lt (left_short n e) (demanded e))) [
          | inl below ↦
              rw
                (
                  max_zero (sub (demanded e) (left_short n e)) known,
                  parts.sub_positive (demanded e) (left_short n e),
                  below,
                )
                refl
          | inr above ↦
              rw
                (
                  max_zero (sub (demanded e) (left_short n e)) known,
                  parts.sub_positive (demanded e) (left_short n e),
                  above,
                )
                (parts.zero_share (demanded e) pos)
        ]

    fractions-shares :
        (n : NeedView) (rs : List (String × String))
        → All (IsFinite n) rs
        → fractions n rs ≡ shares n rs
    fractions-shares n [] h = refl
    fractions-shares n (e ∷ rs) h =
        let sign = parts.not_positive (demanded e) (parts.finite_number (demanded e) h.0.0) in
        elim (Bool-cases (lt (of_ℕ 0) (demanded e))) [
          | inl p ↦ rw (sign, p) (ap₂ ◌∷◌ (fraction_share n e h.0 p) (fractions-shares n rs h.1))
          | inr p ↦ rw (sign, p) (fractions-shares n rs h.1)
        ]

    -- Under the laws of order and of shares, where no amount demanded or left short is infinite: an
    -- unmet need's coverage is 1 or the share of a resource that it demands, and is greater than
    -- neither 1 nor any of these shares. The share of a resource is what is not left short of it
    -- over what is demanded, and 0 where it is wholly short.
    pub coverage_lem :
        (n : NeedView)
        → n.satisfied ≡ false
        → All (IsFinite n) (or_else n.aggregate_resources [])
        → ((coverage js n ≡ of_ℕ 1)
            ⊎ IsOneOf (coverage js n) (shares n (or_else n.aggregate_resources [])))
          × (lt (of_ℕ 1) (coverage js n) ≡ false)
          × All (λ f. lt f (coverage js n) ≡ false) (shares n (or_else n.aggregate_resources []))
    coverage_lem n h fin =
        let rs = or_else n.aggregate_resources [] in
        let one_self : lt (of_ℕ 1) (of_ℕ 1) ≡ false =
          ground (arith, laws.lt_asym (of_ℕ 1) (of_ℕ 1)) in
        rw (coverage-least n h, ← fractions-shares n rs fin)
          ((
            least_one (of_ℕ 1) (fractions n rs),
            least_below (of_ℕ 1) (of_ℕ 1) (fractions n rs) one_self,
            least_below-All (of_ℕ 1) (fractions n rs),
          ))
