-- ===== src/Needs/Kit/Verdict/Widths.antt =====
-- How long the bars of the supply funnel are.
use bigfleet_web_dashboard.Prelude.{
  ℕ, ◌≤◌, ◌<◌, ◌≡◌, refl, sym, ap, ◌∙◌, false, List, if◌then◌else◌, arith, All, All-imp, Option,
  none, some,
}
use native.Mathlib.Nat.{le_antisymm}
use bigfleet_web_dashboard.Engine.{Engine, IsOrderedEngine, max}
use bigfleet_web_dashboard.Engine.Whole.{IsWholeEngine, IsScaleEngine, limit}
use bigfleet_web_dashboard.Api.Demand.{NeedView, MatchingSupply}
use bigfleet_web_dashboard.Needs.Kit.Verdict.{
  FunnelStage, matching, claimable, max_ℕ, largest, supply_funnel,
}

module _ (js : Engine) (order : IsOrderedEngine js) (whole : IsWholeEngine js)
    (scale : IsScaleEngine js) where
  open js use {Number, of_ℕ, lt, is_nan, mul, div}

  abbrev percent : ℕ → ℕ → Number
  percent v m = mul (div (of_ℕ v) (of_ℕ m)) (of_ℕ 100)

  -- The bar of a value where the largest is m.
  abbrev bar : ℕ → ℕ → Number
  bar m v = max js (of_ℕ 6) (percent v m)

  max_six :
      (x : Number) → is_nan x ≡ false → max js (of_ℕ 6) x ≡ (if lt (of_ℕ 6) x then x else of_ℕ 6)
  max_six x h = rw (order.of_ℕ_number 6, h) refl

  max_six_mono :
      (x y : Number)
      → is_nan x ≡ false
      → is_nan y ≡ false
      → lt y x ≡ false
      → lt (max js (of_ℕ 6) y) (max js (of_ℕ 6) x) ≡ false
  max_six_mono x y h k l =
      rw (max_six x h, max_six y k)
        (ground (
          arith,
          order.lt_asym (of_ℕ 6) y,
          order.lt_asym (of_ℕ 6) (of_ℕ 6),
          order.lt_cotrans (of_ℕ 6) x y,
        ))

  module _ (m : ℕ) (positive : 0 < m) (small : m < limit) where
    percent_number : (v : ℕ) → v ≤ m → is_nan (percent v m) ≡ false
    percent_number v h =
        scale.mul_number (div (of_ℕ v) (of_ℕ m)) 100
          (scale.div_finite v m positive (omega arith) small) (omega arith)

    percent_mono : (v u : ℕ) → v ≤ u → u ≤ m → lt (percent u m) (percent v m) ≡ false
    percent_mono v u h k =
        scale.mul_mono (div (of_ℕ v) (of_ℕ m)) (div (of_ℕ u) (of_ℕ m)) 100
          (scale.div_mono v u m h positive (omega arith) small)

    percent_full : percent m m ≡ of_ℕ 100
    percent_full =
        ap (λ q. mul q (of_ℕ 100)) (scale.div_self m positive small)
        ∙ scale.mul_one 100 (omega arith)

    bar_mono : (v u : ℕ) → v ≤ u → u ≤ m → lt (bar m u) (bar m v) ≡ false
    bar_mono v u h k =
        max_six_mono (percent v m) (percent u m) (percent_number v (omega arith))
          (percent_number u k) (percent_mono v u h k)

    bar_full : bar m m ≡ of_ℕ 100
    bar_full =
        ap (λ x. max js (of_ℕ 6) x) percent_full
        ∙ max_six (of_ℕ 100) (order.of_ℕ_number 100)
        ∙ rw (whole.lt_of_ℕ 6 100 (omega arith) (omega arith)) refl

    bar_bounds :
        (v : ℕ)
        → v ≤ m
        → (is_nan (bar m v) ≡ false)
          × (lt (bar m v) (of_ℕ 6) ≡ false)
          × (lt (of_ℕ 100) (bar m v) ≡ false)
    bar_bounds v h =
        let form = max_six (percent v m) (percent_number v h) in
        (
          rw form (ground (arith, order.of_ℕ_number 6, percent_number v h)),
          rw form (
              ground
                (arith, order.lt_asym (of_ℕ 6) (percent v m), order.lt_asym (of_ℕ 6) (of_ℕ 6))),
          ap (λ x. lt x (bar m v)) (sym bar_full) ∙ bar_mono v m h (omega arith),
        )

  module _ (n : NeedView) where
    largest-le :
        (v : ℕ)
        → matching js n.matching_supply ≤ v
        → claimable js n.matching_supply ≤ v
        → n.claimed_machine_count ≤ v
        → 0 < v
        → largest js n ≤ v
    unfolding max_ℕ
    largest-le v a b c h = ground arith

    claimable-le-matching : (o : Option MatchingSupply) → claimable js o ≤ matching js o
    claimable-le-matching none = omega arith
    claimable-le-matching (some o) = omega arith

    largest-lt :
        matching js n.matching_supply < limit
        → n.claimed_machine_count < limit
        → largest js n < limit
    unfolding max_ℕ
    largest-lt g h = ground (arith, claimable-le-matching n.matching_supply)

    le-largest :
        (matching js n.matching_supply ≤ largest js n)
        × (claimable js n.matching_supply ≤ largest js n)
        × (n.claimed_machine_count ≤ largest js n)
        × (0 < largest js n)
    unfolding max_ℕ
    le-largest = (ground arith, ground arith, ground arith, ground arith)

    abbrev stages : List (FunnelStage js)
    stages = (supply_funnel js n).stages

    -- A bar that is drawn to scale.
    abbrev IsScaled : FunnelStage js → Type 0
    IsScaled st = (st.width ≡ bar (largest js n) st.value) × (st.value ≤ largest js n)

    abbrev InRange : FunnelStage js → Type 0
    InRange st =
        (is_nan st.width ≡ false)
        × (lt st.width (of_ℕ 6) ≡ false)
        × (lt (of_ℕ 100) st.width ≡ false)

    abbrev NoLonger : FunnelStage js → FunnelStage js → Type 0
    NoLonger a b = a.value ≤ b.value → lt b.width a.width ≡ false

    abbrev IsLongest : FunnelStage js → Type 0
    IsLongest a =
        0 < a.value → All (λ (b : FunnelStage js). b.value ≤ a.value) stages → a.width ≡ of_ℕ 100

    -- Under the laws of whole numbers and of multiples, where what matches and what is claimed are
    -- below 2^53: the bars are numbers from 6 to 100 percent. Of two stages the one that counts no
    -- more has no longer bar, and a stage that counts most has the full width, unless it counts
    -- nothing.
    pub supply_funnel_widths :
        matching js n.matching_supply < limit
        → n.claimed_machine_count < limit
        → All
            (λ (st : FunnelStage js).
              (is_nan st.width ≡ false)
              × (lt st.width (of_ℕ 6) ≡ false)
              × (lt (of_ℕ 100) st.width ≡ false))
            (supply_funnel js n).stages
          × All
              (λ (a : FunnelStage js).
                All
                  (λ (b : FunnelStage js). a.value ≤ b.value → lt b.width a.width ≡ false)
                  (supply_funnel js n).stages)
              (supply_funnel js n).stages
          × All
              (λ (a : FunnelStage js).
                0 < a.value
                → All (λ (b : FunnelStage js). b.value ≤ a.value) (supply_funnel js n).stages
                → a.width ≡ of_ℕ 100)
              (supply_funnel js n).stages
    unfolding supply_funnel
    supply_funnel_widths g h =
        let m = largest js n in
        let le = le-largest in
        let small : m < limit = largest-lt g h in
        let scaled : All IsScaled stages = ((refl, le.0), ((refl, le.1), ((refl, le.2), tt))) in
        (
          All-imp {Q = InRange} stages
              (λ (st : FunnelStage js) (e : IsScaled st).
                rw e.0 (bar_bounds m le.3 small st.value e.1))
              scaled,
          All-imp {Q = λ a. All (NoLonger a) stages} stages
              (λ (a : FunnelStage js) (e : IsScaled a).
                All-imp {Q = NoLonger a} stages
                  (λ (b : FunnelStage js) (f : IsScaled b) order'.
                    rw (e.0, f.0) (bar_mono m le.3 small a.value b.value order' f.1))
                  scaled)
              scaled,
          All-imp {Q = IsLongest} stages
              (λ (a : FunnelStage js) (e : IsScaled a) pos most.
                e.0
                ∙ ap (λ v. bar m v)
                    (le_antisymm e.1 (largest-le a.value most.0 most.1.0 most.1.1.0 pos))
                ∙ bar_full m le.3 small)
              scaled,
        )
