-- ===== src/Needs/Precedence.antt =====
-- ui/src/pages/needsKit.tsx: `precedes`, the order of the needs table's walk.
use bigfleet_web_dashboard.Prelude.{
  ℕ, ◌+◌, ◌<◌, ◌≡◌, ◌⊎◌, ◌↔◌, Bool, true, false, not, arith, if◌then◌else◌, ltb, or_else,
}
use bigfleet_web_dashboard.Prelude.Int.{ℤ, pos_part, neg_part, ltb_ℤ, eqb_ℤ, eqb_ℤ_iff}
use bigfleet_web_dashboard.Prelude.Sort.{IsStrictWeak}
use bigfleet_web_dashboard.Api.Demand.{NeedView}

-- `n.arrivalUnixNanos ?? 0`
abbrev pub arrival : NeedView → ℕ
arrival n = or_else n.arrival_unix_nanos 0

-- `a` and `b` with arrivals `s` and `t`.
before : ℤ → ℕ → ℤ → ℕ → Bool
before a s b t = if not (eqb_ℤ a b) then ltb_ℤ b a else ltb s t

unfoldable pub precedes : NeedView → NeedView → Bool
unfolding before
precedes a b = before a.priority (arrival a) b.priority (arrival b)

before_asym : (a b : ℤ) (s t : ℕ) → before a s b t ≡ true → before b t a s ≡ false
unfolding before eqb_ℤ ltb_ℤ
before_asym a b s t h = ground arith

before_cotrans :
    (a b c : ℤ) (s t u : ℕ) → before a s b t ≡ true → before a s c u ≡ false → before c u b t ≡ true
unfolding before eqb_ℤ ltb_ℤ
before_cotrans a b c s t u h k = ground arith

before_iff :
    (a b : ℤ) (s t : ℕ)
    → (before a s b t ≡ true)
      ↔ ((pos_part b + neg_part a < pos_part a + neg_part b) ⊎ ((a ≡ b) × (s < t)))
unfolding before ltb_ℤ
before_iff a b s t = (λ h. ground (arith, eqb_ℤ_iff a b), λ h. ground (arith, eqb_ℤ_iff a b))

-- `a` stands before `b` exactly when its priority is higher, or the priorities are equal and it
-- arrived earlier; an absent arrival time counts as 0.
pub precedes_iff :
    (a b : NeedView)
    → (precedes a b ≡ true) ↔ (
        (pos_part b.priority + neg_part a.priority < pos_part a.priority + neg_part b.priority)
        ⊎ ((a.priority ≡ b.priority) × (arrival a < arrival b)))
unfolding precedes
precedes_iff a b = before_iff a.priority b.priority (arrival a) (arrival b)

-- The walk's order is a strict weak order.
pub precedes-IsStrictWeak : IsStrictWeak precedes
unfolding precedes
precedes-IsStrictWeak = record {
  asym = λ a b. before_asym a.priority b.priority (arrival a) (arrival b);
  cotrans =
      λ a b c. before_cotrans a.priority b.priority c.priority (arrival a) (arrival b) (arrival c);
}
