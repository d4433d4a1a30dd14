-- ===== src/Needs/Competition.antt =====
-- ui/src/pages/needsKit.tsx: `shapesOverlap` and `competitorsFor`. That two needs are one object
-- (`o !== n`) is the test `same`.
use bigfleet_web_dashboard.Prelude.{
  ◌≡◌, refl, sym, ap, ◌∙◌, Bool, true, false, not, ◌&&◌, List, [], ◌++◌, Perm, arith, ltb, or_else,
  Bool-cases, filter, filter_congr, any, take, drop, length, Ordered, length-take, take-append-drop,
  inl, inr, String,
}
use Prim.Native.Nat.{min}
use bigfleet_web_dashboard.Prelude.Sort.{
  sort_by, sort_by-perm, sort_by-Ordered, length-sort_by, NotAfter, weak_irrefl,
}
use bigfleet_web_dashboard.Prelude.Dict.{keys, has}
use bigfleet_web_dashboard.Api.Demand.{NeedView}
use bigfleet_web_dashboard.Needs.Precedence.{precedes, precedes-IsStrictWeak}

-- `Object.keys(n.aggregateResources ?? {})`
abbrev resource_keys : NeedView → List String
resource_keys n = keys (or_else n.aggregate_resources [])

unfoldable pub shapes_overlap : NeedView → NeedView → Bool
shapes_overlap a b = any (λ k. has k (resource_keys b)) (resource_keys a)

-- Ahead of `n`, with machines claimed, and of an overlapping shape.
abbrev pub is_ahead : NeedView → NeedView → Bool
is_ahead n o = ltb 0 o.claimed_machine_count && precedes o n && shapes_overlap o n

unfoldable pub competitors_for :
    (NeedView → NeedView → Bool) → NeedView → List NeedView → List NeedView
competitors_for same n all =
    take 8 (sort_by precedes (filter (λ o. not (same o n) && is_ahead n o) all))

is_ahead_self : (n : NeedView) → is_ahead n n ≡ false
is_ahead_self n = ground (arith, weak_irrefl precedes-IsStrictWeak n)

module _ (same : NeedView → NeedView → Bool)
    (same_object : (a b : NeedView) → same a b ≡ true → a ≡ b) where
  -- A need is never ahead of itself, so the test for identity drops nothing more.
  identity_redundant : (n o : NeedView) → (not (same o n) && is_ahead n o) ≡ is_ahead n o
  identity_redundant n o = elim (Bool-cases (same o n)) [
    | inl e ↦ rw e (sym (ap (is_ahead n) (same_object o n e) ∙ is_ahead_self n))
    | inr e ↦ rw e refl
  ]

  -- The competitors are the first eight, or all if there are fewer, of a list that holds exactly
  -- the needs ahead of `n`, each as often as it is given, in the order of the walk.
  pub competitors_for_lem :
      (n : NeedView) (all : List NeedView)
      → (rest : List NeedView) × Perm (competitors_for same n all ++ rest) (filter (is_ahead n) all)
        × Ordered (NotAfter precedes) (competitors_for same n all ++ rest)
        × (length (competitors_for same n all) ≡ min 8 (length (filter (is_ahead n) all)))
  unfolding competitors_for
  competitors_for_lem n all =
      let found = filter (λ o. not (same o n) && is_ahead n o) all in
      let sorted = sort_by precedes found in
      let same_found : found ≡ filter (is_ahead n) all =
        filter_congr _ _ all (identity_redundant n) in
      (
        drop 8 sorted,
        rw (take-append-drop 8 sorted, ← same_found) (sort_by-perm precedes found),
        rw (take-append-drop 8 sorted) (sort_by-Ordered precedes precedes-IsStrictWeak found),
        omega (arith, length-take 8 sorted, length-sort_by precedes found, ap length same_found),
      )
