-- ===== src/Pages/ShardReports/Order.antt =====
-- The order of the shortfalls, and what the breakdowns leave out.
use bigfleet_web_dashboard.Prelude.{
  ℕ, ◌+◌, ◌-◌, ◌≤◌, String, if◌then◌else◌, ◌==◌, Ordered-imp, ◌≡◌, refl, false, none, some, List,
  ◌∷◌, ◌++◌, Perm, arith, length, Ordered, or_else, ltb, take, drop, length-take, take-append-drop,
  filter,
}
use bigfleet_web_dashboard.Prelude.Int.{ltb_ℤ, ltb_ℤ_asym, ltb_ℤ_cotrans'}
use bigfleet_web_dashboard.Prelude.Dict.{Dict}
use bigfleet_web_dashboard.Prelude.Sort.{
  sort_by-perm, sort_by-Ordered, filter-sort_by, IsStrictWeak,
}
use bigfleet_web_dashboard.Engine.{Engine}
use bigfleet_web_dashboard.Api.Reports.{ShardReportShortfall}
use bigfleet_web_dashboard.Pages.ShardReports.{
  SortField, priority, age, shortfall_before, sort_shortfalls, BreakdownView, breakdown,
}

module _ (js : Engine) where
  age_weak : IsStrictWeak (shortfall_before js age)
  age_weak = record { asym = λ a b h. ground arith; cotrans = λ a b c h k. ground arith }

  priority_weak : IsStrictWeak (shortfall_before js priority)
  priority_weak = record {
    asym = λ a b. ltb_ℤ_asym b.priority a.priority;
    cotrans = λ a b c. ltb_ℤ_cotrans' a.priority b.priority c.priority;
  }

  -- Sorting keeps every shortfall exactly once, for each field. By age the oldest stand first and
  -- those of one age in their given order; by priority the highest stand first.
  pub sort_shortfalls_lem :
      (rows : List ShardReportShortfall)
      → ((field : SortField) → Perm (sort_shortfalls js rows field) rows)
        × Ordered (λ a b. b.age_cycles ≤ a.age_cycles) (sort_shortfalls js rows age)
        × ((n : ℕ)
            → filter (λ r. r.age_cycles == n) (sort_shortfalls js rows age)
              ≡ filter (λ r. r.age_cycles == n) rows)
        × Ordered (λ a b. ltb_ℤ a.priority b.priority ≡ false) (sort_shortfalls js rows priority)
  unfolding sort_shortfalls
  sort_shortfalls_lem rows = (
    λ field. sort_by-perm (shortfall_before js field) rows,
    Ordered-imp (sort_shortfalls js rows age) (λ a b h. ground arith)
        (sort_by-Ordered (shortfall_before js age) age_weak rows),
    λ n.
        filter-sort_by (shortfall_before js age) age_weak (λ r. r.age_cycles == n)
          (λ x y h k. ground arith) rows,
    sort_by-Ordered (shortfall_before js priority) priority_weak rows,
  )

-- For entries that are not none, the breakdown lists the first of them, at most twelve, and the
-- number under "more" is that of the entries it leaves out.
pub breakdown_lem :
    (e : String × ℕ) (es : Dict ℕ)
    → (v : BreakdownView) × (breakdown (e ∷ es) ≡ some v)
      × (v.listed ++ drop 12 (e ∷ es) ≡ e ∷ es)
      × (length v.listed + or_else v.more 0 ≡ length (e ∷ es))
      × (length v.listed ≤ 12)
unfolding breakdown
breakdown_lem e es = (
  record {
    listed = take 12 (e ∷ es);
    more = if ltb 12 (length (e ∷ es)) then some (length (e ∷ es) - 12) else none;
  },
  refl,
  take-append-drop 12 (e ∷ es),
  ground (arith, length-take 12 (e ∷ es)),
  omega (arith, length-take 12 (e ∷ es)),
)
