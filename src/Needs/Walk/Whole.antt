-- ===== src/Needs/Walk/Whole.antt =====
-- The groups of `buildWalk` are whole: each holds all the needs of its fingerprint, in order.
use bigfleet_web_dashboard.Prelude.{
  ◌≡◌, refl, sym, ap, ◌∙◌, true, false, List, [], ◌∷◌, ◌++◌, String, arith, if◌then◌else◌, or_else,
  truthy, Bool-cases, inl, inr, filter, All, All-imp₂, str_eq, str_eq_iff,
}
use mathlib.Core.List.{append-nil, append_assoc}
use bigfleet_web_dashboard.Prelude.Dict.{get, get-set, get-entry}
use bigfleet_web_dashboard.Prelude.Sort.{sort_by}
use bigfleet_web_dashboard.Api.Demand.{NeedView}
use bigfleet_web_dashboard.Needs.Precedence.{precedes}
use bigfleet_web_dashboard.Needs.Walk.{Grouping, fingerprint, place, group_all, grouping}
use bigfleet_web_dashboard.Needs.Walk.Groups.{grouping-Invariant}

place-get :
    (k : String) (n : NeedView) (st : Grouping)
    → truthy k ≡ true
    → or_else (get k (place false n st).0) [] ≡ (
        if str_eq (fingerprint n) k
        then or_else (get k st.0) [] ++ n ∷ []
        else or_else (get k st.0) [])
unfolding place
place-get k n (groups, flat) t = ground (
  arith,
  str_eq_iff (fingerprint n) k,
  get-set (fingerprint n) k (or_else (get (fingerprint n) groups) [] ++ n ∷ []) groups,
)

group_all-get :
    (k : String) (ns : List NeedView) (st : Grouping)
    → truthy k ≡ true
    → or_else (get k (group_all false ns st).0) []
      ≡ or_else (get k st.0) [] ++ filter (λ n. str_eq (fingerprint n) k) ns
unfolding group_all
group_all-get k [] st t = sym (append-nil (or_else (get k st.0) []))
group_all-get k (n ∷ ns) st t =
    group_all-get k ns (place false n st) t ∙ elim (Bool-cases (str_eq (fingerprint n) k)) [
      | inl e ↦
          rw (place-get k n st t, e)
            (append_assoc (or_else (get k st.0) []) (n ∷ [])
              (filter (λ n. str_eq (fingerprint n) k) ns))
      | inr e ↦ rw (place-get k n st t, e) refl
    ]

pub groups_whole :
    (rows : List NeedView)
    → All
        (λ e. e.1 ≡ filter (λ n. str_eq (fingerprint n) e.0) (sort_by precedes rows))
        (grouping rows false).0
unfolding grouping
groups_whole rows =
    let (distinct, alike) = grouping-Invariant rows false in
    All-imp₂ (grouping rows false).0
      (λ (k, g) e h.
        sym (ap (λ o. or_else o []) e) ∙ group_all-get k (sort_by precedes rows) ([], []) h.0)
      (get-entry (grouping rows false).0 distinct) alike
