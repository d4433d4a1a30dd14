-- ===== src/Needs/Walk/Rows.antt =====
-- The needs that the walk of `buildWalk` shows.
use bigfleet_web_dashboard.Prelude.{
  ℕ, ◌+◌, ◌≡◌, refl, ap, ◌∙◌, Bool, not, List, [], ◌∷◌, ◌++◌, Perm, String, Option, Bool-cases, inl,
  inr, filter, filter_split-perm, length,
}
use mathlib.Core.List.Perm
use mathlib.Core.List.{append_assoc, perm_append_comm}
use bigfleet_web_dashboard.Prelude.Sort.{sort_by, sort_by-perm}
use bigfleet_web_dashboard.Api.Demand.{NeedView}
use bigfleet_web_dashboard.Needs.Walk.{
  WalkItem, header, cutline, row, Group, is_at, cohort_rows, cohort_items, all_cohort_items,
  flat_rows, is_cohort, leads, cohorts, grouping, flat_tail, build_walk, find_cut,
}
use bigfleet_web_dashboard.Prelude.Buckets.{members, members-append, members-perm}
use bigfleet_web_dashboard.Needs.Walk.Groups.{grouping-perm, grouping-Invariant, flat_tail-perm}

-- The needs of the rows, in order.
abbrev pub needs_of : List WalkItem → List NeedView
needs_of [] = []
needs_of (header key fp count contested supply ∷ items) = needs_of items
needs_of (cutline key below ∷ items) = needs_of items
needs_of (row key n ∷ items) = n ∷ needs_of items

needs_of-append : (xs ys : List WalkItem) → needs_of (xs ++ ys) ≡ needs_of xs ++ needs_of ys
needs_of-append [] ys = refl
needs_of-append (header key fp count contested supply ∷ xs) ys = needs_of-append xs ys
needs_of-append (cutline key below ∷ xs) ys = needs_of-append xs ys
needs_of-append (row key n ∷ xs) ys = ap (◌∷◌ n) (needs_of-append xs ys)

needs_of-cohort_rows :
    (fp : String) (total : ℕ) (cut : Option ℕ) (i : ℕ) (g : List NeedView)
    → needs_of (cohort_rows fp total cut i g) ≡ g
unfolding cohort_rows
needs_of-cohort_rows fp total cut i [] = refl
needs_of-cohort_rows fp total cut i (n ∷ g) = elim (Bool-cases (is_at cut i)) [
  | inl e ↦ rw e (ap (◌∷◌ n) (needs_of-cohort_rows fp total cut (i + 1) g))
  | inr e ↦ rw e (ap (◌∷◌ n) (needs_of-cohort_rows fp total cut (i + 1) g))
]

needs_of-all_cohort_items : (es : List Group) → needs_of (all_cohort_items es) ≡ members es
unfolding all_cohort_items cohort_items
needs_of-all_cohort_items [] = refl
needs_of-all_cohort_items ((fp, g) ∷ es) =
    needs_of-append (cohort_rows fp (length g) (find_cut 0 g) 0 g) (all_cohort_items es)
    ∙ cc (needs_of-cohort_rows fp (length g) (find_cut 0 g) 0 g, needs_of-all_cohort_items es)

needs_of-flat_rows : (i : ℕ) (ns : List NeedView) → needs_of (flat_rows i ns) ≡ ns
unfolding flat_rows
needs_of-flat_rows i [] = refl
needs_of-flat_rows i (n ∷ ns) = ap (◌∷◌ n) (needs_of-flat_rows (i + 1) ns)

needs_of-build_walk :
    (rows : List NeedView) (show_cluster : Bool)
    → needs_of (build_walk rows show_cluster)
      ≡ members (sort_by leads (cohorts (grouping rows show_cluster).0))
        ++ flat_tail (grouping rows show_cluster)
unfolding build_walk
needs_of-build_walk rows show_cluster =
    let st = grouping rows show_cluster in
    let es = sort_by leads (cohorts st.0) in
    needs_of-append (all_cohort_items es) (flat_rows 0 (flat_tail st))
    ∙ cc (needs_of-all_cohort_items es, needs_of-flat_rows 0 (flat_tail st))

-- The cohorts and the flat tail, together, are the groups and what was flat.
walk-perm :
    (groups : List Group) (flat : List NeedView)
    → Perm
        (members (filter is_cohort groups)
          ++ (flat ++ members (filter (λ e. not (is_cohort e)) groups)))
        (members groups ++ flat)
walk-perm groups flat =
    let yes_part = members (filter is_cohort groups) in
    let no_part = members (filter (λ e. not (is_cohort e)) groups) in
    Perm.trans (Perm.append_left yes_part (perm_append_comm flat no_part)) (
      rw (← append_assoc) (
        Perm.append_right flat
          (rw (← members-append) (members-perm (filter_split-perm is_cohort groups)))))

-- The walk shows every need that it is given exactly as often as it is given, whether the needs
-- are grouped or not.
pub build_walk-perm :
    (rows : List NeedView) (show_cluster : Bool)
    → Perm (needs_of (build_walk rows show_cluster)) rows
unfolding cohorts
build_walk-perm rows show_cluster =
    let st = grouping rows show_cluster in
    rw (needs_of-build_walk rows show_cluster) (
      Perm.trans
        (Perm.append (members-perm (sort_by-perm leads (cohorts st.0)))
          (flat_tail-perm st.0 st.1 (grouping-Invariant rows show_cluster).0))
        (Perm.trans (walk-perm st.0 st.1) (grouping-perm rows show_cluster)))
