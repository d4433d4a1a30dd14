-- ===== src/Needs/Walk/Keys/Items.antt =====
-- The keys of the flat rows, and those of the whole walk.

use text.Mathlib.TextLemmas.{append_cancel_left}
use bigfleet_web_dashboard.Prelude.{
  ℕ, ◌+◌, ◌≤◌, ◌≡◌, refl, sym, ap, ◌∙◌, inl, inr, Bool, List, [], ◌∷◌, String, arith, ◌<>◌, All,
  All-imp, All-append, Ordered, Ordered-filter, filter, str_eq_iff,
}
use bigfleet_web_dashboard.Prelude.Show.{show, show_ℤ}
use bigfleet_web_dashboard.Prelude.Dict.{Dict, keys, Distinct, All-ne_of_has}
use bigfleet_web_dashboard.Prelude.Sort.{sort_by, sort_by-Ordered_symm}
use bigfleet_web_dashboard.Api.Demand.{NeedView}
use bigfleet_web_dashboard.Needs.Walk.{
  WalkItem, row, Group, is_cohort, leads, cohorts, cohort_items, all_cohort_items, flat_rows,
  flat_tail, grouping, build_walk,
}
use bigfleet_web_dashboard.Needs.Walk.Groups.{grouping-Invariant}
use bigfleet_web_dashboard.Needs.Walk.Keys.{key_of, Differ, tags_differ, lead, lead-show}
use bigfleet_web_dashboard.Needs.Walk.Keys.Cohorts.{
  Own, cohort_items-Own, Ordered-append, Apart, all_cohort_items-Differ,
}

-- The keys of the flat rows from place `i` on.
abbrev Flat : ℕ → WalkItem → Type 0
Flat i it = (j : ℕ) × (i ≤ j) × (t : String) × (key_of it ≡ "f:" <> show j <> ":" <> t)

flat_rows-Flat : (i : ℕ) (ns : List NeedView) → All (Flat i) (flat_rows i ns)
unfolding flat_rows
flat_rows-Flat i [] = tt
flat_rows-Flat i (n ∷ ns) = (
  (i, omega arith, n.cluster_id <> ":" <> show_ℤ n.priority, refl),
  All-imp (flat_rows (i + 1) ns) (λ it (j, le, t, e). (j, omega arith, t, e))
      (flat_rows-Flat (i + 1) ns),
)

later_rows :
    (i : ℕ) (t : String) (a b : WalkItem)
    → key_of a ≡ "f:" <> show i <> ":" <> t
    → Flat (i + 1) b
    → Differ a b
later_rows i t a b p (j, le, u, q) e =
    let tail = append_cancel_left "f:" (show i <> ":" <> t) (show j <> ":" <> u) (sym p ∙ e ∙ q) in
    let same : i ≡ j = sym (lead-show i t) ∙ ap (lead 0) tail ∙ lead-show j u in omega arith

flat_rows-Differ : (i : ℕ) (ns : List NeedView) → Ordered Differ (flat_rows i ns)
unfolding flat_rows
flat_rows-Differ i [] = tt
flat_rows-Differ i (n ∷ ns) =
    let tail = n.cluster_id <> ":" <> show_ℤ n.priority in
    (
      All-imp (flat_rows (i + 1) ns)
          (λ b. later_rows i tail (row ("f:" <> show i <> ":" <> tail) n) b refl)
          (flat_rows-Flat (i + 1) ns),
      flat_rows-Differ (i + 1) ns,
    )

Own-Flat : (fp : String) (i : ℕ) (a b : WalkItem) → Own fp a → Flat i b → Differ a b
Own-Flat fp i a b (inl p) (j, le, t, q) e =
    tags_differ "h" "f" ":" ":" fp (show j <> ":" <> t) refl (sym p ∙ e ∙ q)
Own-Flat fp i a b (inr (inl p)) (j, le, t, q) e =
    tags_differ "c" "f" ":" ":" fp (show j <> ":" <> t) refl (sym p ∙ e ∙ q)
Own-Flat fp i a b (inr (inr (k, p))) (j, le, t, q) e =
    tags_differ "r" "f" ":" ":" (fp <> ":" <> show k) (show j <> ":" <> t) refl (sym p ∙ e ∙ q)

flat_behind :
    (es : List Group) (ns : List NeedView)
    → All (λ a. All (Differ a) (flat_rows 0 ns)) (all_cohort_items es)
unfolding all_cohort_items
flat_behind [] ns = tt
flat_behind (e ∷ es) ns =
    All-append (λ a. All (Differ a) (flat_rows 0 ns)) (cohort_items e) (all_cohort_items es)
      (All-imp (cohort_items e)
        (λ a own. All-imp (flat_rows 0 ns) (λ b. Own-Flat e.0 0 a b own) (flat_rows-Flat 0 ns))
        (cohort_items-Own e))
      (flat_behind es ns)

Distinct-Apart : (m : Dict (List NeedView)) → Distinct (keys m) → Ordered Apart m
Distinct-Apart [] h = tt
Distinct-Apart ((k, g) ∷ m) h = (
  All-imp m (λ e ne same. ground (arith, str_eq_iff e.0 k)) (All-ne_of_has k m h.0),
  Distinct-Apart m h.1,
)

-- No two items of the walk have the same key, whatever the fingerprints and the clusters are.
pub build_walk-Differ :
    (rows : List NeedView) (show_cluster : Bool) → Ordered Differ (build_walk rows show_cluster)
unfolding build_walk cohorts
build_walk-Differ rows show_cluster =
    let st = grouping rows show_cluster in
    let es = sort_by leads (cohorts st.0) in
    Ordered-append Differ (all_cohort_items es) (flat_rows 0 (flat_tail st))
      (all_cohort_items-Differ es (
        sort_by-Ordered_symm leads Apart (λ e f ne same. ne (sym same)) (filter is_cohort st.0)
          (Ordered-filter Apart is_cohort st.0
            (Distinct-Apart st.0 (grouping-Invariant rows show_cluster).0))))
      (flat_rows-Differ 0 (flat_tail st)) (flat_behind es (flat_tail st))
