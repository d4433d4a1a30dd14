-- ===== src/Needs/Page/Filters.antt =====
-- Which needs the needs page lists, and how the filters act on one another.
use bigfleet_web_dashboard.Prelude.{
  ◌≡◌, refl, sym, ap, ◌∙◌, Bool, true, false, not, ◌&&◌, ◌||◌, Option, none, some, List, [], ◌∷◌,
  String, arith, if◌then◌else◌, or_else, truthy, filter, count, length, str_eq, filter_congr,
}
use bigfleet_web_dashboard.Prelude.Dict.{get}
use bigfleet_web_dashboard.Api.Demand.{NeedView}
use bigfleet_web_dashboard.Needs.Page.{
  State, StatusFilter, all, satisfied, unmet, cluster, status, all_clusters, by_status, by_reason,
  scoped, rows, act, toggle, pick_reason, summary,
}
use bigfleet_web_dashboard.Needs.Page.Tallies.{unmet_for, summary_lem}

-- The three conditions on a listed need.
abbrev pub in_scope : State → NeedView → Bool
in_scope s n =
    not (truthy (cluster s)) || str_eq (cluster s) all_clusters || str_eq n.cluster_id (cluster s)

abbrev pub has_status : StatusFilter → NeedView → Bool
has_status all n = true
has_status satisfied n = n.satisfied
has_status unmet n = not n.satisfied

abbrev pub has_reason : Option String → NeedView → Bool
has_reason none n = true
has_reason (some r) n = not (truthy r) || (not n.satisfied && str_eq n.unmet_reason r)

module _ {A : Type 0} where
  filter-filter :
      (p q : A → Bool) (xs : List A) → filter q (filter p xs) ≡ filter (λ x. p x && q x) xs
  filter-filter p q [] = refl
  filter-filter p q (x ∷ xs) = ground (arith, filter-filter p q xs)

  filter-all : (xs : List A) → filter (λ x. true) xs ≡ xs
  filter-all [] = refl
  filter-all (x ∷ xs) = ap (◌∷◌ x) (filter-all xs)

  length-filter : (p : A → Bool) (xs : List A) → length (filter p xs) ≡ count p xs
  length-filter p [] = refl
  length-filter p (x ∷ xs) = ground (arith, length-filter p xs)

  filter_if :
      (b : Bool) (p : A → Bool) (xs : List A)
      → (if b then filter p xs else xs) ≡ filter (λ x. not b || p x) xs
  filter_if true p xs = refl
  filter_if false p xs = sym (filter-all xs)

scoped_lem : (s : State) (needs : List NeedView) → scoped s needs ≡ filter (in_scope s) needs
unfolding scoped
scoped_lem s needs =
    filter_if (truthy (cluster s) && not (str_eq (cluster s) all_clusters)) _ needs
    ∙ filter_congr _ (in_scope s) needs (λ n. ground arith)

by_status_lem : (t : StatusFilter) (ns : List NeedView) → by_status t ns ≡ filter (has_status t) ns
by_status_lem all ns = sym (filter-all ns)
by_status_lem satisfied ns = refl
by_status_lem unmet ns = refl

by_reason_lem : (r : Option String) (ns : List NeedView) → by_reason r ns ≡ filter (has_reason r) ns
by_reason_lem none ns = sym (filter-all ns)
by_reason_lem (some r) ns = filter_if (truthy r) (unmet_for r) ns

-- The page lists, in the order given, exactly the needs of the chosen cluster (of all, if none or
-- `*` is chosen) with the chosen status and, if a reason is picked that is not empty, unmet for
-- that reason.
pub rows_lem :
    (s : State) (needs : List NeedView)
    → rows s needs
      ≡ filter
          (λ n. (in_scope s n && has_status (status s) n) && has_reason s.reason_filter n)
          needs
unfolding rows
rows_lem s needs =
    by_reason_lem s.reason_filter (by_status (status s) (scoped s needs))
    ∙ ap (filter (has_reason s.reason_filter)) (
        by_status_lem (status s) (scoped s needs)
        ∙ ap (filter (has_status (status s))) (scoped_lem s needs)
        ∙ filter-filter (in_scope s) (has_status (status s)) needs)
    ∙ filter-filter (λ n. in_scope s n && has_status (status s) n) (has_reason s.reason_filter)
        needs

-- Picking a reason with no reason picked before and all statuses shown lists as many needs as the
-- summary counts under that reason, if the reason is not empty.
pub pick_reason-count :
    (s : State) (needs : List NeedView) (r : String)
    → s.reason_filter ≡ none
    → status s ≡ all
    → truthy r ≡ true
    → length (rows (act (pick_reason r) s) needs) ≡ or_else (get r (summary s needs).1) 0
unfolding rows act scoped
pick_reason-count s needs r h k t =
    ap (λ o. length (by_reason (toggle r o) (by_status (status s) (scoped s needs)))) h
    ∙ ap (λ st. length (by_reason (some r) (by_status st (scoped s needs)))) k
    ∙ rw t (length-filter (unmet_for r) (scoped s needs))
    ∙ sym ((summary_lem s needs).2 r)

-- Picking the empty reason filters nothing.
pub pick_reason_empty :
    (s : State) (needs : List NeedView)
    → s.reason_filter ≡ none
    → rows (act (pick_reason "") s) needs ≡ rows s needs
unfolding rows act scoped
pick_reason_empty s needs h = rw h refl
