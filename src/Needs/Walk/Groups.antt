-- ===== src/Needs/Walk/Groups.antt =====
-- The groups of `buildWalk`: which needs they hold, and that no fingerprint is listed twice.
use bigfleet_web_dashboard.Prelude.{
  ◌≡◌, refl, sym, ap, ◌∙◌, Bool, true, not, ◌||◌, List, [], ◌∷◌, ◌++◌, Perm, String, arith, or_else,
  truthy, Bool-cases, inl, inr, filter, filter_congr_All, All, All-imp, str_eq, str_eq_iff,
  All-append,
}
use mathlib.Core.List.Perm
use mathlib.Core.List.{append-nil, append_assoc, perm_middle, perm_append_comm}
use mathlib.Core.Path.{subst}
use bigfleet_web_dashboard.Prelude.Dict.{
  Dict, get, set, keys, has, Distinct, set-Distinct, has-keys-filter_iff,
}
use bigfleet_web_dashboard.Prelude.Buckets.{members, members-push, push_other}
use bigfleet_web_dashboard.Prelude.Sort.{sort_by, sort_by-perm}
use bigfleet_web_dashboard.Api.Demand.{NeedView}
use bigfleet_web_dashboard.Needs.Precedence.{precedes}
use bigfleet_web_dashboard.Needs.Walk.{
  Group, Grouping, fingerprint, place, group_all, grouping, is_cohort, cohorts, push_singles,
  flat_tail,
}

place-perm :
    (show_cluster : Bool) (n : NeedView) (st : Grouping)
    → Perm
        (members (place show_cluster n st).0 ++ (place show_cluster n st).1)
        (n ∷ (members st.0 ++ st.1))
unfolding place
place-perm show_cluster n (groups, flat) =
    elim (Bool-cases (not (truthy (fingerprint n)) || show_cluster)) [
      | inl e ↦ rw e (
          rw (← append_assoc)
            (Perm.trans (perm_append_comm (members groups ++ flat) (n ∷ [])) Perm.rfl))
      | inr e ↦ rw e (Perm.append_right flat (members-push (fingerprint n) n groups))
    ]

group_all-perm :
    (show_cluster : Bool) (ns : List NeedView) (st : Grouping)
    → Perm
        (members (group_all show_cluster ns st).0 ++ (group_all show_cluster ns st).1)
        (ns ++ (members st.0 ++ st.1))
unfolding group_all
group_all-perm show_cluster [] st = Perm.rfl
group_all-perm show_cluster (n ∷ ns) st =
    Perm.trans (group_all-perm show_cluster ns (place show_cluster n st)) (
      Perm.trans (Perm.append_left ns (place-perm show_cluster n st))
        (perm_middle ns (members st.0 ++ st.1)))

-- Grouping loses no need and adds none.
pub grouping-perm :
    (rows : List NeedView) (show_cluster : Bool)
    → Perm (members (grouping rows show_cluster).0 ++ (grouping rows show_cluster).1) rows
unfolding grouping
grouping-perm rows show_cluster =
    Perm.trans (group_all-perm show_cluster (sort_by precedes rows) ([], []))
      (rw append-nil (sort_by-perm precedes rows))

-- What holds of every group: its members share its fingerprint, which is not empty.
abbrev pub IsGroup : Group → Type 0
IsGroup (fp, g) = (truthy fp ≡ true) × All (λ n. fingerprint n ≡ fp) g

record Invariant (groups : Dict (List NeedView)) : Type 0 where
  distinct : Distinct (keys groups)
  alike : All IsGroup groups

set-IsGroup :
    (k : String) (n : NeedView) (m : Dict (List NeedView))
    → truthy k ≡ true
    → fingerprint n ≡ k
    → All IsGroup m
    → All IsGroup (set k (or_else (get k m) [] ++ n ∷ []) m)
set-IsGroup k n [] t e h = ((t, (e, tt)), tt)
set-IsGroup k n ((j, g) ∷ m) t e h = elim (Bool-cases (str_eq j k)) [
  | inl q ↦ rw q (
      (
        (t, All-append _ g (n ∷ []) (All-imp g (λ x p. p ∙ (str_eq_iff j k).0 q) h.0.1) (e, tt)),
        h.1,
      ))
  | inr q ↦ subst (All IsGroup) (sym (push_other k j n g m q)) (h.0, set-IsGroup k n m t e h.1)
]

place-Invariant :
    (show_cluster : Bool) (n : NeedView) (st : Grouping)
    → Invariant st.0
    → Invariant (place show_cluster n st).0
unfolding place
place-Invariant show_cluster n (groups, flat) inv =
    elim (Bool-cases (not (truthy (fingerprint n)) || show_cluster)) [
      | inl e ↦ rw e inv
      | inr e ↦ rw e (record {
        distinct = set-Distinct (fingerprint n) _ groups inv.distinct;
        alike = set-IsGroup (fingerprint n) n groups (ground arith) refl inv.alike;
      })
    ]

group_all-Invariant :
    (show_cluster : Bool) (ns : List NeedView) (st : Grouping)
    → Invariant st.0
    → Invariant (group_all show_cluster ns st).0
unfolding group_all
group_all-Invariant show_cluster [] st inv = inv
group_all-Invariant show_cluster (n ∷ ns) st inv =
    group_all-Invariant show_cluster ns (place show_cluster n st)
      (place-Invariant show_cluster n st inv)

pub grouping-Invariant :
    (rows : List NeedView) (show_cluster : Bool)
    → Distinct (keys (grouping rows show_cluster).0) × All IsGroup (grouping rows show_cluster).0
unfolding grouping
grouping-Invariant rows show_cluster =
    let inv =
      group_all-Invariant show_cluster (sort_by precedes rows) ([], [])
        (record { distinct = tt; alike = tt }) in
    (inv.distinct, inv.alike)

push_singles_lem :
    (ks : List String) (groups : Dict (List NeedView)) (flat : List NeedView)
    → push_singles ks groups flat ≡ flat ++ members (filter (λ e. not (has e.0 ks)) groups)
unfolding push_singles
push_singles_lem ks [] flat = sym (append-nil flat)
push_singles_lem ks ((fp, g) ∷ groups) flat = elim (Bool-cases (has fp ks)) [
  | inl e ↦ rw e (push_singles_lem ks groups flat)
  | inr e ↦ rw e (
      push_singles_lem ks groups (flat ++ g)
      ∙ append_assoc flat g (members (filter (λ e. not (has e.0 ks)) groups)))
]

-- With distinct fingerprints the needs of the groups that are no cohort are pushed.
pub push_singles-members :
    (groups : Dict (List NeedView)) (flat : List NeedView)
    → Distinct (keys groups)
    → push_singles (keys (cohorts groups)) groups flat
      ≡ flat ++ members (filter (λ e. not (is_cohort e)) groups)
unfolding cohorts
push_singles-members groups flat distinct =
    push_singles_lem (keys (filter is_cohort groups)) groups flat
    ∙ ap (λ es. flat ++ members es)
        (filter_congr_All _ _ groups
          (All-imp groups (λ e p. ap not p) (has-keys-filter_iff is_cohort groups distinct)))

-- The flat tail holds them and what was flat.
pub flat_tail-perm :
    (groups : Dict (List NeedView)) (flat : List NeedView)
    → Distinct (keys groups)
    → Perm (flat_tail (groups, flat)) (flat ++ members (filter (λ e. not (is_cohort e)) groups))
unfolding flat_tail
flat_tail-perm groups flat distinct =
    Perm.trans (sort_by-perm precedes (push_singles (keys (cohorts groups)) groups flat))
      (rw (push_singles-members groups flat distinct) Perm.rfl)
