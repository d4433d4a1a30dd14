-- ===== src/Needs/Walk/Alone.antt =====
-- The needs of the flat tail of `buildWalk`: those that no cohort holds.
use bigfleet_web_dashboard.Prelude.{
  ◌≡◌, refl, sym, ap, ◌∙◌, ◌⊎◌, inl, inr, Bool, false, not, ◌||◌, List, [], ◌∷◌, String, arith,
  truthy, Bool-cases, filter, count, length, All, All-imp, All-imp₂, All-append, All-filter,
  filter-All, str_eq,
}
use bigfleet_web_dashboard.Prelude.Perms.{count-perm}
use bigfleet_web_dashboard.Prelude.Dict.{keys}
use bigfleet_web_dashboard.Prelude.Buckets.{members}
use bigfleet_web_dashboard.Prelude.Sort.{sort_by, sort_by-perm, sort_by-All}
use bigfleet_web_dashboard.Api.Demand.{NeedView}
use bigfleet_web_dashboard.Needs.Precedence.{precedes}
use bigfleet_web_dashboard.Needs.Walk.{
  Group, Grouping, fingerprint, place, group_all, grouping, is_cohort, cohorts, push_singles,
  flat_tail,
}
use bigfleet_web_dashboard.Needs.Walk.Groups.{IsGroup, grouping-Invariant, push_singles-members}
use bigfleet_web_dashboard.Needs.Walk.Whole.{groups_whole}

abbrev pub of_fingerprint : String → NeedView → Bool
of_fingerprint k n = str_eq (fingerprint n) k

-- A need whose fingerprint is empty, or that no other need shares it with.
abbrev pub IsAlone : List NeedView → NeedView → Type 0
IsAlone rows n =
    (truthy (fingerprint n) ≡ false) ⊎ (count (of_fingerprint (fingerprint n)) rows ≡ 1)

abbrev Unnamed : NeedView → Type 0
Unnamed n = truthy (fingerprint n) ≡ false

place-Unnamed : (n : NeedView) (st : Grouping) → All Unnamed st.1 → All Unnamed (place false n st).1
unfolding place
place-Unnamed n (groups, flat) h = elim (Bool-cases (not (truthy (fingerprint n)) || false)) [
  | inl e ↦ rw e (All-append Unnamed flat (n ∷ []) h (ground arith, tt))
  | inr e ↦ rw e h
]

group_all-Unnamed :
    (ns : List NeedView) (st : Grouping) → All Unnamed st.1 → All Unnamed (group_all false ns st).1
unfolding group_all
group_all-Unnamed [] st h = h
group_all-Unnamed (n ∷ ns) st h = group_all-Unnamed ns (place false n st) (place-Unnamed n st h)

length-filter : (p : NeedView → Bool) (xs : List NeedView) → length (filter p xs) ≡ count p xs
length-filter p [] = refl
length-filter p (x ∷ xs) = ground (arith, length-filter p xs)

All-members :
    (P : NeedView → Type 0) (es : List Group) → All (λ e. All P e.1) es → All P (members es)
All-members P [] h = tt
All-members P ((k, g) ∷ es) h = All-append P g (members es) h.0 (All-members P es h.1)

module _ (rows : List NeedView) where
  alone :
      (e : Group)
      → IsGroup e
      → e.1 ≡ filter (of_fingerprint e.0) (sort_by precedes rows)
      → is_cohort e ≡ false
      → All (IsAlone rows) e.1
  alone (k, []) alike whole small = tt
  alone (k, n ∷ (m ∷ g)) alike whole small = ground arith
  alone (k, n ∷ []) alike whole small =
      let once : count (of_fingerprint k) rows ≡ 1 =
        sym (count-perm (of_fingerprint k) (sort_by-perm precedes rows))
        ∙ sym (length-filter (of_fingerprint k) (sort_by precedes rows))
        ∙ sym (ap length whole) in
      (inr (ap (λ j. count (of_fingerprint j) rows) alike.1.0 ∙ once), tt)

  flat_Unnamed : All Unnamed (grouping rows false).1
  unfolding grouping
  flat_Unnamed = group_all-Unnamed (sort_by precedes rows) ([], []) tt

  -- No need of the flat tail could stand in a cohort.
  pub flat_tail-IsAlone : All (IsAlone rows) (flat_tail (grouping rows false))
  unfolding flat_tail
  flat_tail-IsAlone =
      let st = grouping rows false in
      let (distinct, alike) = grouping-Invariant rows false in
      let single = λ (e : Group). not (is_cohort e) in
      let Sound =
        λ (e : Group). IsGroup e × (e.1 ≡ filter (of_fingerprint e.0) (sort_by precedes rows)) in
      let sound : All Sound (filter single st.0) =
        All-filter Sound single st.0 (All-imp₂ st.0 (λ e h k. (h, k)) alike (groups_whole rows)) in
      let tails : All (λ e. All (IsAlone rows) e.1) (filter single st.0) =
        All-imp₂ (filter single st.0) (λ e h small. alone e h.0 h.1 (ground arith)) sound
          (filter-All single st.0) in
      sort_by-All precedes (IsAlone rows) (push_singles (keys (cohorts st.0)) st.0 st.1) (
        rw (push_singles-members st.0 st.1 distinct) (
          All-append (IsAlone rows) st.1 (members (filter single st.0))
            (All-imp st.1 (λ n h. inl h) flat_Unnamed)
            (All-members (IsAlone rows) (filter single st.0) tails)))
