-- ===== src/Needs/Walk/Cut.antt =====
-- The cut-line of a cohort: where `buildWalk` puts it and what it counts.
use bigfleet_web_dashboard.Prelude.{
  ℕ, ◌+◌, ◌-◌, ◌<◌, ◌≡◌, refl, sym, ap, ◌∙◌, ◌⊎◌, inl, inr, true, false, List, [], ◌∷◌, ◌++◌, none,
  some, String, arith, Bool-cases, length, length-append, ◌<>◌, ==_iff,
}
use mathlib.Core.List.{head-eq_of_cons-eq}
use bigfleet_web_dashboard.Prelude.Show.{show}
use bigfleet_web_dashboard.Api.Demand.{NeedView}
use bigfleet_web_dashboard.Needs.Walk.{
  header, cutline, row, is_cut, find_cut, cohort_rows, cohort_items, contested, pool,
}

-- No need that claimed machines stands directly above an unmet one that claimed none.
abbrev pub NoCut : List NeedView → Type 0
NoCut [] = Unit
NoCut (a ∷ []) = Unit
NoCut (a ∷ (b ∷ g)) = (is_cut a b ≡ false) × NoCut (b ∷ g)

-- A cohort split at its cut: `x` is the last above the line and `y` the first below it.
pub record Split (g : List NeedView) : Type 0 where
  pub above : List NeedView
  pub x : NeedView
  pub y : NeedView
  pub below : List NeedView
  pub parts : g ≡ (above ++ x ∷ []) ++ y ∷ below
  pub is_cut_here : is_cut x y ≡ true
  pub none_above : NoCut (above ++ x ∷ [])

NoCut-cons :
    (a b : NeedView) (g : List NeedView) (above : List NeedView) (x : NeedView)
    (rest : List NeedView)
    → b ∷ g ≡ (above ++ x ∷ []) ++ rest
    → is_cut a b ≡ false
    → NoCut (above ++ x ∷ [])
    → NoCut (a ∷ (above ++ x ∷ []))
NoCut-cons a b g [] x rest e h k = (rw (head-eq_of_cons-eq e) at h, tt)
NoCut-cons a b g (c ∷ above) x rest e h k = (rw (head-eq_of_cons-eq e) at h, k)

find_cut_cases :
    (i : ℕ) (g : List NeedView)
    → ((find_cut i g ≡ none) × NoCut g)
      ⊎ ((s : Split g) × (find_cut i g ≡ some (i + length s.above)))
unfolding find_cut
find_cut_cases i [] = inl (refl, tt)
find_cut_cases i (a ∷ []) = inl (refl, tt)
find_cut_cases i (a ∷ (b ∷ g)) = elim (Bool-cases (is_cut a b)) [
  | inl e ↦ inr (
    record { above = []; x = a; y = b; below = g; parts = refl; is_cut_here = e; none_above = tt },
    rw e (ap some (omega arith)),
  )
  | inr e ↦ elim (find_cut_cases (i + 1) (b ∷ g)) [
    | inl (f, nc) ↦ inl (rw e f, (e, nc))
    | inr (s, f) ↦ inr (
      record {
        above = a ∷ s.above;
        x = s.x;
        y = s.y;
        below = s.below;
        parts = ap (◌∷◌ a) s.parts;
        is_cut_here = s.is_cut_here;
        none_above = NoCut-cons a b g s.above s.x (s.y ∷ s.below) s.parts e s.none_above;
      },
      rw e (f ∙ ap some (omega arith)),
    )
  ]
]

module _ (fp : String) (total : ℕ) where
  -- Behind the cut the rows are plain.
  rows_behind :
      (c i : ℕ) (g : List NeedView)
      → c < i
      → cohort_rows fp total (some c) i g ≡ cohort_rows fp total none i g
  unfolding cohort_rows
  rows_behind c i [] h = refl
  rows_behind c i (n ∷ g) h = ground (arith, rows_behind c (i + 1) g)

  rows_at :
      (i c : ℕ) (above : List NeedView) (x : NeedView) (rest : List NeedView)
      → c ≡ i + length above
      → cohort_rows fp total (some c) i ((above ++ x ∷ []) ++ rest)
        ≡ cohort_rows fp total none i (above ++ x ∷ [])
          ++ cutline ("c:" <> fp) (total - c - 1) ∷ cohort_rows fp total none (c + 1) rest
  unfolding cohort_rows
  rows_at i c [] x rest e =
      let here : c ≡ i = omega arith in
      rw ((==_iff i c).1 (sym here), here)
        (ap (λ l. row ("r:" <> fp <> ":" <> show i) x ∷ cutline ("c:" <> fp) (total - i - 1) ∷ l)
          (rows_behind c (i + 1) rest (omega arith)))
  rows_at i c (a ∷ above) x rest e = ground (arith, rows_at (i + 1) c above x rest)

-- The items of a cohort are its header and its rows in order. If an unmet need that claimed
-- nothing stands directly below one that claimed machines, one cut-line stands between the first
-- such two, and it counts the needs below it; otherwise there is none.
pub cohort_items_cases :
    (fp : String) (g : List NeedView)
    → (NoCut g
        × (cohort_items (fp, g)
            ≡ header ("h:" <> fp) fp (length g) (contested g) (pool g)
              ∷ cohort_rows fp (length g) none 0 g))
      ⊎ ((s : Split g) × (cohort_items (fp, g)
            ≡ header ("h:" <> fp) fp (length g) (contested g) (pool g)
              ∷ (cohort_rows fp (length g) none 0 (s.above ++ s.x ∷ [])
                  ++ cutline ("c:" <> fp) (length (s.y ∷ s.below))
                    ∷ cohort_rows fp (length g) none (length s.above + 1) (s.y ∷ s.below))))
unfolding cohort_items
cohort_items_cases fp g = elim (find_cut_cases 0 g) [
  | inl (e, nc) ↦ inl (nc, rw e refl)
  | inr (s, e) ↦ inr (s, split_items s (e ∙ ap some (omega arith)))
]
  where
    split_items :
        (s : Split g)
        → find_cut 0 g ≡ some (length s.above)
        → cohort_items (fp, g)
          ≡ header ("h:" <> fp) fp (length g) (contested g) (pool g)
            ∷ (cohort_rows fp (length g) none 0 (s.above ++ s.x ∷ [])
                ++ cutline ("c:" <> fp) (length (s.y ∷ s.below))
                  ∷ cohort_rows fp (length g) none (length s.above + 1) (s.y ∷ s.below))
    split_items s e =
        let size : length g - length s.above - 1 ≡ length (s.y ∷ s.below) = omega (
          arith,
          ap length s.parts,
          length-append (s.above ++ s.x ∷ []) (s.y ∷ s.below),
          length-append s.above (s.x ∷ []),
        ) in
        rw e (
          ap (◌∷◌ (header ("h:" <> fp) fp (length g) (contested g) (pool g))) (
            ap (cohort_rows fp (length g) (some (length s.above)) 0) s.parts
            ∙ rows_at fp (length g) 0 (length s.above) s.above s.x (s.y ∷ s.below) (omega arith)
            ∙ ap
                (λ k.
                  cohort_rows fp (length g) none 0 (s.above ++ s.x ∷ [])
                  ++ cutline ("c:" <> fp) k
                    ∷ cohort_rows fp (length g) none (length s.above + 1) (s.y ∷ s.below))
                size))
