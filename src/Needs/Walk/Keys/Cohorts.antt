-- ===== src/Needs/Walk/Keys/Cohorts.antt =====
-- No two items of the cohorts have the same key.

use text.Mathlib.TextLemmas.{append_cancel_left}
use bigfleet_web_dashboard.Prelude.{
  ℕ, ◌+◌, ◌-◌, ◌≤◌, ◌≡◌, ◌≢◌, refl, sym, ap, ◌∙◌, ◌⊎◌, inl, inr, true, Option, some, List, [], ◌∷◌,
  ◌++◌, String, arith, ◌<>◌, Bool-cases, length, All, All-imp, All-append, Ordered,
}
use bigfleet_web_dashboard.Prelude.Show.{show}
use bigfleet_web_dashboard.Api.Demand.{NeedView}
use bigfleet_web_dashboard.Needs.Walk.{
  WalkItem, header, cutline, row, Group, is_at, cohort_rows, cohort_items, contested, pool,
  all_cohort_items, find_cut,
}
use bigfleet_web_dashboard.Needs.Walk.Keys.{
  key_of, Differ, row_key, row_key_inj, kind, kind-append, tags_differ,
}

-- The keys that a cohort may have from place `i` on, with its cut at `cut`.
abbrev From : String → Option ℕ → ℕ → WalkItem → Type 0
From fp cut i it =
    ((j : ℕ) × (i ≤ j) × (key_of it ≡ row_key fp j))
    ⊎ ((c : ℕ) × (i ≤ c) × (cut ≡ some c) × (key_of it ≡ "c:" <> fp))

module _ (fp : String) (total : ℕ) (cut : Option ℕ) where
  From-suc : (i : ℕ) (it : WalkItem) → From fp cut (i + 1) it → From fp cut i it
  From-suc i it (inl (j, le, e)) = inl (j, omega arith, e)
  From-suc i it (inr (c, le, h, e)) = inr (c, omega arith, h, e)

  cohort_rows-From :
      (i : ℕ) (g : List NeedView) → All (From fp cut i) (cohort_rows fp total cut i g)
  unfolding cohort_rows
  cohort_rows-From i [] = tt
  cohort_rows-From i (n ∷ g) =
      let rest =
        All-imp (cohort_rows fp total cut (i + 1) g) (From-suc i) (cohort_rows-From (i + 1) g) in
      elim (Bool-cases (is_at cut i)) [
        | inl e ↦ rw e (inl (i, omega arith, refl), (inr (i, omega arith, at_place e, refl), rest))
        | inr e ↦ rw e (inl (i, omega arith, refl), rest)
      ]
    where
      at_place : is_at cut i ≡ true → cut ≡ some i
      at_place h = ground arith

module _ (fp : String) (total : ℕ) (cut : Option ℕ) where
  row_apart :
      (i : ℕ) (n : NeedView) (it : WalkItem)
      → From fp cut (i + 1) it
      → Differ (row (row_key fp i) n) it
  row_apart i n it (inl (j, le, e)) h = let same = (row_key_inj fp fp i j (h ∙ e)).1 in ground arith
  row_apart i n it (inr (c, le, at, e)) h =
      let tag = ap kind (h ∙ e) in
      ground (arith, kind-append "r" ":" (fp <> ":" <> show i), kind-append "c" ":" fp)

  cut_apart :
      (i k : ℕ) (it : WalkItem)
      → cut ≡ some i
      → From fp cut (i + 1) it
      → Differ (cutline ("c:" <> fp) k) it
  cut_apart i k it here (inl (j, le, e)) h =
      let tag = ap kind (h ∙ e) in
      ground (arith, kind-append "c" ":" fp, kind-append "r" ":" (fp <> ":" <> show j))
  cut_apart i k it here (inr (c, le, at, e)) h = ground arith

  cohort_rows-Differ : (i : ℕ) (g : List NeedView) → Ordered Differ (cohort_rows fp total cut i g)
  unfolding cohort_rows
  cohort_rows-Differ i [] = tt
  cohort_rows-Differ i (n ∷ g) =
      let rest = cohort_rows fp total cut (i + 1) g in
      let later = cohort_rows-From fp total cut (i + 1) g in
      let apart = All-imp rest (row_apart i n) later in
      elim (Bool-cases (is_at cut i)) [
        | inl e ↦ rw e (
          (cut_here e, apart),
          (
            All-imp rest (λ it. cut_apart i (total - i - 1) it (at_place e)) later,
            cohort_rows-Differ (i + 1) g,
          ),
        )
        | inr e ↦ rw e (apart, cohort_rows-Differ (i + 1) g)
      ]
    where
      at_place : is_at cut i ≡ true → cut ≡ some i
      at_place h = ground arith

      cut_here :
          is_at cut i ≡ true → Differ (row (row_key fp i) n) (cutline ("c:" <> fp) (total - i - 1))
      cut_here e h =
          ground (arith, kind-append "r" ":" (fp <> ":" <> show i), kind-append "c" ":" fp)

-- The keys that the items of a cohort may have.
abbrev pub Own : String → WalkItem → Type 0
Own fp it =
    (key_of it ≡ "h:" <> fp) ⊎ ((key_of it ≡ "c:" <> fp) ⊎ ((i : ℕ) × (key_of it ≡ row_key fp i)))

Own-Differ : (fp gp : String) (a b : WalkItem) → fp ≢ gp → Own fp a → Own gp b → Differ a b
Own-Differ fp gp a b ne (inl p) (inl q) e = ne (append_cancel_left "h:" fp gp (sym p ∙ e ∙ q))
Own-Differ fp gp a b ne (inl p) (inr (inl q)) e =
    tags_differ "h" "c" ":" ":" fp gp refl (sym p ∙ e ∙ q)
Own-Differ fp gp a b ne (inl p) (inr (inr (j, q))) e =
    tags_differ "h" "r" ":" ":" fp (gp <> ":" <> show j) refl (sym p ∙ e ∙ q)
Own-Differ fp gp a b ne (inr (inl p)) (inl q) e =
    tags_differ "c" "h" ":" ":" fp gp refl (sym p ∙ e ∙ q)
Own-Differ fp gp a b ne (inr (inl p)) (inr (inl q)) e =
    ne (append_cancel_left "c:" fp gp (sym p ∙ e ∙ q))
Own-Differ fp gp a b ne (inr (inl p)) (inr (inr (j, q))) e =
    tags_differ "c" "r" ":" ":" fp (gp <> ":" <> show j) refl (sym p ∙ e ∙ q)
Own-Differ fp gp a b ne (inr (inr (i, p))) (inl q) e =
    tags_differ "r" "h" ":" ":" (fp <> ":" <> show i) gp refl (sym p ∙ e ∙ q)
Own-Differ fp gp a b ne (inr (inr (i, p))) (inr (inl q)) e =
    tags_differ "r" "c" ":" ":" (fp <> ":" <> show i) gp refl (sym p ∙ e ∙ q)
Own-Differ fp gp a b ne (inr (inr (i, p))) (inr (inr (j, q))) e =
    ne (row_key_inj fp gp i j (sym p ∙ e ∙ q)).0

From-Own : (fp : String) (cut : Option ℕ) (i : ℕ) (it : WalkItem) → From fp cut i it → Own fp it
From-Own fp cut i it (inl (j, le, e)) = inr (inr (j, e))
From-Own fp cut i it (inr (c, le, at, e)) = inr (inl e)

pub cohort_items-Own : (e : Group) → All (Own e.0) (cohort_items e)
unfolding cohort_items
cohort_items-Own (fp, g) =
    let cut = find_cut 0 g in
    (
      inl refl,
      All-imp (cohort_rows fp (length g) cut 0 g) (From-Own fp cut 0)
          (cohort_rows-From fp (length g) cut 0 g),
    )

header_apart :
    (fp : String) (cut : Option ℕ) (h it : WalkItem)
    → key_of h ≡ "h:" <> fp
    → From fp cut 0 it
    → Differ h it
header_apart fp cut h it p (inl (j, le, q)) e =
    tags_differ "h" "r" ":" ":" fp (fp <> ":" <> show j) refl (sym p ∙ e ∙ q)
header_apart fp cut h it p (inr (c, le, at, q)) e =
    tags_differ "h" "c" ":" ":" fp fp refl (sym p ∙ e ∙ q)

cohort_items-Differ : (e : Group) → Ordered Differ (cohort_items e)
unfolding cohort_items
cohort_items-Differ (fp, g) =
    let cut = find_cut 0 g in
    (
      All-imp (cohort_rows fp (length g) cut 0 g)
          (λ it.
            header_apart fp cut (header ("h:" <> fp) fp (length g) (contested g) (pool g)) it refl)
          (cohort_rows-From fp (length g) cut 0 g),
      cohort_rows-Differ fp (length g) cut 0 g,
    )

pub Ordered-append :
    (R : WalkItem → WalkItem → Type 0) (xs ys : List WalkItem)
    → Ordered R xs
    → Ordered R ys
    → All (λ x. All (R x) ys) xs
    → Ordered R (xs ++ ys)
Ordered-append R [] ys h k across = k
Ordered-append R (x ∷ xs) ys h k across =
    (All-append (R x) xs ys h.0 across.0, Ordered-append R xs ys h.1 k across.1)

-- Items of other cohorts.
later_cohorts :
    (fp : String) (a : WalkItem) (es : List Group)
    → Own fp a
    → All (λ e. fp ≢ e.0) es
    → All (Differ a) (all_cohort_items es)
unfolding all_cohort_items
later_cohorts fp a [] own h = tt
later_cohorts fp a (e ∷ es) own h =
    All-append (Differ a) (cohort_items e) (all_cohort_items es)
      (All-imp (cohort_items e) (λ b. Own-Differ fp e.0 a b h.0 own) (cohort_items-Own e))
      (later_cohorts fp a es own h.1)

abbrev pub Apart : Group → Group → Type 0
Apart e f = e.0 ≢ f.0

pub all_cohort_items-Differ :
    (es : List Group) → Ordered Apart es → Ordered Differ (all_cohort_items es)
unfolding all_cohort_items
all_cohort_items-Differ [] h = tt
all_cohort_items-Differ (e ∷ es) h =
    Ordered-append Differ (cohort_items e) (all_cohort_items es) (cohort_items-Differ e)
      (all_cohort_items-Differ es h.1)
      (All-imp (cohort_items e) (λ a own. later_cohorts e.0 a es own h.0) (cohort_items-Own e))
