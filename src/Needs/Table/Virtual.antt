-- ===== src/Needs/Table/Virtual.antt =====
-- `VirtualRows` of ui/src/pages/Needs.tsx. The virtualizer is a third-party hook: the items that it
-- gives and its total size are arguments. By default it gives those of consecutive indices.
use bigfleet_web_dashboard.Prelude.{
  ℕ, zero, suc, ◌≡◌, ◌⊎◌, inl, inr, refl, sym, ap, ◌∙◌, none, some, List, [], ◌∷◌, map, arith,
  length, take, drop,
}
use bigfleet_web_dashboard.Ui.Widgets.{get_elem?}
use bigfleet_web_dashboard.Needs.Walk.{WalkItem}

-- What `getVirtualItems` gives of an item, as far as it is read: which it is, and where it starts.
pub record VirtualItem : Type 0 where
  pub index : ℕ
  pub start : ℕ

-- A row that is drawn, at its distance from the top.
pub record DrawnRow : Type 0 where
  pub top : ℕ
  pub item : WalkItem

pub record VirtualView : Type 0 where
  pub height : ℕ
  pub drawn : List DrawnRow

-- An index past the items draws nothing.
unfoldable pub drawn_rows : List WalkItem → List VirtualItem → List DrawnRow
drawn_rows items [] = []
drawn_rows items (v ∷ vs) =
    let rest = drawn_rows items vs in
    elim (get_elem? items v.index) [
      | none ↦ rest
      | some it ↦ record { top = v.start; item = it } ∷ rest
    ]

unfoldable pub virtual_rows : List WalkItem → ℕ → List VirtualItem → VirtualView
unfolding drawn_rows
virtual_rows items total vs = record { height = total; drawn = drawn_rows items vs }

-- Virtual items of consecutive indices, from the a-th on.
abbrev pub IsRun : ℕ → List VirtualItem → Type 0
IsRun a [] = Unit
IsRun a (v ∷ vs) = (v.index ≡ a) × IsRun (suc a) vs

-- The item at an index, and those behind it.
drop_cases :
    (items : List WalkItem) (a : ℕ)
    → ((get_elem? items a ≡ none) × (drop a items ≡ []))
      ⊎ ((x : WalkItem) × (get_elem? items a ≡ some x) × (drop a items ≡ x ∷ drop (suc a) items))
drop_cases [] zero = inl (refl, refl)
drop_cases [] (suc a) = inl (refl, refl)
drop_cases (x ∷ xs) zero = inr (x, refl, refl)
drop_cases (x ∷ xs) (suc a) = drop_cases xs a

drop_past : (items : List WalkItem) (a : ℕ) → drop a items ≡ [] → drop (suc a) items ≡ []
drop_past [] zero h = refl
drop_past [] (suc a) h = refl
drop_past (x ∷ xs) zero h = absurd (ground arith)
drop_past (x ∷ xs) (suc a) h = drop_past xs a h

take_none : {A : Type 0} (n : ℕ) → take {A = A} n [] ≡ []
take_none zero = refl
take_none (suc n) = refl

drawn_items :
    (items : List WalkItem) (a : ℕ) (vs : List VirtualItem)
    → IsRun a vs
    → (map (λ (r : DrawnRow). r.item) (drawn_rows items vs) ≡ take (length vs) (drop a items))
      × (map (λ (r : DrawnRow). r.top) (drawn_rows items vs)
          ≡ take (length (drop a items)) (map (λ (v : VirtualItem). v.start) vs))
unfolding drawn_rows
drawn_items items a [] h = (refl, sym (take_none (length (drop a items))))
drawn_items items a (v ∷ vs) h =
    let ih = drawn_items items (suc a) vs h.1 in
    elim (drop_cases items a) [
      | inl (e, d) ↦
          let past = drop_past items a d in
          rw (h.0, e, d, drawn_rows)
            (
              ih.0 ∙ ap (take (length vs)) past ∙ take_none (length vs),
              ih.1 ∙ ap (λ ys. take (length ys) (map (λ (v : VirtualItem). v.start) vs)) past,
            )
      | inr (x, e, d) ↦ rw (h.0, e, d, drawn_rows) (ap (◌∷◌ x) ih.0, ap (◌∷◌ v.start) ih.1)
    ]

-- Where the virtualizer gives items of consecutive indices from `a` on, the rows drawn are the
-- items of that stretch of the walk in their order, as `items.slice` cuts them out, each at the
-- start that it was given; what the stretch has past the end of the walk draws nothing.
pub virtual_rows_lem :
    (items : List WalkItem) (total a : ℕ) (vs : List VirtualItem)
    → IsRun a vs
    → (map (λ (r : DrawnRow). r.item) (virtual_rows items total vs).drawn
        ≡ take (length vs) (drop a items))
      × (map (λ (r : DrawnRow). r.top) (virtual_rows items total vs).drawn
          ≡ take (length (drop a items)) (map (λ (v : VirtualItem). v.start) vs))
unfolding virtual_rows
virtual_rows_lem items total a vs h = drawn_items items a vs h
