-- ===== src/Pages/AvailableCapacity/Cards.antt =====
-- Which cards stand beside the notices of the capacity page.
use bigfleet_web_dashboard.Prelude.{
  ◌≡◌, refl, Bool, true, false, not, ◌&&◌, none, List, [], ◌∷◌, map, arith, ◌==◌, or_else, length,
  is_some, filter, any, All, Bool-cases, inl, inr,
}
use bigfleet_web_dashboard.Engine.{Engine}
use bigfleet_web_dashboard.Ui.Query.{Query}
use bigfleet_web_dashboard.Api.Reports.{AvailableCapacityCluster}
use bigfleet_web_dashboard.Pages.AvailableCapacity.{
  CapacityCard, failed_card, hints_card, capacity_card, capacity_page, has_items, is_listed,
}

module _ (js : Engine) where
  -- The card of an error.
  abbrev pub is_failed : CapacityCard js → Bool
  is_failed (failed_card id error) = true
  is_failed (hints_card id subtitle hints) = false

  failed_cards :
      (cs : List AvailableCapacityCluster)
      → any has_items cs ≡ false
      → All (λ k. is_failed k ≡ true) (map (capacity_card js) (filter is_listed cs))
  unfolding capacity_card
  failed_cards [] h = tt
  failed_cards (c ∷ cs) h = elim (Bool-cases (is_listed c)) [
    | inl e ↦ rw e (ground arith, failed_cards cs (ground arith))
    | inr e ↦ rw e (failed_cards cs (ground arith))
  ]

  listed_of_none :
      (cs : List AvailableCapacityCluster)
      → (length cs == 0) ≡ true
      → map (capacity_card js) (filter is_listed cs) ≡ []
  listed_of_none [] h = refl
  listed_of_none (c ∷ cs) h = ground arith

  -- At most one of the error and the two notices is shown. Beside the notice that there are no hints
  -- every card is an error's, and beside the others there is no card.
  pub capacity_page_lem :
      (on : Bool) (q : Query (List AvailableCapacityCluster))
      → ((capacity_page js on q).no_hints ≡ true
          → ((capacity_page js on q).error ≡ none)
            × ((capacity_page js on q).no_clusters ≡ false)
            × All (λ k. is_failed k ≡ true) (capacity_page js on q).cards)
        × ((capacity_page js on q).no_clusters ≡ true
            → ((capacity_page js on q).error ≡ none) × ((capacity_page js on q).cards ≡ []))
        × (is_some (capacity_page js on q).error ≡ true → (capacity_page js on q).cards ≡ [])
  unfolding capacity_page
  capacity_page_lem on q = (
    λ h.
        let fine : on && not (is_some q.error) ≡ true = ground arith in
        (ground arith, ground arith, rw fine (failed_cards (or_else q.result []) (ground arith))),
    λ h. (ground arith, ground (arith, listed_of_none (or_else q.result []))),
    λ h. ground arith,
  )
