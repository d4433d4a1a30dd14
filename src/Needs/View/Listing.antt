-- ===== src/Needs/View/Listing.antt =====
-- The needs page end to end: which needs' rows its table holds.
use bigfleet_web_dashboard.Prelude.{
  ◌≡◌, ◌≢◌, refl, ap, ◌∙◌, ◌↔◌, Bool, true, ◌&&◌, Option, none, some, List, [], ◌∷◌, map, String,
  if◌then◌else◌, Perm, arith, ltb, ◌==◌, length, filter, leb, Bool-cases, inl, inr,
}
use mathlib.Core.List.{map-map}
use mathlib.Core.List.Perm
use bigfleet_web_dashboard.Engine.{Engine}
use bigfleet_web_dashboard.Ui.Query.{Query, wired}
use bigfleet_web_dashboard.Api.Fleet.{ClientConfig}
use bigfleet_web_dashboard.Api.Demand.{NeedView, NeedsResponse}
use bigfleet_web_dashboard.Needs.Walk.{WalkItem, header, cutline, row, build_walk}
use bigfleet_web_dashboard.Needs.Walk.Rows.{needs_of, build_walk-perm}
use bigfleet_web_dashboard.Needs.Page.{State, status, rows, show_cluster}
use bigfleet_web_dashboard.Needs.Page.Filters.{in_scope, has_status, has_reason, rows_lem}
use bigfleet_web_dashboard.Needs.Table.{
  is_row, virtualize_over, estimate_size, RowView, need_row, ItemView, header_view, cut_view,
  row_view, walk_row, TableView, whole, virtual, needs_table,
}
use bigfleet_web_dashboard.Needs.View.{ListedView, listed_view, body_view, needs_page}

some_length : (ns : List NeedView) → ns ≢ [] → ltb 0 (length ns) ≡ true
some_length [] h = absurd (h refl)
some_length (n ∷ ns) h = ground arith

-- A need that passes the filters.
abbrev pub is_match : State → NeedView → Bool
is_match s n = (in_scope s n && has_status (status s) n) && has_reason s.reason_filter n

module _ (js : Engine) where
  open js use {Number}

  abbrev pub rows_shown : List (ItemView js) → List (RowView js)
  rows_shown [] = []
  rows_shown (header_view h ∷ items) = rows_shown items
  rows_shown (cut_view text ∷ items) = rows_shown items
  rows_shown (row_view r ∷ items) = r ∷ rows_shown items

  -- The rows of a table, whichever form it takes.
  abbrev pub table_rows : TableView js → List (RowView js)
  table_rows (whole heads items) = rows_shown items
  table_rows (virtual heads items) = rows_shown (map (λ it. it.1) items)

  module _ (now : Number) (on : Bool) where
    rows_shown-walk_row :
        (items : List WalkItem)
        → rows_shown (map (walk_row js now on) items) ≡ map (need_row js now on) (needs_of items)
    unfolding walk_row
    rows_shown-walk_row [] = refl
    rows_shown-walk_row (header key fp count contested supply ∷ items) = rows_shown-walk_row items
    rows_shown-walk_row (cutline key below ∷ items) = rows_shown-walk_row items
    rows_shown-walk_row (row key n ∷ items) =
        ap (◌∷◌ (need_row js now on n)) (rows_shown-walk_row items)

    table_rows-needs_table :
        (items : List WalkItem)
        → table_rows (needs_table js now on items) ≡ map (need_row js now on) (needs_of items)
    unfolding needs_table
    table_rows-needs_table items =
        elim (Bool-cases (leb (length (filter is_row items)) virtualize_over)) [
          | inl e ↦ rw e (rows_shown-walk_row items)
          | inr e ↦ rw e (
              ap rows_shown
                (map-map (λ it. it.1) (λ it. (estimate_size it, walk_row js now on it)) items)
              ∙ rows_shown-walk_row items)
        ]

    -- The table of a list of needs.
    abbrev table_for : List NeedView → Option (TableView js)
    table_for rs = if length rs == 0 then none else some (needs_table js now on (build_walk rs on))

    table_for-none : (rs : List NeedView) → (table_for rs ≡ none) ↔ (rs ≡ [])
    table_for-none [] = (λ h. refl, λ h. refl)
    table_for-none (n ∷ rs) = (λ h. ground arith, λ h. ground arith)

    table_for-rows :
        (rs : List NeedView) (t : TableView js)
        → table_for rs ≡ some t
        → Perm (table_rows t) (map (need_row js now on) rs)
    table_for-rows rs t e =
        let same : t ≡ needs_table js now on (build_walk rs on) = ground arith in
        rw (same, table_rows-needs_table (build_walk rs on))
          (Perm.map (need_row js now on) (build_walk-perm rs on))

  -- With the coordinator wired, no error and an answer that holds needs, the page lists needs. It
  -- has no table exactly where no need passes the filters; a table has one row for each need that
  -- does, as often as the answer holds it, and no other row, whatever its form, its cohorts and
  -- its order.
  pub needs_page_lem :
      (encode : String → String) (same : NeedView → NeedView → Bool) (now : Number)
      (cfg : Query ClientConfig) (shard_ids : List String) (q : Query NeedsResponse) (s : State)
      (r : NeedsResponse)
      → wired (λ c. c.coordinator_wired) cfg ≡ true
      → q.error ≡ none
      → q.result ≡ some r
      → r.needs ≢ []
      → (v : ListedView js encode same) × ((needs_page js encode same now cfg shard_ids q
            s).body.listed
          ≡ some v)
        × ((v.table ≡ none) ↔ (filter (is_match s) r.needs ≡ []))
        × ((t : TableView js)
            → v.table ≡ some t
            → Perm
                (table_rows t)
                (map (need_row js now (show_cluster s)) (filter (is_match s) r.needs)))
  unfolding needs_page body_view listed_view
  needs_page_lem encode same now cfg shard_ids q s r on fine answered some_needs = (
    listed_view js encode same now s r.needs,
    rw (on, fine, answered, some_length r.needs some_needs) refl,
    rw (← rows_lem s r.needs) (table_for-none now (show_cluster s) (rows s r.needs)),
    λ t e. rw (← rows_lem s r.needs) (table_for-rows now (show_cluster s) (rows s r.needs) t e),
  )
