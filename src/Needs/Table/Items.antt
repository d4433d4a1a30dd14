-- ===== src/Needs/Table/Items.antt =====
-- How many rows the walk has, and which of its forms the table takes.
use bigfleet_web_dashboard.Prelude.{
  suc, ◌≤◌, ◌<◌, ◌≡◌, refl, ap, ◌∙◌, Bool, List, [], ◌∷◌, map, arith, length, filter,
}
use bigfleet_web_dashboard.Prelude.Perms.{length-perm}
use bigfleet_web_dashboard.Engine.{Engine}
use bigfleet_web_dashboard.Api.Demand.{NeedView}
use bigfleet_web_dashboard.Needs.Walk.{WalkItem, header, cutline, row, build_walk}
use bigfleet_web_dashboard.Needs.Walk.Rows.{needs_of, build_walk-perm}
use bigfleet_web_dashboard.Needs.Table.{
  is_row, virtualize_over, estimate_size, head_cells, walk_row, whole, virtual, needs_table,
}

length-filter-is_row :
    (items : List WalkItem) → length (filter is_row items) ≡ length (needs_of items)
unfolding is_row
length-filter-is_row [] = refl
length-filter-is_row (header key fp count contested supply ∷ items) = length-filter-is_row items
length-filter-is_row (cutline key below ∷ items) = length-filter-is_row items
length-filter-is_row (row key n ∷ items) = ap suc (length-filter-is_row items)

rows_of_walk :
    (rows : List NeedView) (show_cluster : Bool)
    → length (filter is_row (build_walk rows show_cluster)) ≡ length rows
rows_of_walk rows show_cluster =
    length-filter-is_row (build_walk rows show_cluster)
    ∙ length-perm (build_walk-perm rows show_cluster)

-- The table of up to 150 needs holds every item of their walk; that of more is the virtual list of
-- the same items, each with its estimated height. Headers and cut-lines do not count.
pub needs_table_lem :
    (js : Engine) (now : js.Number) (show_cluster : Bool) (rows : List NeedView)
    → (length rows ≤ virtualize_over
        → needs_table js now show_cluster (build_walk rows show_cluster)
          ≡ whole
              (head_cells show_cluster)
              (map (walk_row js now show_cluster) (build_walk rows show_cluster)))
      × (virtualize_over < length rows
          → needs_table js now show_cluster (build_walk rows show_cluster)
            ≡ virtual (head_cells show_cluster) (
                map
                  (λ it. (estimate_size it, walk_row js now show_cluster it))
                  (build_walk rows show_cluster)))
unfolding needs_table
needs_table_lem js now show_cluster rows = (
  λ h. rw (rows_of_walk rows show_cluster) (ground arith),
  λ h. rw (rows_of_walk rows show_cluster) (ground arith),
)
