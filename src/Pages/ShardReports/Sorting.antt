-- ===== src/Pages/ShardReports/Sorting.antt =====
-- The field that the shortfalls are sorted by, in the URL, and the buttons that choose it.
use bigfleet_web_dashboard.Prelude.{
  ◌≡◌, refl, ap, ◌∙◌, Bool, false, List, [], ◌∷◌, map, String, if◌then◌else◌, filter, str_eq,
  truthy,
}
use bigfleet_web_dashboard.Prelude.Dict.{Dict}
use bigfleet_web_dashboard.Ui.SearchParam.{value, set_value, value-set_value}
use bigfleet_web_dashboard.Pages.ShardReports.{SortField, priority, age, bucket, sort_field}

abbrev pub field_text : SortField → String
field_text priority = "priority"
field_text age = "age"
field_text bucket = "bucket"

unfoldable pub current_sort : Dict String → SortField
unfolding sort_field value
current_sort params = sort_field (value "sort" "priority" params)

-- A click on the button of a field.
unfoldable pub pick_sort : SortField → Dict String → Dict String
unfolding set_value
pick_sort f params = set_value "sort" "priority" (field_text f) params

pub record SortButton : Type 0 where
  pub label : String
  pub highlighted : Bool

unfoldable pub sort_control : SortField → List SortButton
sort_control sort =
    map
      (λ (f : SortField). record {
        label = field_text f;
        highlighted = str_eq (field_text sort) (field_text f);
      })
      (priority ∷ age ∷ bucket ∷ [])

-- The labels of the buttons that are highlighted.
abbrev pub highlighted_labels : List SortButton → List String
highlighted_labels buttons =
    map (λ (b : SortButton). b.label) (filter (λ (b : SortButton). b.highlighted) buttons)

one_highlighted : (f : SortField) → highlighted_labels (sort_control f) ≡ field_text f ∷ []
unfolding sort_control str_eq
one_highlighted priority = refl
one_highlighted age = refl
one_highlighted bucket = refl

sort_field-field_text : (f : SortField) → sort_field (field_text f) ≡ f
unfolding sort_field str_eq
sort_field-field_text priority = refl
sort_field-field_text age = refl
sort_field-field_text bucket = refl

written :
    (f : SortField) → (if truthy (field_text f) then field_text f else "priority") ≡ field_text f
written priority = refl
written age = refl
written bucket = refl

-- Whatever the URL holds, a click on a field's button sorts by that field, of the buttons that one
-- alone is highlighted then, and the other parameters keep their values.
pub current_sort-pick_sort :
    (f : SortField) (params : Dict String)
    → (current_sort (pick_sort f params) ≡ f)
      × (highlighted_labels (sort_control (current_sort (pick_sort f params))) ≡ field_text f ∷ [])
      × ((j other : String)
          → str_eq "sort" j ≡ false
          → value j other (pick_sort f params) ≡ value j other params)
unfolding current_sort pick_sort
current_sort-pick_sort f params =
    let (own, away) = value-set_value "sort" "priority" (field_text f) params in
    let back : current_sort (pick_sort f params) ≡ f =
      ap sort_field (own ∙ written f) ∙ sort_field-field_text f in
    (back, ap (λ g. highlighted_labels (sort_control g)) back ∙ one_highlighted f, away)
