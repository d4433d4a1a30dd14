-- ===== src/Pages/AvailableCapacity.antt =====
-- ui/src/pages/AvailableCapacity.tsx.
pub mod Cards
use bigfleet_web_dashboard.Prelude.{
  Bool, not, ◌&&◌, ◌||◌, Option, none, some, List, [], ◌∷◌, map, String, if◌then◌else◌, ltb, ◌==◌,
  ◌<>◌, or_else, truthy, truthy?, length, is_some, filter, any,
}
use bigfleet_web_dashboard.Prelude.Dict.{Dict, get}
use bigfleet_web_dashboard.Prelude.Show.{show, join}
use bigfleet_web_dashboard.Prelude.Sort.{sort_by}
use bigfleet_web_dashboard.Engine.{Engine}
use bigfleet_web_dashboard.Format.Basic.{format_int}
use bigfleet_web_dashboard.Ui.Query.{Query}
use bigfleet_web_dashboard.Api.Reports.{AvailableCapacityItem, AvailableCapacityCluster}
use bigfleet_web_dashboard.Needs.Kit.{Tone, neutral, good, info, warn}

abbrev pub availability_tone : Dict Tone
availability_tone = ("High", good) ∷ ("Medium", info) ∷ ("Low", warn) ∷ ("None", neutral) ∷ []

abbrev pub has_items : AvailableCapacityCluster → Bool
has_items c = ltb 0 (length c.items)

-- `c.items.length > 0 || c.error`
abbrev pub is_listed : AvailableCapacityCluster → Bool
is_listed c = has_items c || truthy? c.error

module _ (js : Engine) where
  open js use {of_ℕ, locale_before}

  unfoldable pub capacity_text : Option (Dict String) → String
  unfolding join sort_by
  capacity_text none = "—"
  capacity_text (some m) = elim (sort_by (λ (a : String × String) b. locale_before a.0 b.0) m) [
    | [] ↦ "—"
    | x ∷ xs ↦ join " " (map (λ e. e.0 <> "=" <> e.1) (x ∷ xs))
  ]

  pub record HintRow : Type 0 where
    pub name : String
    pub resources : String
    pub available : String
    pub badge : Tone × String
    pub cost : String

  unfoldable pub hint_row : AvailableCapacityItem → HintRow
  unfolding capacity_text
  hint_row it = record {
    name = it.name;
    resources = capacity_text it.resources;
    available = format_int js (some (of_ℕ it.available_count));
    badge = (
      or_else (get it.availability availability_tone) neutral,
      if truthy it.availability then it.availability else "—",
    );
    cost = if truthy it.cost then "$" <> it.cost else "—";
  }

  -- A cluster's card: its error, or its hints behind their number.
  pub data CapacityCard : Type 0 where
    failed_card : (id : String) (error : String) → CapacityCard
    hints_card : (id : String) (subtitle : String) (hints : List HintRow) → CapacityCard

  unfoldable pub capacity_card : AvailableCapacityCluster → CapacityCard
  unfolding hint_row show
  capacity_card c =
      if truthy? c.error
      then failed_card c.id (or_else c.error "")
      else hints_card c.id (show (length c.items) <> " hint(s)") (map hint_row c.items)

  pub record CapacityView : Type 0 where
    pub error : Option String
    pub no_clusters : Bool
    pub no_hints : Bool
    pub cards : List CapacityCard

  unfoldable pub capacity_page : Bool → Query (List AvailableCapacityCluster) → CapacityView
  unfolding capacity_card
  capacity_page on q =
      let clusters = or_else q.result [] in
      let answered = on && not (is_some q.error) && is_some q.result in
      record {
        error = if on then q.error else none;
        no_clusters = answered && length clusters == 0;
        no_hints = answered && ltb 0 (length clusters) && not (any has_items clusters);
        cards =
            if on && not (is_some q.error)
            then map capacity_card (filter is_listed clusters)
            else [];
      }
