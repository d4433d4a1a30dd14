-- ===== src/Pages/FinOps.antt =====
-- ui/src/pages/FinOps.tsx: the data behind each section of the page. `Mix` holds the sections over
-- capacity types and penalty buckets, `Balance` the ones on demand, actions and red flags.
pub mod Mix
pub mod Balance
use bigfleet_web_dashboard.Prelude.{
  ℕ, Bool, true, false, not, ◌&&◌, ◌||◌, Option, none, some, List, [], ◌∷◌, ◌++◌, map, String,
  if◌then◌else◌, ◌==◌, ◌<>◌, or_else, length, take, filter,
}
use bigfleet_web_dashboard.Prelude.Dict.{Dict, get}
use bigfleet_web_dashboard.Prelude.Show.{join}
use bigfleet_web_dashboard.Prelude.Sort.{sort_by}
use bigfleet_web_dashboard.Engine.{Engine, ratio}
use bigfleet_web_dashboard.Format.Basic.{format_int, format_percent}
use bigfleet_web_dashboard.Api.Fleet.{FinOpsSnapshot, FinOpsTotals}
use bigfleet_web_dashboard.Needs.Kit.{Tone, neutral, warn, danger}

module _ (js : Engine) where
  open js use {Number, of_ℕ, add, mul, div, lt, to_fixed}

  pub record MixRow : Type 0 where
    pub ct : String
    pub configured : Number
    pub idle : Number

  -- `m[k] ?? 0`
  abbrev pub at : Dict Number → String → Number
  at m k = or_else (get k m) (of_ℕ 0)

  abbrev pub held_of : MixRow → Number
  held_of r = add r.configured r.idle

  unfoldable pub mix_rows : FinOpsSnapshot Number → List MixRow
  mix_rows snapshot =
      filter (λ r. lt (of_ℕ 0) (held_of r))
        (map
          (λ c. record {
            ct = c;
            configured = at snapshot.configured_by_capacity_type c;
            idle = at snapshot.idle_by_capacity_type c;
          })
          snapshot.capacity_types)

  abbrev pub fleet_total : FinOpsSnapshot Number → Number
  fleet_total snapshot = add snapshot.totals.configured_machines snapshot.totals.idle_machines

  abbrev pub idle_fraction : FinOpsSnapshot Number → Number
  idle_fraction snapshot =
      if lt (of_ℕ 0) (fleet_total snapshot)
      then div snapshot.totals.idle_machines (fleet_total snapshot)
      else of_ℕ 0

  unfoldable pub mix_description : Number → List MixRow → String
  unfolding join
  mix_description total [] = "no inventory yet."
  mix_description total (r ∷ []) = "100 % on " <> r.ct <> " capacity."
  mix_description total (r ∷ s ∷ rows) =
      join ", " (
        map
          (λ (m : MixRow).
            to_fixed (if lt (of_ℕ 0) total then mul (div (held_of m) total) (of_ℕ 100) else of_ℕ 0)
              0
            <> " % "
            <> m.ct)
          (take 4 (r ∷ s ∷ rows)))
      <> "."

  abbrev pub int : Number → String
  int n = format_int js (some n)

  abbrev pub sentence : Bool → String → List String
  sentence shown text = if shown then text ∷ [] else []

  unfoldable pub posture_summary : FinOpsSnapshot Number → List String
  unfolding mix_rows mix_description sort_by
  posture_summary snapshot =
      let totals = snapshot.totals in
      let total = fleet_total snapshot in
      let mix = sort_by (λ a b. lt (held_of b) (held_of a)) (mix_rows snapshot) in
      ("Your fleet currently holds " <> int total <> " machines — " <> mix_description total mix)
        ∷ sentence (lt (of_ℕ 0) totals.configured_machines) (
            int totals.configured_machines
            <> " are actively serving workloads; "
            <> int totals.idle_machines
            <> " sit idle as headroom ("
            <> format_percent js (some (idle_fraction snapshot)) 0
            <> " of the fleet).")
      ++ sentence (lt (of_ℕ 0) totals.demand_machines) (
          if lt total totals.demand_machines
          then "Workload demand currently exceeds total capacity ("
            <> int totals.demand_machines
            <> " requested vs "
            <> int total
            <> " available) — Phase 1 will be provisioning or preempting to close the gap."
          else "Workload demand is "
            <> int totals.demand_machines
            <> " machines, comfortably under capacity.")
      ++ sentence (lt (of_ℕ 0) totals.spot_configured_fraction) (
          format_percent js (some totals.spot_configured_fraction) 0
          <> " of Configured capacity is on Spot — the cheapest tier, at the cost of interruptibility.")
      ++ sentence (lt (of_ℕ 0) totals.pinned_configured_fraction) (
          format_percent js (some totals.pinned_configured_fraction) 1
          <> " of Configured capacity carries Pinned (never-interrupt) workloads.")
      ++ sentence (length snapshot.red_flags == 0 && lt (of_ℕ 0) totals.configured_machines)
          "No FinOps red flags right now — Phase 1's routing matches the penalty buckets it was given."

  -- The label of a tile, its value, its subtitle where it is not fixed copy, and its tone.
  pub record TileView : Type 0 where
    pub label : String
    pub value : String
    pub subtitle : Option String
    pub tone : Tone

  unfoldable pub key_metrics : FinOpsSnapshot Number → List TileView
  key_metrics snapshot =
      let totals = snapshot.totals in
      let total = fleet_total snapshot in
      record {
        label = "Active machines";
        value = int totals.configured_machines;
        subtitle = some "serving workloads (Configured)";
        tone = neutral;
      }
      ∷ record {
        label = "Idle headroom";
        value = int totals.idle_machines;
        subtitle =
            if lt (of_ℕ 0) total
            then some (format_percent js (some (idle_fraction snapshot)) 0 <> " of fleet")
            else none;
        tone = neutral;
      }
      ∷ record {
        label = "Workload demand";
        value = int totals.demand_machines;
        subtitle = some "machines worth of unfulfilled or running requests";
        tone = if lt total totals.demand_machines then danger else neutral;
      }
      ∷ record {
        label = "Spot share";
        value = format_percent js (some totals.spot_configured_fraction) 1;
        subtitle = some "of active capacity is interruptible";
        tone = if lt (ratio js 1 2) totals.spot_configured_fraction then warn else neutral;
      }
      ∷ record {
        label = "Pinned share";
        value = format_percent js (some totals.pinned_configured_fraction) 1;
        subtitle = some "never-interrupt workloads";
        tone = if lt (ratio js 5 100) totals.pinned_configured_fraction then warn else neutral;
      }
      ∷ []
