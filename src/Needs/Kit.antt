-- ===== src/Needs/Kit.antt =====
-- ui/src/pages/needsKit.tsx: reasons, coverage and chunks of a need, and what the kit's panels
-- show of it. A panel is the texts, tones and fractions that it draws.
pub mod Coverage
pub mod Panels
pub mod Verdict
pub mod Shape
use bigfleet_web_dashboard.Prelude.{
  ℕ, Bool, true, false, not, Option, none, some, List, [], ◌∷◌, String, if◌then◌else◌, ◌<>◌, truthy,
  or_else, length,
}
use bigfleet_web_dashboard.Prelude.Dict.{Dict, get}
use bigfleet_web_dashboard.Engine.{Engine, le, min, max}
use bigfleet_web_dashboard.Format.Quantity.{parse_quantity}
use bigfleet_web_dashboard.Api.Demand.{NeedView}

pub data Tone : Type 0 where
  neutral good warn danger info violet accent muted : Tone

-- `explain` and `action` are fixed copy and are left out; `acts` says whether there is an action.
pub record ReasonMeta : Type 0 where
  pub label : String
  pub tone : Tone
  pub acts : Bool

abbrev pub reasons : Dict ReasonMeta
reasons =
    ("PRIORITY_STARVED", record { label = "priority-starved"; tone = warn; acts = true })
    ∷ ("NO_MATCHING_SUPPLY", record { label = "no matching supply"; tone = danger; acts = true })
    ∷ (
      "TOPOLOGY_UNSATISFIABLE",
      record { label = "topology unsatisfiable"; tone = violet; acts = true },
    )
    ∷ ("PREEMPTION_EXHAUSTED", record { label = "preemption exhausted"; tone = warn; acts = true })
    ∷ []

module _ (js : Engine) where
  open js use {Number, of_ℕ, sub, div, lt, ceil, lower_case, underscores_to_spaces}

  -- `reasonMeta` reads the flag and the reason of a need.
  unfoldable pub reason_meta : Bool → String → ReasonMeta
  reason_meta true reason = record { label = "satisfied"; tone = good; acts = false }
  reason_meta false reason = or_else (get reason reasons) (record {
    label = underscores_to_spaces (lower_case (if truthy reason then reason else "unmet"));
    tone = danger;
    acts = false;
  })

  -- What is covered of a demanded resource.
  abbrev pub got : NeedView → String → Number → Number
  got n k want =
      max js (of_ℕ 0) (sub want (parse_quantity js (get k (or_else n.residual_deficit []))))

  -- The loop over the resources, with `min` carried along.
  unfoldable pub coverage_loop : NeedView → List (String × String) → Number → Number
  coverage_loop n [] least = least
  coverage_loop n ((k, v) ∷ rest) least =
      let want = parse_quantity js (some v) in
      coverage_loop n rest
        (if le js want (of_ℕ 0) then least else min js least (div (got n k want) want))

  unfoldable pub coverage : NeedView → Number
  coverage n =
      if n.satisfied then of_ℕ 1 else coverage_loop n (or_else n.aggregate_resources []) (of_ℕ 1)

  unfoldable pub chunk_loop :
      Dict String → List (String × String) → Number × String → Number × String
  chunk_loop mu [] best = best
  chunk_loop mu ((k, v) ∷ rest) (total, dim) =
      let chunk = parse_quantity js (get k mu) in
      let c = ceil (div (parse_quantity js (some v)) chunk) in
      chunk_loop mu rest
        (if le js chunk (of_ℕ 0) then (total, dim) else if lt total c then (c, k) else (total, dim))

  unfoldable pub chunk_estimate : NeedView → Option (Number × String)
  chunk_estimate n = elim (or_else n.min_unit []) [
    | [] ↦ none
    | x ∷ xs ↦
        let best = chunk_loop (x ∷ xs) (or_else n.aggregate_resources []) (of_ℕ 0, "") in
        if lt (of_ℕ 0) best.0 then some best else none
  ]
