-- ===== src/Needs/Kit/Verdict.antt =====
-- ui/src/pages/needsKit.tsx: the decision trace and the supply funnel.
pub mod Widths
use bigfleet_web_dashboard.Prelude.{
  ℕ, ◌+◌, ◌-◌, Bool, true, false, not, Option, none, some, List, [], ◌∷◌, String, if◌then◌else◌,
  ltb, ◌==◌, ◌<>◌,
}
use bigfleet_web_dashboard.Engine.{Engine, max}
use bigfleet_web_dashboard.Format.Quantity.{format_resources}
use bigfleet_web_dashboard.Api.Demand.{NeedView, MatchingSupply, PreemptionSummary}
use bigfleet_web_dashboard.Needs.Kit.{Tone, warn, danger, muted, ReasonMeta, reason_meta}
use bigfleet_web_dashboard.Needs.Kit.Panels.{plural, int_text}

module _ (js : Engine) where
  open js use {Number, of_ℕ, mul, div}

  pub record HeldView : Type 0 where
    pub held : String
    pub fresh : Option String
    pub quiet : Bool
    pub bootstrapped : String
    pub provisioned : String
    pub already : Option String

  unfoldable pub held_panel : NeedView → HeldView
  held_panel n =
      let acquired = n.bootstrap_count + n.provision_count in
      let held = n.claimed_machine_count in
      record {
        held = int_text js held <> " machine" <> plural held <> " held";
        fresh =
            if ltb 0 acquired
            then some ("+" <> int_text js acquired <> " new this cycle")
            else none;
        quiet = acquired == 0;
        bootstrapped = int_text js n.bootstrap_count;
        provisioned = int_text js n.provision_count;
        already =
            if ltb acquired held
            then some (int_text js (held - acquired) <> " were already held.")
            else none;
      }

  pub record Stage : Type 0 where
    pub title : String
    pub body : String
    pub tone : Tone

  assign_stage : NeedView → Stage
  assign_stage n =
      let acquired = n.bootstrap_count + n.provision_count in
      let claimed = n.claimed_machine_count in
      record {
        title = "assign";
        body =
            if ltb 0 claimed
            then "claimed "
              <> int_text js claimed
              <> " machine"
              <> plural claimed
              <> (if ltb 0 acquired then " (+" <> int_text js acquired <> " new)" else "")
              <> " — not enough"
            else "claimed nothing — matching supply held above your cut-line";
        tone = if ltb 0 claimed then warn else muted;
      }

  preempt_stage : Option PreemptionSummary → Stage
  preempt_stage none = record {
    title = "preempt";
    body = "no displaceable victim of your shape";
    tone = muted;
  }
  preempt_stage (some p) = record {
    title = "preempt";
    body =
        int_text js p.victims_found
        <> " victim"
        <> plural p.victims_found
        <> ", freed "
        <> format_resources js p.capacity_freed;
    tone = if ltb 0 p.victims_found then warn else muted;
  }

  unfoldable pub unmet_waterfall : NeedView → List Stage
  unfolding assign_stage preempt_stage
  unmet_waterfall n =
      assign_stage n
      ∷ preempt_stage n.preemption
      ∷ record {
        title = "still short";
        body = format_resources js n.residual_deficit;
        tone = danger;
      }
      ∷ []

  pub data Trace : Type 0 where
    held : HeldView → Trace
    waterfall : List Stage → Trace

  unfoldable pub decision_trace : NeedView → Trace
  unfolding held_panel unmet_waterfall
  decision_trace n = if n.satisfied then held (held_panel n) else waterfall (unmet_waterfall n)

  pub record FunnelStage : Type 0 where
    pub label : String
    pub value : ℕ
    pub width : Number
    pub text : String
    pub hint : String
    pub drained : Bool

  pub record FunnelView : Type 0 where
    pub stages : List FunnelStage
    pub short : Option ReasonMeta

  abbrev pub matching : Option MatchingSupply → ℕ
  matching none = 0
  matching (some ms) = ms.idle + ms.configured + ms.speculative

  abbrev pub claimable : Option MatchingSupply → ℕ
  claimable none = 0
  claimable (some ms) = ms.idle + ms.configured

  abbrev capped : Option MatchingSupply → Bool
  capped none = false
  capped (some ms) = ms.capped

  -- The hint on the stage of what matches.
  pool_hint : Option MatchingSupply → String
  pool_hint none = "—"
  pool_hint (some ms) =
      int_text js ms.idle
      <> " idle · "
      <> int_text js ms.configured
      <> " configured · "
      <> int_text js ms.speculative
      <> " speculative"
      <> (if ms.capped then " (capped)" else "")

  unfoldable pub max_ℕ : ℕ → ℕ → ℕ
  max_ℕ a b = if ltb a b then b else a

  abbrev pub largest : NeedView → ℕ
  largest n =
      max_ℕ
        (max_ℕ (max_ℕ (matching n.matching_supply) (claimable n.matching_supply))
          n.claimed_machine_count)
        1

  unfoldable pub supply_funnel : NeedView → FunnelView
  unfolding pool_hint
  supply_funnel n =
      let ms = n.matching_supply in
      let width = λ (v : ℕ). max js (of_ℕ 6) (mul (div (of_ℕ v) (of_ℕ (largest n))) (of_ℕ 100)) in
      record {
        stages =
            record {
              label = "Match your requirements";
              value = matching ms;
              width = width (matching ms);
              text = int_text js (matching ms) <> (if capped ms then "+" else "");
              hint = pool_hint ms;
              drained = false;
            }
            ∷ record {
              label = "Ready to claim this cycle";
              value = claimable ms;
              width = width (claimable ms);
              text = int_text js (claimable ms);
              hint = "idle + configured (speculative isn't ready yet)";
              drained = false;
            }
            ∷ record {
              label = "Claimed for you";
              value = n.claimed_machine_count;
              width = width n.claimed_machine_count;
              text = int_text js n.claimed_machine_count;
              hint =
                  if ltb 0 n.claimed_machine_count
                  then "above the cut-line"
                  else "below the cut-line";
              drained = not n.satisfied;
            }
            ∷ [];
        short = if n.satisfied then none else some (reason_meta js n.satisfied n.unmet_reason);
      }
