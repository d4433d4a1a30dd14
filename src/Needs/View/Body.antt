-- ===== src/Needs/View/Body.antt =====
-- Which of its parts the needs page shows below its filters.
use bigfleet_web_dashboard.Prelude.{ℕ, ◌+◌, ◌≤◌, ◌≡◌, Bool, true, none, String, arith, is_some}
use bigfleet_web_dashboard.Engine.{Engine}
use bigfleet_web_dashboard.Ui.Query.{Query, one_if}
use bigfleet_web_dashboard.Api.Demand.{NeedView, NeedsResponse}
use bigfleet_web_dashboard.Needs.Page.{State}
use bigfleet_web_dashboard.Needs.View.{BodyView, body_view, notice_of}

module _ (js : Engine) (encode : String → String) (same : NeedView → NeedView → Bool) where
  open js use {Number}

  abbrev pub parts_shown : BodyView js encode same → ℕ
  parts_shown b =
      one_if (is_some b.error)
      + one_if b.loading
      + one_if (is_some b.notice)
      + one_if (is_some b.listed)

  -- A query that is loading has no data yet. Then the page shows at most one of the error, the
  -- loading line, a notice and the listing, and none with the coordinator unwired; exactly one when
  -- it is wired and the query failed, is loading or has answered.
  pub body_view_lem :
      (now : Number) (on : Bool) (s : State) (q : Query NeedsResponse)
      → (q.is_loading ≡ true → q.result ≡ none)
      → (parts_shown (body_view js encode same now on s q) ≤ one_if on)
        × (is_some q.error ≡ true → parts_shown (body_view js encode same now on s q) ≡ one_if on)
        × (q.is_loading ≡ true → parts_shown (body_view js encode same now on s q) ≡ one_if on)
        × (is_some q.result ≡ true → parts_shown (body_view js encode same now on s q) ≡ one_if on)
  unfolding body_view notice_of
  body_view_lem now on s q h =
      (ground arith, λ e. ground arith, λ e. ground arith, λ e. ground arith)
