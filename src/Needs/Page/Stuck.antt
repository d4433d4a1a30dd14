-- ===== src/Needs/Page/Stuck.antt =====
-- The needs page while a reason is picked and no need is unmet, so that its summary has no pill.
use bigfleet_web_dashboard.Prelude.{
  ℕ, ◌+◌, ◌≡◌, refl, sym, ap, ◌∙◌, Bool, true, false, not, ◌&&◌, Option, none, some, List, [], ◌∷◌,
  map, String, arith, filter, any, All, str_eq, truthy, truthy?,
}
use bigfleet_web_dashboard.Prelude.Dict.{Dict, has, keys}
use bigfleet_web_dashboard.Api.Demand.{NeedView}
use bigfleet_web_dashboard.Needs.Page.{
  State, StatusFilter, all, satisfied, unmet, Action, set_shard, set_cluster, set_status,
  pick_reason, select, close, act, cluster, status, rows, scoped, by_status, by_reason, summarize,
  summary,
}
use bigfleet_web_dashboard.Needs.Page.Runs.{run}
use bigfleet_web_dashboard.Needs.Page.Offers.{IsOffered, Allowed}

abbrev pub has_unmet : List NeedView → Bool
has_unmet needs = any (λ n. not n.satisfied) needs

filter-has_unmet :
    (p : NeedView → Bool) (ns : List NeedView)
    → has_unmet ns ≡ false
    → has_unmet (filter p ns) ≡ false
filter-has_unmet p [] h = refl
filter-has_unmet p (n ∷ ns) h = ground (arith, filter-has_unmet p ns)

none_unmet :
    (q : NeedView → Bool) (ns : List NeedView)
    → has_unmet ns ≡ false
    → filter (λ n. not n.satisfied && q n) ns ≡ []
none_unmet q [] h = refl
none_unmet q (n ∷ ns) h = ground (arith, none_unmet q ns)

scoped-has_unmet :
    (s : State) (ns : List NeedView) → has_unmet ns ≡ false → has_unmet (scoped s ns) ≡ false
unfolding scoped
scoped-has_unmet s ns h = ground (arith, filter-has_unmet (λ n. str_eq n.cluster_id (cluster s)) ns)

by_status-has_unmet :
    (st : StatusFilter) (ns : List NeedView)
    → has_unmet ns ≡ false
    → has_unmet (by_status st ns) ≡ false
by_status-has_unmet all ns h = h
by_status-has_unmet satisfied ns h = filter-has_unmet (λ n. n.satisfied) ns h
by_status-has_unmet unmet ns h = filter-has_unmet (λ n. not n.satisfied) ns h

summarize-none :
    (ns : List NeedView) (st : ℕ × Dict ℕ) → has_unmet ns ≡ false → (summarize ns st).1 ≡ st.1
unfolding summarize
summarize-none [] st h = refl
summarize-none (n ∷ ns) (done, m) h =
    let met : n.satisfied ≡ true = ground arith in
    rw met (summarize-none ns (done + 1, m) (ground arith))

no_pills : (s : State) (ns : List NeedView) → has_unmet ns ≡ false → keys (summary s ns).1 ≡ []
unfolding summary
no_pills s ns h = ap keys (summarize-none (scoped s ns) (0, []) (scoped-has_unmet s ns h))

rows_stuck :
    (s : State) (r : String) (ns : List NeedView)
    → s.reason_filter ≡ some r
    → truthy r ≡ true
    → has_unmet ns ≡ false
    → rows s ns ≡ []
unfolding rows
rows_stuck s r ns p h k =
    ap (λ o. by_reason o (by_status (status s) (scoped s ns))) p
    ∙ rw h (
        none_unmet (λ n. str_eq n.unmet_reason r) (by_status (status s) (scoped s ns))
          (by_status-has_unmet (status s) (scoped s ns) (scoped-has_unmet s ns k)))

module _ (locale_before : String → String → Bool) (shard_ids : List String) where
  -- No action that is offered touches the picked reason while there is no unmet need.
  act_stuck :
      (ns : List NeedView) (s : State) (a : Action)
      → has_unmet ns ≡ false
      → IsOffered locale_before shard_ids ns s a
      → (act a s).reason_filter ≡ s.reason_filter
  unfolding act
  act_stuck ns s (set_shard v) h o = refl
  act_stuck ns s (set_cluster v) h o = refl
  act_stuck ns s (set_status v) h o = refl
  act_stuck ns s (pick_reason r) h o =
      let listed : false ≡ true = ap (has r) (sym (no_pills s ns h)) ∙ o in cc
  act_stuck ns s (select n) h o = refl
  act_stuck ns s close h o = refl

  run_stuck :
      (s : State) (steps : List (List NeedView × Action))
      → Allowed locale_before shard_ids s steps
      → All (λ e. has_unmet e.0 ≡ false) steps
      → (run (map (λ e. e.1) steps) s).reason_filter ≡ s.reason_filter
  unfolding run
  run_stuck s [] o h = refl
  run_stuck s ((ns, a) ∷ steps) o h = run_stuck (act a s) steps o.1 h.1 ∙ act_stuck ns s a h.0 o.0

  pub stuck :
      (s : State) (r : Option String) (later : List NeedView)
      (steps : List (List NeedView × Action))
      → s.reason_filter ≡ r
      → not (truthy? r) ≡ false
      → Allowed locale_before shard_ids s steps
      → All (λ e. has_unmet e.0 ≡ false) steps
      → has_unmet later ≡ false
      → rows (run (map (λ e. e.1) steps) s) later ≡ []
  stuck s none later steps p h o k l = cc h
  stuck s (some r) later steps p h o k l =
      rows_stuck (run (map (λ e. e.1) steps) s) r later (run_stuck s steps o k ∙ p) (ground arith) l
