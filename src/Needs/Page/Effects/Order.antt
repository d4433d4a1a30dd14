-- ===== src/Needs/Page/Effects/Order.antt =====
-- The two effects of the needs page in any order, and again and again.
use bigfleet_web_dashboard.Prelude.{
  ◌≡◌, refl, ◌∙◌, Bool, true, false, not, List, [], ◌∷◌, String, arith, if◌then◌else◌, truthy,
  or_else, head?, All, any,
}
use bigfleet_web_dashboard.Prelude.Sort.{IsStrictWeak}
use bigfleet_web_dashboard.Api.Demand.{NeedView}
use bigfleet_web_dashboard.Needs.Page.{
  State, Tally, shard, cluster, status, settle_shard, settle_cluster, clusters,
}
use bigfleet_web_dashboard.Needs.Page.Effects.{settle_shard_lem, settle_cluster_lem}

-- The two calls of `useEffect`.
pub data Effect : Type 0 where
  on_shard on_cluster : Effect

abbrev pub is_shard : Effect → Bool
is_shard on_shard = true
is_shard on_cluster = false

-- A parameter after its effect.
abbrev pub filled : String → String → String
filled first chosen = if truthy chosen then chosen else first

filled_idem : (first chosen : String) → filled first (filled first chosen) ≡ filled first chosen
filled_idem first chosen = ground arith

module _ (locale_before : String → String → Bool) (ids : List String) (needs : List NeedView) where
  abbrev pub run_effect : Effect → State → State
  run_effect on_shard s = settle_shard ids s
  run_effect on_cluster s = settle_cluster locale_before needs s

  -- The effects that React runs while neither the shards nor the needs change.
  abbrev pub run_effects : List Effect → State → State
  run_effects [] s = s
  run_effects (e ∷ es) s = run_effects es (run_effect e s)

  module _ (weak : IsStrictWeak locale_before) (first : String) (others : List String)
      (registered : ids ≡ first ∷ others) (first_named : truthy first ≡ true)
      (rest_named : All (λ id. truthy id ≡ true) others) (k : String) (t : Tally)
      (rest : List (String × Tally)) (offered : clusters locale_before needs ≡ (k, t) ∷ rest)
      (k_named : truthy k ≡ true) where
    named : All (λ id. truthy id ≡ true) ids
    named = rw registered (first_named, rest_named)

    head_first : or_else (head? ids) "" ≡ first
    head_first = rw registered refl

    settle_shard-filled : (s : State) → shard (settle_shard ids s) ≡ filled first (shard s)
    settle_shard-filled s = rw (← head_first) ((settle_shard_lem ids s named).0)

    run_effects-shard :
        (es : List Effect) (s : State)
        → shard (run_effects es s) ≡ (if any is_shard es then filled first (shard s) else shard s)
    run_effects-shard [] s = refl
    run_effects-shard (on_shard ∷ es) s = ground (
      arith,
      run_effects-shard es (settle_shard ids s),
      settle_shard-filled s,
      filled_idem first (shard s),
    )
    run_effects-shard (on_cluster ∷ es) s =
        let kept = (settle_cluster_lem locale_before weak needs s k t rest offered k_named).2 in
        rw (← kept) (run_effects-shard es (settle_cluster locale_before needs s))

    run_effects-cluster :
        (es : List Effect) (s : State)
        → cluster (run_effects es s)
          ≡ (if any (λ e. not (is_shard e)) es then filled k (cluster s) else cluster s)
    run_effects-cluster [] s = refl
    run_effects-cluster (on_shard ∷ es) s =
        let kept = (settle_shard_lem ids s named).1 in
        rw (← kept) (run_effects-cluster es (settle_shard ids s))
    run_effects-cluster (on_cluster ∷ es) s =
        let own = (settle_cluster_lem locale_before weak needs s k t rest offered k_named).0 in
        ground (
          arith,
          run_effects-cluster es (settle_cluster locale_before needs s),
          own,
          filled_idem k (cluster s),
        )

    run_effects-status : (es : List Effect) (s : State) → status (run_effects es s) ≡ status s
    run_effects-status [] s = refl
    run_effects-status (on_shard ∷ es) s =
        run_effects-status es (settle_shard ids s) ∙ (settle_shard_lem ids s named).2
    run_effects-status (on_cluster ∷ es) s =
        run_effects-status es (settle_cluster locale_before needs s)
        ∙ (settle_cluster_lem locale_before weak needs s k t rest offered k_named).3

    shard_rests : (s : State) → truthy (shard s) ≡ true → settle_shard ids s ≡ s
    unfolding settle_shard
    shard_rests s h = rw registered (rw h refl)

    cluster_rests :
        (s : State) → truthy (cluster s) ≡ true → settle_cluster locale_before needs s ≡ s
    unfolding settle_cluster
    cluster_rests s h = rw (offered, settle_cluster) (rw h refl)

    filled-named : (a b : String) → truthy a ≡ true → truthy (filled a b) ≡ true
    filled-named a b h = ground arith

    -- Where texts are compared by a strict weak order, with registered shards, which have names,
    -- and offered clusters, of which the first has one: when each of the two effects has run, in
    -- any order and however often, the page reads the shard and the cluster that were chosen or
    -- else the first ones, and the status that was chosen, and neither effect changes the page any
    -- more.
    pub run_effects_settle :
        (es : List Effect) (s : State)
        → any is_shard es ≡ true
        → any (λ e. not (is_shard e)) es ≡ true
        → (shard (run_effects es s) ≡ (if truthy (shard s) then shard s else first))
          × (cluster (run_effects es s) ≡ (if truthy (cluster s) then cluster s else k))
          × (status (run_effects es s) ≡ status s)
          × (settle_shard ids (run_effects es s) ≡ run_effects es s)
          × (settle_cluster locale_before needs (run_effects es s) ≡ run_effects es s)
    run_effects_settle es s h c =
        let a : shard (run_effects es s) ≡ filled first (shard s) =
          ground (arith, run_effects-shard es s) in
        let b : cluster (run_effects es s) ≡ filled k (cluster s) =
          ground (arith, run_effects-cluster es s) in
        (
          a,
          b,
          run_effects-status es s,
          shard_rests (run_effects es s) (rw a (filled-named first (shard s) first_named)),
          cluster_rests (run_effects es s) (rw b (filled-named k (cluster s) k_named)),
        )
