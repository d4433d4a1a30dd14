-- ===== src/Needs/Page/Effects.antt =====
-- The two effects of the needs page: what they fill in, that they settle, and which cluster they
-- choose.
pub mod Order
use bigfleet_web_dashboard.Prelude.{
  ◌≡◌, refl, sym, ap, ◌∙◌, ◌≤◌, Bool, true, false, not, List, [], ◌∷◌, String, arith, if◌then◌else◌,
  truthy, str_eq, or_else, head?, All, All-imp, Bool-cases, inl, inr,
}
use bigfleet_web_dashboard.Prelude.Sort.{IsStrictWeak, sort_by-Ordered}
use bigfleet_web_dashboard.Api.Demand.{NeedView}
use bigfleet_web_dashboard.Ui.SearchParam.{value, set_value, value-set_value}
use bigfleet_web_dashboard.Needs.Page.Runs.{if_truthy}
use bigfleet_web_dashboard.Needs.Page.{
  State, Tally, act, shard, cluster, status, status_filter, settle_shard, settle_cluster, clusters,
  cluster_before, tally,
}

-- A parameter that is empty is filled in.
abbrev fill : String → String → State → State
fill key id s =
    if not (truthy (value key "" s.params))
    then record s { params = set_value key "" id s.params }
    else s

fill_lem :
    (key id : String) (s : State)
    → truthy id ≡ true
    → (value key "" (fill key id s).params
        ≡ (if truthy (value key "" s.params) then value key "" s.params else id))
      × ((j other : String)
          → str_eq key j ≡ false
          → value j other (fill key id s).params ≡ value j other s.params)
      × (fill key id (fill key id s) ≡ fill key id s)
fill_lem key id s named = elim (Bool-cases (truthy (value key "" s.params))) [
  | inl e ↦ rw e (refl, λ j other ne. refl, rw e refl)
  | inr e ↦
      let (own, away) = value-set_value key "" id s.params in
      let filled : value key "" (set_value key "" id s.params) ≡ id =
        own ∙ ap (λ b. if b then id else "") named in
      rw e (filled, away, rw (filled, named) refl)
]

-- The effect on the shard keeps a shard that is chosen, and else chooses the first one registered;
-- it leaves the cluster and the status alone, and where the registered shards have names, running it
-- again changes nothing.
pub settle_shard_lem :
    (ids : List String) (s : State)
    → All (λ id. truthy id ≡ true) ids
    → (shard (settle_shard ids s) ≡ (if truthy (shard s) then shard s else or_else (head? ids) ""))
      × (cluster (settle_shard ids s) ≡ cluster s)
      × (status (settle_shard ids s) ≡ status s)
      × (settle_shard ids (settle_shard ids s) ≡ settle_shard ids s)
unfolding settle_shard act str_eq
settle_shard_lem [] s h = (sym (if_truthy (shard s)), refl, refl, refl)
settle_shard_lem (id ∷ ids) s h =
    let (own, away, again) = fill_lem "shard" id s h.0 in
    (own, away "cluster" "" refl, ap status_filter (away "status" "all" refl), again)

-- The order in which the clusters are offered.
cluster_weak :
    (locale_before : String → String → Bool)
    → IsStrictWeak locale_before
    → IsStrictWeak (cluster_before locale_before)
cluster_weak locale_before weak = record {
  asym = λ (a, s) (b, t) h. ground (arith, weak.asym a b);
  cotrans = λ (a, s) (b, t) (c, u) h k. ground (arith, weak.cotrans a b c);
}

settle_cluster-fill :
    (locale_before : String → String → Bool) (needs : List NeedView) (s : State) (k : String)
    (t : Tally) (rest : List (String × Tally))
    → clusters locale_before needs ≡ (k, t) ∷ rest
    → settle_cluster locale_before needs s ≡ fill "cluster" k s
unfolding act settle_cluster
settle_cluster-fill locale_before needs s k t rest e = rw (e, settle_cluster) refl

most_unmet :
    (locale_before : String → String → Bool)
    → IsStrictWeak locale_before
    → (needs : List NeedView) (k : String) (t : Tally) (rest : List (String × Tally))
    → clusters locale_before needs ≡ (k, t) ∷ rest
    → All (λ e. e.1.unmet ≤ t.unmet) rest
unfolding clusters
most_unmet locale_before weak needs k t rest e =
    let ordered =
      sort_by-Ordered (cluster_before locale_before) (cluster_weak locale_before weak)
        (tally needs []) in
    All-imp rest (λ (j, u) h. ground arith) (rw e at ordered).0

-- The effect on the cluster keeps a cluster that is chosen, or all of them; else, where clusters are
-- offered, it chooses one with a name such that no cluster has more unmet needs. It leaves the shard
-- and the status alone, and running it again changes nothing.
pub settle_cluster_lem :
    (locale_before : String → String → Bool)
    → IsStrictWeak locale_before
    → (needs : List NeedView) (s : State) (k : String) (t : Tally) (rest : List (String × Tally))
    → clusters locale_before needs ≡ (k, t) ∷ rest
    → truthy k ≡ true
    → (cluster (settle_cluster locale_before needs s)
        ≡ (if truthy (cluster s) then cluster s else k))
      × All (λ e. e.1.unmet ≤ t.unmet) rest
      × (shard (settle_cluster locale_before needs s) ≡ shard s)
      × (status (settle_cluster locale_before needs s) ≡ status s)
      × (settle_cluster locale_before needs (settle_cluster locale_before needs s)
          ≡ settle_cluster locale_before needs s)
unfolding str_eq
settle_cluster_lem locale_before weak needs s k t rest e named =
    let (own, away, again) = fill_lem "cluster" k s named in
    let once = λ (u : State). settle_cluster-fill locale_before needs u k t rest e in
    rw (once s) (
      own,
      most_unmet locale_before weak needs k t rest e,
      away "shard" "" refl,
      ap status_filter (away "status" "all" refl),
      once (fill "cluster" k s) ∙ again,
    )
