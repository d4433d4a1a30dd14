-- ===== src/Pages/Queries/Keys.antt =====
-- The cache of the queries: a key stands for one request.
use bigfleet_web_dashboard.Prelude.{
  ◌≡◌, refl, sym, ap, ◌∙◌, ◌↔◌, Bool, true, false, ◌&&◌, List, [], ◌∷◌, String, if◌then◌else◌,
  truthy, str_eq, All, All-imp,
}
use bigfleet_web_dashboard.Api.Fleet.{ClientConfig}
use bigfleet_web_dashboard.Ui.Query.{Query}
use bigfleet_web_dashboard.Ui.Chrome.{Screen}
use bigfleet_web_dashboard.Api.Request.{Endpoint}
use bigfleet_web_dashboard.Pages.Queries.{QuerySpec, trends_queries, screen_queries, prometheus}

-- The request that a key stands for.
abbrev request_of : List String → Endpoint
request_of [] = Endpoint.health
request_of (kind ∷ []) =
    if str_eq kind "config"
    then Endpoint.config
    else if str_eq kind "fleet-overview"
    then Endpoint.fleet_overview
    else if str_eq kind "fleet-actions"
    then Endpoint.fleet_actions "1h" "30s"
    else if str_eq kind "shards"
    then Endpoint.shards
    else if str_eq kind "clusters"
    then Endpoint.clusters
    else if str_eq kind "available-capacity"
    then Endpoint.available_capacity
    else if str_eq kind "topology"
    then Endpoint.topology
    else if str_eq kind "shard-reports"
    then Endpoint.shard_reports
    else Endpoint.finops_snapshot
request_of (kind ∷ (arg ∷ rest)) =
    if str_eq kind "shard"
    then Endpoint.shard arg
    else if str_eq kind "shard-trends"
    then Endpoint.shard_trends arg "1h" "30s"
    else if str_eq kind "cluster"
    then Endpoint.cluster arg
    else Endpoint.needs arg 0

abbrev key_of : Endpoint → List String
key_of Endpoint.health = []
key_of Endpoint.config = "config" ∷ []
key_of Endpoint.fleet_overview = "fleet-overview" ∷ []
key_of (Endpoint.fleet_actions duration step) = "fleet-actions" ∷ []
key_of Endpoint.shards = "shards" ∷ []
key_of (Endpoint.shard pod) = "shard" ∷ pod ∷ []
key_of (Endpoint.shard_trends pod duration step) = "shard-trends" ∷ pod ∷ []
key_of Endpoint.clusters = "clusters" ∷ []
key_of (Endpoint.cluster id) = "cluster" ∷ id ∷ []
key_of Endpoint.available_capacity = "available-capacity" ∷ []
key_of Endpoint.topology = "topology" ∷ []
key_of Endpoint.shard_reports = "shard-reports" ∷ []
key_of (Endpoint.needs shard limit) = "needs" ∷ shard ∷ []
key_of Endpoint.finops_snapshot = "finops-snapshot" ∷ []

abbrev IsKeyed : QuerySpec → Type 0
IsKeyed q = (request_of q.query_key ≡ q.endpoint) × (q.query_key ≡ key_of q.endpoint)

trends-IsKeyed : (b : Bool) (pod : String) → All IsKeyed (if b then trends_queries pod else [])
unfolding trends_queries str_eq
trends-IsKeyed true pod = ((refl, refl), tt)
trends-IsKeyed false pod = tt

screen_queries-IsKeyed :
    (cfg : Query ClientConfig) (shard : String) (screen : Screen)
    → All IsKeyed (screen_queries cfg shard screen)
unfolding screen_queries str_eq
screen_queries-IsKeyed cfg shard Screen.fleet_overview =
    ((refl, refl), ((refl, refl), ((refl, refl), tt)))
screen_queries-IsKeyed cfg shard Screen.shards_list = ((refl, refl), ((refl, refl), tt))
screen_queries-IsKeyed cfg shard (Screen.shard_detail pod) =
    ((refl, refl), ((refl, refl), trends-IsKeyed (prometheus cfg && truthy pod) pod))
screen_queries-IsKeyed cfg shard Screen.clusters_list = ((refl, refl), ((refl, refl), tt))
screen_queries-IsKeyed cfg shard (Screen.cluster_detail id) = ((refl, refl), ((refl, refl), tt))
screen_queries-IsKeyed cfg shard Screen.available_capacity = ((refl, refl), ((refl, refl), tt))
screen_queries-IsKeyed cfg shard Screen.topology =
    ((refl, refl), ((refl, refl), ((refl, refl), tt)))
screen_queries-IsKeyed cfg shard Screen.shard_reports = ((refl, refl), ((refl, refl), tt))
screen_queries-IsKeyed cfg shard Screen.needs = ((refl, refl), ((refl, refl), ((refl, refl), tt)))
screen_queries-IsKeyed cfg shard Screen.finops = ((refl, refl), ((refl, refl), tt))
screen_queries-IsKeyed cfg shard Screen.not_found = ((refl, refl), tt)

same_request :
    (q r : QuerySpec)
    → IsKeyed q
    → IsKeyed r
    → (q.query_key ≡ r.query_key) ↔ (q.endpoint ≡ r.endpoint)
same_request q r h k = (λ e. sym h.0 ∙ ap request_of e ∙ k.0, λ e. h.1 ∙ ap key_of e ∙ sym k.1)

-- Two queries, of whatever screens, configurations and shards, have the same key exactly when they
-- send the same request: no page reads an answer from the cache that is another request's, and none
-- fetches twice what is there.
pub screen_queries-keys :
    (cfg cfg' : Query ClientConfig) (shard shard' : String) (screen screen' : Screen)
    → All
        (λ q.
          All
            (λ r. (q.query_key ≡ r.query_key) ↔ (q.endpoint ≡ r.endpoint))
            (screen_queries cfg' shard' screen'))
        (screen_queries cfg shard screen)
screen_queries-keys cfg cfg' shard shard' screen screen' =
    All-imp (screen_queries cfg shard screen)
      (λ q h.
        All-imp (screen_queries cfg' shard' screen') (λ r k. same_request q r h k)
          (screen_queries-IsKeyed cfg' shard' screen'))
      (screen_queries-IsKeyed cfg shard screen)
