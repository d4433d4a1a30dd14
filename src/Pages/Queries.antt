-- ===== src/Pages/Queries.antt =====
-- The queries of the pages: ui/src/lib/useConfig.ts and the calls of `useQuery` in ui/src/pages.
-- `useQuery` is a third-party hook; a query is what it is given.
pub mod Keys
pub mod Requests
use bigfleet_web_dashboard.Prelude.{
  ℕ, Bool, true, false, ◌&&◌, Option, none, some, List, [], ◌∷◌, ◌++◌, String, if◌then◌else◌,
  truthy,
}
use bigfleet_web_dashboard.Api.Fleet.{ClientConfig}
use bigfleet_web_dashboard.Ui.Query.{Query, wired}
use bigfleet_web_dashboard.Ui.Chrome.{Screen}
use bigfleet_web_dashboard.Api.Request.{Endpoint}

-- The options: `queryKey`, the request of `queryFn`, `enabled`, and `refetchInterval` in milliseconds.
pub record QuerySpec : Type 0 where
  pub query_key : List String
  pub endpoint : Endpoint
  pub enabled : Bool
  pub refetch_interval : Option ℕ

-- A query that is fetched again every `seconds`.
abbrev polled : List String → Endpoint → Bool → ℕ → QuerySpec
polled query_key endpoint enabled interval = record {
  query_key = query_key;
  endpoint = endpoint;
  enabled = enabled;
  refetch_interval = some interval;
}

-- `useConfig`
abbrev pub config_query : QuerySpec
config_query = record {
  query_key = "config" ∷ [];
  endpoint = Endpoint.config;
  enabled = true;
  refetch_interval = none;
}

-- The pages' own queries, behind that of the configuration; `on` is whether their source is wired.
unfoldable pub overview_queries : Bool → List QuerySpec
overview_queries on =
    polled ("fleet-overview" ∷ []) Endpoint.fleet_overview on 10000
    ∷ polled ("fleet-actions" ∷ []) (Endpoint.fleet_actions "1h" "30s") on 30000
    ∷ []

unfoldable pub shards_queries : Bool → List QuerySpec
shards_queries on = polled ("shards" ∷ []) Endpoint.shards on 15000 ∷ []

-- `api.shardTrends(pod)` with its defaults.
unfoldable pub trends_queries : String → List QuerySpec
trends_queries pod =
    polled ("shard-trends" ∷ pod ∷ []) (Endpoint.shard_trends pod "1h" "30s") true 30000 ∷ []

-- The trends card, with its query, is only drawn for a pod and with the source wired.
unfoldable pub shard_queries : Bool → String → List QuerySpec
unfolding trends_queries
shard_queries on pod =
    polled ("shard" ∷ pod ∷ []) (Endpoint.shard pod) (on && truthy pod) 10000
    ∷ (if on && truthy pod then trends_queries pod else [])

unfoldable pub clusters_queries : Bool → List QuerySpec
clusters_queries on = polled ("clusters" ∷ []) Endpoint.clusters on 20000 ∷ []

unfoldable pub cluster_queries : Bool → String → List QuerySpec
cluster_queries on id =
    polled ("cluster" ∷ id ∷ []) (Endpoint.cluster id) (on && truthy id) 15000 ∷ []

unfoldable pub capacity_queries : Bool → List QuerySpec
capacity_queries on = polled ("available-capacity" ∷ []) Endpoint.available_capacity on 30000 ∷ []

unfoldable pub topology_queries : Bool → List QuerySpec
topology_queries on =
    polled ("topology" ∷ []) Endpoint.topology on 15000
    ∷ polled ("shard-reports" ∷ []) Endpoint.shard_reports on 15000
    ∷ []

unfoldable pub reports_queries : Bool → List QuerySpec
reports_queries on = polled ("shard-reports" ∷ []) Endpoint.shard_reports on 15000 ∷ []

-- `shard` is the parameter of the URL; `api.needs(shard)` has no limit.
unfoldable pub needs_queries : Bool → String → List QuerySpec
needs_queries on shard =
    polled ("topology" ∷ []) Endpoint.topology on 30000
    ∷ polled ("needs" ∷ shard ∷ []) (Endpoint.needs shard 0) (on && truthy shard) 15000
    ∷ []

unfoldable pub finops_queries : Bool → List QuerySpec
finops_queries on = polled ("finops-snapshot" ∷ []) Endpoint.finops_snapshot on 20000 ∷ []

abbrev pub prometheus : Query ClientConfig → Bool
prometheus cfg = wired (λ c. c.prometheus_wired) cfg

abbrev pub coordinator : Query ClientConfig → Bool
coordinator cfg = wired (λ c. c.coordinator_wired) cfg

abbrev pub kubeconfig : Query ClientConfig → Bool
kubeconfig cfg = wired (λ c. c.kubeconfig_wired) cfg

unfoldable pub page_queries : Query ClientConfig → String → Screen → List QuerySpec
unfolding overview_queries shards_queries shard_queries clusters_queries cluster_queries
    capacity_queries topology_queries reports_queries needs_queries finops_queries
page_queries cfg shard Screen.fleet_overview = overview_queries (prometheus cfg)
page_queries cfg shard Screen.shards_list = shards_queries (prometheus cfg)
page_queries cfg shard (Screen.shard_detail pod) = shard_queries (prometheus cfg) pod
page_queries cfg shard Screen.clusters_list = clusters_queries (kubeconfig cfg)
page_queries cfg shard (Screen.cluster_detail id) = cluster_queries (kubeconfig cfg) id
page_queries cfg shard Screen.available_capacity = capacity_queries (kubeconfig cfg)
page_queries cfg shard Screen.topology = topology_queries (coordinator cfg)
page_queries cfg shard Screen.shard_reports = reports_queries (coordinator cfg)
page_queries cfg shard Screen.needs = needs_queries (coordinator cfg) shard
page_queries cfg shard Screen.finops = finops_queries (prometheus cfg)
page_queries cfg shard Screen.not_found = []

-- All the queries while a screen shows: the layout's, and the page's.
unfoldable pub screen_queries : Query ClientConfig → String → Screen → List QuerySpec
unfolding page_queries
screen_queries cfg shard screen = config_query ∷ page_queries cfg shard screen
