-- ===== src/Pages/Queries/Requests.antt =====
-- Which requests a screen sends.
use bigfleet_web_dashboard.Prelude.{
  ◌≡◌, refl, sym, Bool, true, false, ◌&&◌, [], String, truthy, All, if◌then◌else◌,
}
use bigfleet_web_dashboard.Api.Fleet.{ClientConfig}
use bigfleet_web_dashboard.Ui.Query.{Query}
use bigfleet_web_dashboard.Ui.Chrome.{Screen}
use bigfleet_web_dashboard.Api.Request.{Endpoint}
use bigfleet_web_dashboard.Pages.Queries.{
  trends_queries, screen_queries, prometheus, coordinator, kubeconfig,
}

-- An endpoint can answer: the source that it asks is wired, and no argument that is part of the
-- address is empty.
abbrev pub can_answer : Query ClientConfig → Endpoint → Bool
can_answer cfg Endpoint.health = true
can_answer cfg Endpoint.config = true
can_answer cfg Endpoint.fleet_overview = prometheus cfg
can_answer cfg (Endpoint.fleet_actions duration step) = prometheus cfg
can_answer cfg Endpoint.shards = prometheus cfg
can_answer cfg (Endpoint.shard pod) = prometheus cfg && truthy pod
can_answer cfg (Endpoint.shard_trends pod duration step) = prometheus cfg && truthy pod
can_answer cfg Endpoint.finops_snapshot = prometheus cfg
can_answer cfg Endpoint.clusters = kubeconfig cfg
can_answer cfg (Endpoint.cluster id) = kubeconfig cfg && truthy id
can_answer cfg Endpoint.available_capacity = kubeconfig cfg
can_answer cfg Endpoint.topology = coordinator cfg
can_answer cfg Endpoint.shard_reports = coordinator cfg
can_answer cfg (Endpoint.needs shard limit) = coordinator cfg && truthy shard

trends_enabled :
    (cfg : Query ClientConfig) (pod : String) (b : Bool)
    → prometheus cfg && truthy pod ≡ b
    → All (λ q. q.enabled ≡ can_answer cfg q.endpoint) (if b then trends_queries pod else [])
unfolding trends_queries
trends_enabled cfg pod true e = (sym e, tt)
trends_enabled cfg pod false e = tt

-- Of the queries of a screen exactly those are enabled whose endpoint can answer: those with their
-- source wired, by a configuration that has arrived, and with no empty argument.
pub screen_queries-enabled :
    (cfg : Query ClientConfig) (shard : String) (screen : Screen)
    → All (λ q. q.enabled ≡ can_answer cfg q.endpoint) (screen_queries cfg shard screen)
unfolding screen_queries
screen_queries-enabled cfg shard Screen.fleet_overview = (refl, (refl, (refl, tt)))
screen_queries-enabled cfg shard Screen.shards_list = (refl, (refl, tt))
screen_queries-enabled cfg shard (Screen.shard_detail pod) =
    (refl, (refl, trends_enabled cfg pod (prometheus cfg && truthy pod) refl))
screen_queries-enabled cfg shard Screen.clusters_list = (refl, (refl, tt))
screen_queries-enabled cfg shard (Screen.cluster_detail id) = (refl, (refl, tt))
screen_queries-enabled cfg shard Screen.available_capacity = (refl, (refl, tt))
screen_queries-enabled cfg shard Screen.topology = (refl, (refl, (refl, tt)))
screen_queries-enabled cfg shard Screen.shard_reports = (refl, (refl, tt))
screen_queries-enabled cfg shard Screen.needs = (refl, (refl, (refl, tt)))
screen_queries-enabled cfg shard Screen.finops = (refl, (refl, tt))
screen_queries-enabled cfg shard Screen.not_found = (refl, tt)
