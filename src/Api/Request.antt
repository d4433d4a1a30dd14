-- ===== src/Api/Request.antt =====
-- ui/src/lib/api.ts: the requests. `base_url` is `import.meta.env.BASE_URL`, which
-- ui/vite.config.ts sets and ui/src/main.tsx reads too; `encode` is `encodeURIComponent`.
pub mod Answer
pub mod Base
pub mod Parts
pub mod Address
use bigfleet_web_dashboard.Prelude.{
  ℕ, ◌==◌, Bool, not, ◌||◌, Option, none, some, String, if◌then◌else◌, ◌<>◌, truthy, truthy?,
  or_else, str_eq,
}
use bigfleet_web_dashboard.Prelude.Show.{show}
use bigfleet_web_dashboard.Engine.Text.{drop_slashes, drop_while}

-- `normalizeBase`; `none` is an unset BASE_PATH. Of `/^\/+|\/+$/g` the first part takes the slashes
-- at the front, the second those at the end.
unfoldable pub normalize_base : Option String → String
unfolding drop_slashes drop_while
normalize_base none = "/"
normalize_base (some b) =
    if not (truthy b) || str_eq b "/"
    then "/"
    else "/" <> drop_slashes (drop_while (λ c. c == b'/') b) <> "/"

unfoldable pub api_base : String → String
unfolding drop_slashes
api_base base_url = drop_slashes base_url

-- The router's basename.
unfoldable pub basename : String → String
unfolding drop_slashes
basename base_url = let b = drop_slashes base_url in if truthy b then b else "/"

-- A response as `fetch` hands it over. Its body is `none` where reading it as JSON throws.
pub record Response (A : Type 0) : Type 0 where
  pub ok : Bool
  pub status : ℕ
  pub status_text : String
  pub body : Option A
  -- the `error` of a body that is not ok; `none` too where the body is not JSON
  pub error : Option String

-- What the promise of `getJSON` settles to. `thrown` is the text of an exception that is none of
-- the code's own: of `fetch`, or of reading the body.
pub data Outcome (A : Type 0) : Type 0 where
  answer : A → Outcome A
  failure : String → Outcome A
  thrown : Outcome A

-- `none` is a `fetch` that throws.
unfoldable pub get_json : {A : Type 0} → Option (Response A) → Outcome A
unfolding show
get_json none = thrown
get_json (some res) =
    if not res.ok
    then failure (
        if truthy? res.error
        then or_else res.error ""
        else show res.status <> " " <> res.status_text)
    else elim res.body [ none ↦ thrown | some a ↦ answer a ]

-- The endpoints, with their arguments.
pub data Endpoint : Type 0 where
  health config fleet_overview shards clusters available_capacity topology : Endpoint
  shard_reports finops_snapshot : Endpoint
  fleet_actions : (duration step : String) → Endpoint
  shard : (pod : String) → Endpoint
  shard_trends : (pod duration step : String) → Endpoint
  cluster : (id : String) → Endpoint
  needs : (shard_id : String) (limit : ℕ) → Endpoint

module _ (encode : String → String) where
  range_query : String → String → String
  range_query duration step = "?duration=" <> encode duration <> "&step=" <> encode step

  unfoldable pub endpoint_path : Endpoint → String
  unfolding range_query show
  endpoint_path health = "/api/health"
  endpoint_path config = "/api/config"
  endpoint_path fleet_overview = "/api/fleet/overview"
  endpoint_path (fleet_actions duration step) = "/api/fleet/actions" <> range_query duration step
  endpoint_path shards = "/api/shards"
  endpoint_path (shard pod) = "/api/shards/" <> encode pod
  endpoint_path (shard_trends pod duration step) =
      "/api/shards/" <> encode pod <> "/trends" <> range_query duration step
  endpoint_path clusters = "/api/clusters"
  endpoint_path (cluster id) = "/api/clusters/" <> encode id
  endpoint_path available_capacity = "/api/available-capacity"
  endpoint_path topology = "/api/topology"
  endpoint_path shard_reports = "/api/shard-reports"
  endpoint_path (needs shard_id limit) =
      "/api/needs?shard=" <> encode shard_id <> (if limit == 0 then "" else "&limit=" <> show limit)
  endpoint_path finops_snapshot = "/api/finops/snapshot"

  unfoldable pub request_url : String → Endpoint → String
  unfolding api_base endpoint_path
  request_url base_url e = api_base base_url <> endpoint_path e
