-- ===== src/Api/Request/Address.antt =====
-- What the address of a request tells: its endpoint and the endpoint's arguments.

use text.Mathlib.TextLemmas.{nil-append, append-nil, append_cancel_left}
use bigfleet_web_dashboard.Prelude.{
  ℕ, ◌==◌, ◌≡◌, ◌↔◌, refl, sym, ap, ◌∙◌, true, List, [], ◌∷◌, String, arith, if◌then◌else◌, ◌<>◌,
  str_eq, Bool-cases, inl, inr,
}
use bigfleet_web_dashboard.Prelude.Show.{show}
use bigfleet_web_dashboard.Prelude.Show.Digits.{read_from, read-show, show_numerals, all_chars}
use bigfleet_web_dashboard.Api.Request.Parts.{
  is_plain, parts, parts-append, parts_plain, numeral-IsPlain,
}
use bigfleet_web_dashboard.Api.Request.{
  Endpoint, endpoint_path, range_query, request_url, api_base, health, config, fleet_overview,
  shards, clusters, available_capacity, topology, shard_reports, finops_snapshot, fleet_actions,
  shard, shard_trends, cluster, needs,
}

module _ (encode decode : String → String) where
  -- The endpoint and the arguments that the parts of a path name.
  abbrev of_parts : List String → Endpoint
  of_parts (a ∷ (b ∷ (kind ∷ []))) =
      if str_eq kind "health"
      then health
      else if str_eq kind "config"
      then config
      else if str_eq kind "shards"
      then shards
      else if str_eq kind "clusters"
      then clusters
      else if str_eq kind "available-capacity"
      then available_capacity
      else if str_eq kind "topology"
      then topology
      else shard_reports
  of_parts (a ∷ (b ∷ (kind ∷ (x ∷ [])))) =
      if str_eq kind "fleet"
      then fleet_overview
      else if str_eq kind "finops"
      then finops_snapshot
      else if str_eq kind "shards"
      then shard (decode x)
      else cluster (decode x)
  of_parts (a ∷ (b ∷ (kind ∷ (name ∷ (v ∷ []))))) = needs (decode v) 0
  of_parts (a ∷ (b ∷ (kind ∷ (name ∷ (v ∷ (limit ∷ (n ∷ []))))))) = needs (decode v) (read_from 0 n)
  of_parts (a ∷ (b ∷ (kind ∷ (name ∷ (d ∷ (v ∷ (st ∷ (w ∷ [])))))))) =
      fleet_actions (decode v) (decode w)
  of_parts (a ∷ (b ∷ (kind ∷ (pod ∷ (trends ∷ (d ∷ (v ∷ (st ∷ (w ∷ []))))))))) =
      shard_trends (decode pod) (decode v) (decode w)
  of_parts _ = health

  module _ (decode-encode : (s : String) → decode (encode s) ≡ s)
      (encode-IsPlain : (s : String) → all_chars is_plain (encode s) ≡ true) where
    encoded : (s : String) → parts (encode s) ≡ encode s ∷ []
    encoded s = parts_plain (encode s) (encode-IsPlain s)

    range_parts :
        (duration step : String)
        → parts (range_query encode duration step)
          ≡ "" ∷ "duration" ∷ encode duration ∷ "step" ∷ encode step ∷ []
    unfolding range_query
    range_parts duration step =
        rw
          (
            parts-append "?duration=" (encode duration <> "&step=" <> encode step),
            parts-append (encode duration) ("&step=" <> encode step),
            parts-append "&step=" (encode step),
            encoded duration,
            encoded step,
            append-nil (encode duration),
            nil-append (encode duration),
            nil-append (encode step),
          )
          refl

    needs_unlimited :
        (shard_id : String) (limit : ℕ)
        → (limit == 0) ≡ true
        → of_parts (parts ("/api/needs?shard=" <> encode shard_id <> "")) ≡ needs shard_id limit
    needs_unlimited shard_id limit z =
        let none_set : 0 ≡ limit = ground arith in
        rw
          (
            append-nil (encode shard_id),
            parts-append "/api/needs?shard=" (encode shard_id),
            encoded shard_id,
            nil-append (encode shard_id),
            decode-encode shard_id,
            ← none_set,
          )
          refl

    needs_limited :
        (shard_id : String) (limit : ℕ)
        → of_parts (parts ("/api/needs?shard=" <> encode shard_id <> "&limit=" <> show limit))
          ≡ needs shard_id limit
    needs_limited shard_id limit =
        rw
          (
            parts-append "/api/needs?shard=" (encode shard_id <> "&limit=" <> show limit),
            parts-append (encode shard_id) ("&limit=" <> show limit),
            parts-append "&limit=" (show limit),
            parts_plain (show limit) (numeral-IsPlain (show limit) (show_numerals limit)),
            encoded shard_id,
            append-nil (encode shard_id),
            nil-append (encode shard_id),
            nil-append (show limit),
            decode-encode shard_id,
            read-show limit,
          )
          refl

    of_parts-path : (e : Endpoint) → of_parts (parts (endpoint_path encode e)) ≡ e
    unfolding endpoint_path str_eq
    of_parts-path health = refl
    of_parts-path config = refl
    of_parts-path fleet_overview = refl
    of_parts-path shards = refl
    of_parts-path clusters = refl
    of_parts-path available_capacity = refl
    of_parts-path topology = refl
    of_parts-path shard_reports = refl
    of_parts-path finops_snapshot = refl
    of_parts-path (fleet_actions duration step) =
        rw
          (
            parts-append "/api/fleet/actions" (range_query encode duration step),
            range_parts duration step,
            decode-encode duration,
            decode-encode step,
          )
          refl
    of_parts-path (shard pod) =
        rw
          (
            parts-append "/api/shards/" (encode pod),
            encoded pod,
            nil-append (encode pod),
            decode-encode pod,
          )
          refl
    of_parts-path (shard_trends pod duration step) =
        rw
          (
            parts-append "/api/shards/"
                (encode pod <> "/trends" <> range_query encode duration step),
            parts-append (encode pod) ("/trends" <> range_query encode duration step),
            parts-append "/trends" (range_query encode duration step),
            range_parts duration step,
            encoded pod,
            append-nil (encode pod),
            nil-append (encode pod),
            decode-encode pod,
            decode-encode duration,
            decode-encode step,
          )
          refl
    of_parts-path (cluster id) =
        rw
          (
            parts-append "/api/clusters/" (encode id),
            encoded id,
            nil-append (encode id),
            decode-encode id,
          )
          refl
    of_parts-path (needs shard_id limit) = elim (Bool-cases (limit == 0)) [
      | inl z ↦ rw z (needs_unlimited shard_id limit z)
      | inr nz ↦ rw nz (needs_limited shard_id limit)
    ]

    -- Where `encodeURIComponent` can be undone and leaves no `/`, `?`, `&` or `=`: two requests have
    -- one address exactly if they are one endpoint with the same arguments.
    pub request_url-inj :
        (base_url : String) (e e' : Endpoint)
        → (request_url encode base_url e ≡ request_url encode base_url e') ↔ (e ≡ e')
    unfolding request_url
    request_url-inj base_url e e' = (
      λ h.
          sym (of_parts-path e)
          ∙ ap (λ p. of_parts (parts p))
              (append_cancel_left (api_base base_url) (endpoint_path encode e)
                (endpoint_path encode e') h)
          ∙ of_parts-path e',
      λ h. ap (request_url encode base_url) h,
    )
