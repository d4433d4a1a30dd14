-- ===== src/Examples/Wire.antt =====
-- The theorems on quantities, penalties, addresses and the virtual list, on concrete data.
use Prim.Native.Nat.{◌^◌}
use bigfleet_web_dashboard.Prelude.{
  ℕ, ◌≤◌, ◌≡◌, ◌↔◌, refl, true, false, some, List, [], ◌∷◌, ◌++◌, map, String, arith, if◌then◌else◌,
  Ordered, filter, ◌==◌, str_eq,
}
use bigfleet_web_dashboard.Prelude.Show.{show}
use bigfleet_web_dashboard.Prelude.Int.{pos}
use bigfleet_web_dashboard.Engine.{or_zero}
use bigfleet_web_dashboard.Engine.Text.{trim}
use bigfleet_web_dashboard.Api.Request.{Endpoint, request_url}
use bigfleet_web_dashboard.Api.Request.Address.{request_url-inj}
use bigfleet_web_dashboard.Api.Reports.{ShardReportShortfall}
use bigfleet_web_dashboard.Format.Quantity.{parse_quantity}
use bigfleet_web_dashboard.Format.Quantity.Grammar.{IsQuantity, unit_value, parse_quantity_lem}
use bigfleet_web_dashboard.Format.Penalty.Buckets.{Bucket, dollars, pinned, rank}
use bigfleet_web_dashboard.Needs.Kit.Panels.{penalty_ladder}
use bigfleet_web_dashboard.Needs.Kit.Panels.Ladder.{replicate, penalty_ladder_lem}
use bigfleet_web_dashboard.Needs.Walk.{WalkItem, row, cutline}
use bigfleet_web_dashboard.Needs.Table.Virtual.{
  VirtualItem, DrawnRow, virtual_rows, virtual_rows_lem,
}
use bigfleet_web_dashboard.Pages.ShardReports.{bucket, sort_shortfalls}
use bigfleet_web_dashboard.Pages.ShardReports.Buckets.{sort_shortfalls-bucket}
use bigfleet_web_dashboard.Examples.Samples.{first, second}
use bigfleet_web_dashboard.Examples.Engines.{
  halves, halves_whole, halves_ranked, encode_marks, decode_marks, decode-encode_marks,
  encode_marks-IsPlain,
}

parse_quantity_lem_example :
    ((digits unit : String)
      → IsQuantity (trim " 8 Gi") digits unit
      → (parse_quantity halves (some " 8 Gi")
          ≡ halves.mul (or_zero halves (halves.parse_float digits)) (unit_value halves unit))
        × ((d u : String) → IsQuantity (trim " 8 Gi") d u → (d ≡ digits) × (u ≡ unit)))
    × (((digits unit : String) → ¬ IsQuantity (trim " 8 Gi") digits unit)
        → parse_quantity halves (some " 8 Gi") ≡ or_zero halves (halves.parse_float " 8 Gi"))
parse_quantity_lem_example = parse_quantity_lem halves " 8 Gi" refl

penalty_ladder_lem_example :
    ((penalty_ladder halves (show (2 ^ 13))).stops ≡ replicate 16 true ++ replicate 11 false)
    × ((penalty_ladder halves (show (2 ^ 13))).pinned ≡ false)
penalty_ladder_lem_example = penalty_ladder_lem halves halves_whole (dollars 13) (omega arith)

request_url-inj_example :
    (request_url encode_marks "/fleet/" (Endpoint.shard "a/b")
      ≡ request_url encode_marks "/fleet/" (Endpoint.cluster "a"))
    ↔ (Endpoint.shard "a/b" ≡ Endpoint.cluster "a")
request_url-inj_example =
    request_url-inj encode_marks decode_marks decode-encode_marks encode_marks-IsPlain "/fleet/"
      (Endpoint.shard "a/b") (Endpoint.cluster "a")

abbrev items : List WalkItem
items = row "r:x:0" first ∷ cutline "c:x" 1 ∷ row "r:x:1" second ∷ []

-- The last two of the items, and one past their end.
abbrev window : List VirtualItem
window =
    record { index = 1; start = 42 }
    ∷ record { index = 2; start = 72 }
    ∷ record { index = 3; start = 114 }
    ∷ []

virtual_rows_lem_example :
    (map (λ (r : DrawnRow). r.item) (virtual_rows items 114 window).drawn
      ≡ cutline "c:x" 1 ∷ row "r:x:1" second ∷ [])
    × (map (λ (r : DrawnRow). r.top) (virtual_rows items 114 window).drawn ≡ 42 ∷ 72 ∷ [])
virtual_rows_lem_example = virtual_rows_lem items 114 1 window (refl, (refl, (refl, tt)))

abbrev spelled : String → ShardReportShortfall
spelled b = record { priority = pos 1; deficit = []; age_cycles = 2; penalty_bucket = b }

abbrev two_shortfalls : List ShardReportShortfall
two_shortfalls = spelled "PENALTY_BUCKET_8" ∷ spelled "PENALTY_BUCKET_PINNED" ∷ []

abbrev bucket_of : ShardReportShortfall → Bucket
bucket_of r = if str_eq r.penalty_bucket "PENALTY_BUCKET_8" then dollars 3 else pinned

sort_shortfalls-bucket_example :
    Ordered
      (λ a b. rank (bucket_of b) ≤ rank (bucket_of a))
      (sort_shortfalls halves two_shortfalls bucket)
    × ((n : ℕ)
        → filter (λ r. rank (bucket_of r) == n) (sort_shortfalls halves two_shortfalls bucket)
          ≡ filter (λ r. rank (bucket_of r) == n) two_shortfalls)
unfolding str_eq show
sort_shortfalls-bucket_example =
    sort_shortfalls-bucket halves halves_whole halves_ranked bucket_of two_shortfalls
      ((omega arith, refl), ((tt, refl), tt))
