-- ===== src/Pages/ShardReports/Buckets.antt =====
-- The shortfalls sorted by their penalty buckets.
use Prim.Native.Nat.{◌^◌}
use text.Mathlib.TextLemmas.{nil-append, cons-append}
use bigfleet_web_dashboard.Prelude.{
  ℕ, ◌≤◌, ◌≡◌, refl, ◌∙◌, Bool, true, List, String, arith, ◌<>◌, str_eq, ltb, ◌==◌, All, Ordered,
  Ordered-imp, filter,
}
use bigfleet_web_dashboard.Prelude.Sort.{
  sort_by, sort_by_congr, sort_by-Ordered, filter-sort_by, IsStrictWeak,
}
use bigfleet_web_dashboard.Prelude.Show.{show}
use bigfleet_web_dashboard.Prelude.Show.Digits.{show_numerals, truthy-show}
use bigfleet_web_dashboard.Engine.{Engine, ratio}
use bigfleet_web_dashboard.Engine.Whole.{IsWholeEngine, IsRankedEngine}
use bigfleet_web_dashboard.Engine.Text.{remove_prefix, has_prefix, drop_prefix}
use bigfleet_web_dashboard.Format.Penalty.Buckets.{
  Bucket, unspecified, free, half_dollar, pinned, dollars, wire, IsBucket, rank, numerals_ne,
  truthy_ne, small_power, ltb-pow,
}
use bigfleet_web_dashboard.Api.Reports.{ShardReportShortfall}
use bigfleet_web_dashboard.Pages.ShardReports.{
  Rank, infinite, unranked, bucket, bucket_short, bucket_rank, rank_above, shortfall_before,
  sort_shortfalls,
}

-- How a report spells a bucket.
abbrev pub full_wire : Bucket → String
full_wire b = "PENALTY_BUCKET_" <> wire b

prefix_again : (t s : String) → (has_prefix (t <> s) t ≡ true) × (drop_prefix (t <> s) t ≡ s)
unfolding has_prefix drop_prefix
prefix_again String.[] s = (refl, nil-append s)
prefix_again (String.◌∷◌ c t) s =
    let (h, d) = prefix_again t s in rw (cons-append c t s) (ground arith, d)

bucket_short-full_wire : (b : Bucket) → bucket_short (full_wire b) ≡ wire b
unfolding bucket_short remove_prefix
bucket_short-full_wire b = let (h, d) = prefix_again "PENALTY_BUCKET_" (wire b) in rw h d

module _ (js : Engine) (whole : IsWholeEngine js) (ranked : IsRankedEngine js) where
  open js use {Number, of_ℕ, lt}

  -- What `bucketRank` gives for a bucket.
  abbrev value_of : Bucket → Rank Number
  value_of unspecified = unranked
  value_of free = Rank.rank (of_ℕ 0)
  value_of half_dollar = Rank.rank (ratio js 1 2)
  value_of (dollars k) = Rank.rank (of_ℕ (2 ^ k))
  value_of pinned = infinite

  bucket_rank_lem : (b : Bucket) → IsBucket b → bucket_rank js (full_wire b) ≡ value_of b
  unfolding bucket_rank str_eq
  bucket_rank_lem unspecified h = refl
  bucket_rank_lem free h = refl
  bucket_rank_lem half_dollar h = refl
  bucket_rank_lem pinned h = refl
  bucket_rank_lem (dollars k) h =
      let n = show (2 ^ k) in
      let digits = show_numerals (2 ^ k) in
      let (some_dollars, small) = small_power k h in
      rw
        (
          bucket_short-full_wire (dollars k),
          numerals_ne n "PINNED" digits refl,
          numerals_ne n "ZERO" digits refl,
          numerals_ne n "HALF_DOLLAR" digits refl,
          numerals_ne n "UNSPECIFIED" digits refl,
          truthy_ne n (truthy-show (2 ^ k)),
          ranked.to_number_show (2 ^ k) small,
          whole.finite (2 ^ k) small,
        )
        refl

  rank_above_lem :
      (a b : Bucket)
      → IsBucket a
      → IsBucket b
      → rank_above js (value_of a) (value_of b) ≡ ltb (rank b) (rank a)
  rank_above_lem unspecified unspecified h k = refl
  rank_above_lem unspecified free h k = ranked.whole_above 0 (omega arith)
  rank_above_lem unspecified half_dollar h k = ranked.half_above
  rank_above_lem unspecified (dollars j) h k =
      ranked.whole_above (2 ^ j) (small_power j k).1 ∙ ground arith
  rank_above_lem unspecified pinned h k = refl
  rank_above_lem free unspecified h k = ranked.below_whole 0 (omega arith)
  rank_above_lem free free h k = whole.lt_of_ℕ 0 0 (omega arith) (omega arith)
  rank_above_lem free half_dollar h k = ranked.half-whole 0 (omega arith)
  rank_above_lem free (dollars j) h k =
      let (up, small) = small_power j k in
      whole.lt_of_ℕ (2 ^ j) 0 small (omega arith) ∙ ground arith
  rank_above_lem free pinned h k = refl
  rank_above_lem half_dollar unspecified h k = ranked.below_half
  rank_above_lem half_dollar free h k = ranked.whole-half 0 (omega arith)
  rank_above_lem half_dollar half_dollar h k = ranked.half_self
  rank_above_lem half_dollar (dollars j) h k =
      let (up, small) = small_power j k in ranked.whole-half (2 ^ j) small ∙ ground arith
  rank_above_lem half_dollar pinned h k = refl
  rank_above_lem (dollars i) unspecified h k =
      ranked.below_whole (2 ^ i) (small_power i h).1 ∙ ground arith
  rank_above_lem (dollars i) free h k =
      let (up, small) = small_power i h in
      whole.lt_of_ℕ 0 (2 ^ i) (omega arith) small ∙ ground arith
  rank_above_lem (dollars i) half_dollar h k =
      let (up, small) = small_power i h in ranked.half-whole (2 ^ i) small ∙ ground arith
  rank_above_lem (dollars i) (dollars j) h k =
      whole.lt_of_ℕ (2 ^ j) (2 ^ i) (small_power j k).1 (small_power i h).1
      ∙ ltb-pow j i
      ∙ ground arith
  rank_above_lem (dollars i) pinned h k = ground arith
  rank_above_lem pinned unspecified h k = refl
  rank_above_lem pinned free h k = refl
  rank_above_lem pinned half_dollar h k = refl
  rank_above_lem pinned (dollars j) h k = ground arith
  rank_above_lem pinned pinned h k = refl

  above_of_texts :
      (s t : String) (a b : Bucket)
      → IsBucket a
      → IsBucket b
      → s ≡ full_wire a
      → t ≡ full_wire b
      → rank_above js (bucket_rank js s) (bucket_rank js t) ≡ ltb (rank b) (rank a)
  above_of_texts s t a b h k e f =
      rw (e, f, bucket_rank_lem a h, bucket_rank_lem b k) (rank_above_lem a b h k)

  module _ (bucket_of : ShardReportShortfall → Bucket) where
    abbrev pub IsSpelled : ShardReportShortfall → Type 0
    IsSpelled r = IsBucket (bucket_of r) × (r.penalty_bucket ≡ full_wire (bucket_of r))

    abbrev pub rank_of : ShardReportShortfall → ℕ
    rank_of r = rank (bucket_of r)

    abbrev dearer : ShardReportShortfall → ShardReportShortfall → Bool
    dearer a b = ltb (rank_of b) (rank_of a)

    dearer-IsStrictWeak : IsStrictWeak dearer
    dearer-IsStrictWeak = record {
      asym = λ a b h. ground arith;
      cotrans = λ a b c h k. ground arith;
    }

    before-dearer :
        (a b : ShardReportShortfall)
        → IsSpelled a
        → IsSpelled b
        → shortfall_before js bucket a b ≡ dearer a b
    before-dearer a b h k =
        above_of_texts a.penalty_bucket b.penalty_bucket (bucket_of a) (bucket_of b) h.0 k.0 h.1 k.1

    -- Under the laws of whole numbers, where every shortfall has a bucket of the wire: by bucket
    -- the dearest stand first, pinned ones before all, and unset ones last, and those of one
    -- bucket in their given order.
    pub sort_shortfalls-bucket :
        (rows : List ShardReportShortfall)
        → All (λ r. IsBucket (bucket_of r) × (r.penalty_bucket ≡ full_wire (bucket_of r))) rows
        → Ordered (λ a b. rank_of b ≤ rank_of a) (sort_shortfalls js rows bucket)
          × ((n : ℕ)
              → filter (λ r. rank_of r == n) (sort_shortfalls js rows bucket)
                ≡ filter (λ r. rank_of r == n) rows)
    unfolding sort_shortfalls
    sort_shortfalls-bucket rows h =
        rw (sort_by_congr IsSpelled (shortfall_before js bucket) dearer before-dearer rows h) (
          Ordered-imp (sort_by dearer rows) (λ a b e. ground arith)
              (sort_by-Ordered dearer dearer-IsStrictWeak rows),
          λ n.
              filter-sort_by dearer dearer-IsStrictWeak (λ r. rank_of r == n)
                (λ x y e k. ground arith) rows,
        )
