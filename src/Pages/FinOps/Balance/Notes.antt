-- ===== src/Pages/FinOps/Balance/Notes.antt =====
-- The note under the balance of demand and supply, and the rows that it speaks of.
use bigfleet_web_dashboard.Prelude.{
  ◌≡◌, refl, sym, ap, ◌∙◌, Bool, true, false, List, [], ◌∷◌, map, String, arith, if◌then◌else◌, ltb,
  ◌<>◌, length, filter, Bool-cases, inl, inr,
}
use bigfleet_web_dashboard.Prelude.Show.{join}
use bigfleet_web_dashboard.Engine.{Engine}
use bigfleet_web_dashboard.Format.Penalty.{format_penalty_bucket}
use bigfleet_web_dashboard.Api.Fleet.{FinOpsSnapshot}
use bigfleet_web_dashboard.Needs.Kit.{Tone, danger}
use bigfleet_web_dashboard.Pages.FinOps.Balance.{
  BucketRow, bucket_rows, is_short, bar_max, GapRow, gap_row, today, demand_vs_supply,
}

abbrev is_danger : Tone → Bool
is_danger danger = true
is_danger _ = false

-- A note that names some buckets.
abbrev pub note_of : List String → String
note_of texts =
    if ltb 0 (length texts) then "Today: " <> join ", " texts <> "." else "None right now."

length-map : {A B : Type 0} (f : A → B) (xs : List A) → length (map f xs) ≡ length xs
length-map f [] = refl
length-map f (x ∷ xs) = omega (arith, length-map f xs)

module _ (js : Engine) where
  open js use {Number, of_ℕ, sub, lt}

  -- A row whose gap is red.
  abbrev pub is_red : GapRow js → Bool
  is_red g = is_danger g.gap_tone

  today_lem :
      (rows : List (BucketRow js))
      → today js rows ≡ note_of (map (λ (r : BucketRow js). format_penalty_bucket js r.bucket) rows)
  unfolding today
  today_lem rows =
      rw (length-map (λ (r : BucketRow js). format_penalty_bucket js r.bucket) rows) refl

  -- `a - b < 0` exactly where `a < b`, as IEEE doubles have it.
  module _ (minus : (a b : Number) → lt (sub a b) (of_ℕ 0) ≡ lt a b) where
    red_short : (top : Number) (r : BucketRow js) → is_red (gap_row js top r) ≡ is_short js r
    unfolding gap_row
    red_short top r = ground (arith, minus r.supply r.demand)

    gap_row_text :
        (top : Number) (r : BucketRow js)
        → (gap_row js top r).bucket_text ≡ format_penalty_bucket js r.bucket
    unfolding gap_row
    gap_row_text top r = refl

    red_rows :
        (top : Number) (rows : List (BucketRow js))
        → map (λ (g : GapRow js). g.bucket_text) (filter is_red (map (gap_row js top) rows))
          ≡ map
              (λ (r : BucketRow js). format_penalty_bucket js r.bucket)
              (filter (is_short js) rows)
    red_rows top [] = refl
    red_rows top (r ∷ rows) = elim (Bool-cases (is_short js r)) [
      | inl e ↦
          rw (red_short top r, e, gap_row_text top r)
            (ap (◌∷◌ (format_penalty_bucket js r.bucket)) (red_rows top rows))
      | inr e ↦ rw (red_short top r, e) (red_rows top rows)
    ]

    -- Where `a - b < 0` holds exactly where `a < b` does, the note on the buckets that are short
    -- names exactly the rows whose gap is red, in their order, and says so where there are none.
    pub short_note_lem :
        (snapshot : FinOpsSnapshot Number)
        → (demand_vs_supply js snapshot).short_note
          ≡ note_of (
              map
                (λ (g : GapRow js). g.bucket_text)
                (filter is_red (demand_vs_supply js snapshot).gap_rows))
    unfolding demand_vs_supply
    short_note_lem snapshot =
        let rows = bucket_rows js snapshot in
        today_lem (filter (is_short js) rows)
        ∙ ap note_of (sym (red_rows (bar_max js rows (of_ℕ 1)) rows))
