-- ===== src/Needs/Kit/Panels/Ladder.antt =====
-- The thermometer of a penalty: how many of its stops are filled for each bucket that the wire has.

use Prim.Native.Nat.{◌^◌}
use bigfleet_web_dashboard.Prelude.{
  ℕ, zero, suc, ◌+◌, ◌-◌, ◌<◌, ◌≤◌, ◌≡◌, refl, ap, true, false, ◌||◌, some, List, [], ◌∷◌, ◌++◌,
  arith, str_eq, ltb, lt→ltb, ◌==◌,
}
use bigfleet_web_dashboard.Prelude.Show.{show}
use bigfleet_web_dashboard.Prelude.Show.Digits.{show_numerals, truthy-show}
use bigfleet_web_dashboard.Engine.{Engine}
use bigfleet_web_dashboard.Engine.Whole.{IsWholeEngine, limit}
use bigfleet_web_dashboard.Format.Penalty.Buckets.{
  Bucket, unspecified, free, half_dollar, pinned, dollars, wire, IsBucket, rank, is_pinned,
  numeral-capital, keep-numerals, numerals_ne, truthy_ne, small_power,
}
use bigfleet_web_dashboard.Format.Penalty.{penalty_ordinal}
use bigfleet_web_dashboard.Needs.Kit.Panels.{ladder_stops, penalty_ladder}

abbrev pub replicate {ℓ} : {A : Type ℓ} → ℕ → A → List A
replicate zero x = []
replicate (suc n) x = x ∷ replicate n x

not_below : (i m : ℕ) → m ≤ i → ltb i m ≡ false
not_below i m h = ground arith

rank_le : (b : Bucket) → IsBucket b → rank b ≤ 27
rank_le unspecified h = omega arith
rank_le free h = omega arith
rank_le half_dollar h = omega arith
rank_le pinned h = omega arith
rank_le (dollars k) h = omega arith

top_rank : (b : Bucket) → IsBucket b → (ltb 27 (rank b) || 27 == rank b) ≡ is_pinned b
top_rank unspecified h = refl
top_rank free h = refl
top_rank half_dollar h = refl
top_rank pinned h = refl
top_rank (dollars k) h = ground arith

module _ (js : Engine) (whole : IsWholeEngine js) where
  open js use {Number, of_ℕ, lt}

  dollars_ordinal : (k : ℕ) → k < 24 → penalty_ordinal js (some (show (2 ^ k))) ≡ of_ℕ (k + 3)
  unfolding penalty_ordinal
  dollars_ordinal k h =
      let n = show (2 ^ k) in
      let digits = show_numerals (2 ^ k) in
      let (some_dollars, small) = small_power k h in
      rw
        (
          whole.upper_capital n (numeral-capital n digits),
          truthy-show (2 ^ k),
          truthy_ne n (truthy-show (2 ^ k)),
          numerals_ne n "UNSPECIFIED" digits refl,
          numerals_ne n "ZERO" digits refl,
          numerals_ne n "$0" digits refl,
          numerals_ne n "HALF_DOLLAR" digits refl,
          numerals_ne n "$0.50" digits refl,
          numerals_ne n "PINNED" digits refl,
          keep-numerals n digits,
          whole.parse_show (2 ^ k) small,
          whole.finite (2 ^ k) small,
          whole.lt_of_ℕ (2 ^ k) 0 small (omega arith),
          whole.eq_of_ℕ (2 ^ k) 0 small (omega arith),
          whole.round_log2 k (omega arith),
          whole.add_of_ℕ k 3 (omega arith),
        )
        (ground arith)

  penalty_ordinal_lem :
      (b : Bucket) → IsBucket b → penalty_ordinal js (some (wire b)) ≡ of_ℕ (rank b)
  unfolding penalty_ordinal str_eq
  penalty_ordinal_lem unspecified h = rw (whole.upper_capital "UNSPECIFIED" refl) refl
  penalty_ordinal_lem free h = rw (whole.upper_capital "ZERO" refl) refl
  penalty_ordinal_lem half_dollar h = rw (whole.upper_capital "HALF_DOLLAR" refl) refl
  penalty_ordinal_lem pinned h = rw (whole.upper_capital "PINNED" refl) refl
  penalty_ordinal_lem (dollars k) h = dollars_ordinal k h

  stops_above :
      (n i m : ℕ) → m ≤ i → i + n < limit → ladder_stops js n i (of_ℕ m) ≡ replicate n false
  unfolding ladder_stops
  stops_above zero i m h k = refl
  stops_above (suc n) i m h k =
      rw (whole.lt_of_ℕ i m (omega arith) (omega arith), not_below i m h)
        (ap (◌∷◌ false) (stops_above n (i + 1) m (omega arith) (omega arith)))

  ladder_stops_lem :
      (n i r : ℕ)
      → r ≤ n
      → i + n < limit
      → ladder_stops js n i (of_ℕ (i + r)) ≡ replicate r true ++ replicate (n - r) false
  unfolding ladder_stops
  ladder_stops_lem zero i zero h k = refl
  ladder_stops_lem zero i (suc r) h k = absurd (omega arith)
  ladder_stops_lem (suc n) i zero h k =
      let all_left : suc n - 0 ≡ suc n = omega arith in
      rw all_left (stops_above (suc n) i (i + 0) (omega arith) (omega arith))
  ladder_stops_lem (suc n) i (suc r) h k =
      let shift : i + suc r ≡ (i + 1) + r = omega arith in
      let left : suc n - suc r ≡ n - r = omega arith in
      rw
        (
          left,
          whole.lt_of_ℕ i (i + suc r) (omega arith) (omega arith),
          lt→ltb i (i + suc r) (omega arith),
        )
        (ap (◌∷◌ true) (rw shift (ladder_stops_lem n (i + 1) r (omega arith) (omega arith))))

  -- Under the laws of whole numbers, for every bucket that the wire has, the thermometer has 27
  -- stops and fills as many as the place of the bucket on the ladder, from the first on: none for
  -- an unset penalty, all for a pinned one. The lock is shown exactly for a pinned one.
  pub penalty_ladder_lem :
      (b : Bucket)
      → IsBucket b
      → ((penalty_ladder js (wire b)).stops
          ≡ replicate (rank b) true ++ replicate (27 - rank b) false)
        × ((penalty_ladder js (wire b)).pinned ≡ is_pinned b)
  unfolding penalty_ladder
  penalty_ladder_lem b h =
      let le = rank_le b h in
      let none_before : 0 + rank b ≡ rank b = omega arith in
      rw (penalty_ordinal_lem b h) (
        rw none_before at (ladder_stops_lem 27 0 (rank b) le (omega arith)),
        rw
            (
              whole.lt_of_ℕ 27 (rank b) (omega arith) (omega arith),
              whole.eq_of_ℕ 27 (rank b) (omega arith) (omega arith),
            )
            (top_rank b h),
      )
