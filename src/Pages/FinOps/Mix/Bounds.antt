-- ===== src/Pages/FinOps/Mix/Bounds.antt =====
-- ui/src/pages/FinOps.tsx: the number that the penalty matrix shades its cells against.
use bigfleet_web_dashboard.Prelude.{
  ◌≡◌, false, List, [], ◌∷◌, String, arith, if◌then◌else◌, All, All-imp,
}
use bigfleet_web_dashboard.Engine.{Engine, IsOrderedEngine}
use bigfleet_web_dashboard.Api.Fleet.{FinOpsSnapshot}
use bigfleet_web_dashboard.Pages.FinOps.Mix.{cell_value, row_max, matrix_max}

module _ (js : Engine) (laws : IsOrderedEngine js) where
  open js use {Number, of_ℕ, lt, is_nan}

  -- One round of the loop: `if (v > m) m = v`.
  abbrev raise : Number → Number → Number
  raise m v = if lt m v then v else m

  raise-number : (m v : Number) → is_nan m ≡ false → is_nan (raise m v) ≡ false
  raise-number m v h = ground (arith, laws.lt_nan m v)

  raise-keeps : (m v x : Number) → is_nan m ≡ false → lt m x ≡ false → lt (raise m v) x ≡ false
  raise-keeps m v x h k = ground (arith, laws.lt_asym m v, laws.lt_cotrans v x m)

  raise-bounds : (m v : Number) → lt (raise m v) v ≡ false
  raise-bounds m v = ground (arith, laws.lt_asym v v)

  module _ (snapshot : FinOpsSnapshot Number) where
    row_max-number :
        (ct : String) (bs : List String) (m : Number)
        → is_nan m ≡ false
        → is_nan (row_max js snapshot ct bs m) ≡ false
    unfolding row_max
    row_max-number ct [] m h = h
    row_max-number ct (b ∷ bs) m h =
        row_max-number ct bs _ (raise-number m (cell_value js snapshot ct b) h)

    row_max-keeps :
        (ct : String) (bs : List String) (m x : Number)
        → is_nan m ≡ false
        → lt m x ≡ false
        → lt (row_max js snapshot ct bs m) x ≡ false
    unfolding row_max
    row_max-keeps ct [] m x h k = k
    row_max-keeps ct (b ∷ bs) m x h k =
        let v = cell_value js snapshot ct b in
        row_max-keeps ct bs _ x (raise-number m v h) (raise-keeps m v x h k)

    row_max-bounds :
        (ct : String) (bs : List String) (m : Number)
        → is_nan m ≡ false
        → All (λ b. lt (row_max js snapshot ct bs m) (cell_value js snapshot ct b) ≡ false) bs
    unfolding row_max
    row_max-bounds ct [] m h = tt
    row_max-bounds ct (b ∷ bs) m h =
        let v = cell_value js snapshot ct b in
        (
          row_max-keeps ct bs _ v (raise-number m v h) (raise-bounds m v),
          row_max-bounds ct bs _ (raise-number m v h),
        )

    matrix_max-keeps :
        (cts : List String) (m x : Number)
        → is_nan m ≡ false
        → lt m x ≡ false
        → lt (matrix_max js snapshot cts m) x ≡ false
    unfolding matrix_max
    matrix_max-keeps [] m x h k = k
    matrix_max-keeps (ct ∷ cts) m x h k =
        let bs = snapshot.buckets in
        matrix_max-keeps cts _ x (row_max-number ct bs m h) (row_max-keeps ct bs m x h k)

    matrix_max-bounds :
        (cts : List String) (m : Number)
        → is_nan m ≡ false
        → All
            (λ ct.
              All
                (λ b. lt (matrix_max js snapshot cts m) (cell_value js snapshot ct b) ≡ false)
                snapshot.buckets)
            cts
    unfolding matrix_max
    matrix_max-bounds [] m h = tt
    matrix_max-bounds (ct ∷ cts) m h =
        let bs = snapshot.buckets in
        let number = row_max-number ct bs m h in
        (
          All-imp bs (λ b k. matrix_max-keeps cts _ (cell_value js snapshot ct b) number k)
              (row_max-bounds ct bs m h),
          matrix_max-bounds cts _ number,
        )

    -- No cell of the penalty matrix is greater than the number that the cells are shaded against.
    pub matrix_max_lem :
        All
          (λ ct.
            All
              (λ b.
                lt
                  (matrix_max js snapshot snapshot.capacity_types (of_ℕ 0))
                  (cell_value js snapshot ct b)
                ≡ false)
              snapshot.buckets)
          snapshot.capacity_types
    matrix_max_lem = matrix_max-bounds snapshot.capacity_types (of_ℕ 0) (laws.of_ℕ_number 0)
