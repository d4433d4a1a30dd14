-- ===== src/Prelude/Sort.antt =====
-- `Array.prototype.sort` with a comparison function, of which the source uses only the sign:
-- `before x y` stands for `compare(x, y) < 0`. Items are inserted from the left, each behind those
-- that it is not before, as an engine's insertion sort does; for a strict weak order the result is
-- the one stable sort, whatever the algorithm.
pub mod Ties
use mathlib.Core.Path.{◌≡◌, refl, sym, ap, ◌∙◌}
use mathlib.Core.Bool.{Bool, true, false}
use mathlib.Core.Logic.{inl, inr}
use mathlib.Core.List.{List, [], ◌∷◌, ◌++◌, Perm, append-nil, append_assoc, perm_middle}
use mathlib.Core.List.Perm
use bigfleet_web_dashboard.Prelude.Tests.{if◌then◌else◌, Bool-cases}
use Prim.Native.Nat.{suc, ◌+◌}
use native.Mathlib.Omega.{arith}
use bigfleet_web_dashboard.Prelude.Lists.{
  All, Ordered, All-imp, All-imp₂, All-of_forall, filter, length, Ordered-append_before,
}

-- A comparison that is consistent, in the sense of the language's specification.
pub record IsStrictWeak {ℓ} {A : Type ℓ} (before : A → A → Bool) : Type ℓ where
  pub asym : (x y : A) → before x y ≡ true → before y x ≡ false
  pub cotrans : (x y z : A) → before x y ≡ true → before x z ≡ false → before z y ≡ true

pub weak_irrefl {ℓ} :
    {A : Type ℓ} {before : A → A → Bool} → IsStrictWeak before → (x : A) → before x x ≡ false
weak_irrefl {before} weak x = elim (Bool-cases (before x x)) [ inl e ↦ weak.asym x x e | inr e ↦ e ]

module _ {ℓ} {A : Type ℓ} (before : A → A → Bool) where
  insert_by : A → List A → List A
  insert_by x [] = x ∷ []
  insert_by x (y ∷ ys) = if before x y then x ∷ y ∷ ys else y ∷ insert_by x ys

  sort_from : List A → List A → List A
  sort_from acc [] = acc
  sort_from acc (x ∷ xs) = sort_from (insert_by x acc) xs

  unfoldable pub sort_by : List A → List A
  unfolding sort_from insert_by
  sort_by xs = sort_from [] xs

  -- `b` may stand behind `a`.
  abbrev pub NotAfter : A → A → Type 0
  NotAfter a b = before b a ≡ false

  insert_by-perm : (x : A) (ys : List A) → Perm (insert_by x ys) (x ∷ ys)
  unfolding insert_by
  insert_by-perm x [] = Perm.rfl
  insert_by-perm x (y ∷ ys) = elim (Bool-cases (before x y)) [
    | inl e ↦ rw e Perm.rfl
    | inr e ↦ rw e (Perm.trans (Perm.cons y (insert_by-perm x ys)) (Perm.swap x y ys))
  ]

  sort_from-perm : (acc xs : List A) → Perm (sort_from acc xs) (acc ++ xs)
  unfolding sort_from
  sort_from-perm acc [] = rw append-nil Perm.rfl
  sort_from-perm acc (x ∷ xs) =
      Perm.trans (sort_from-perm (insert_by x acc) xs)
        (Perm.trans (Perm.append_right xs (insert_by-perm x acc)) (Perm.symm (perm_middle acc xs)))

  pub sort_by-perm : (xs : List A) → Perm (sort_by xs) xs
  unfolding sort_by
  sort_by-perm xs = sort_from-perm [] xs

  length-insert_by : (x : A) (ys : List A) → length (insert_by x ys) ≡ suc (length ys)
  unfolding insert_by
  length-insert_by x [] = refl
  length-insert_by x (y ∷ ys) = ground (arith, length-insert_by x ys)

  length-sort_from : (acc xs : List A) → length (sort_from acc xs) ≡ length acc + length xs
  unfolding sort_from
  length-sort_from acc [] = omega arith
  length-sort_from acc (x ∷ xs) =
      omega (arith, length-sort_from (insert_by x acc) xs, length-insert_by x acc)

  pub length-sort_by : (xs : List A) → length (sort_by xs) ≡ length xs
  unfolding sort_by
  length-sort_by xs = omega (arith, length-sort_from [] xs)

  -- A list in order is left as it is.
  insert_by_last :
      (x : A) (ys : List A) → All (λ y. before x y ≡ false) ys → insert_by x ys ≡ ys ++ x ∷ []
  unfolding insert_by
  insert_by_last x [] h = refl
  insert_by_last x (y ∷ ys) h = rw h.0 (ap (◌∷◌ y) (insert_by_last x ys h.1))

  sort_from_of_Ordered :
      (acc xs : List A) → Ordered NotAfter (acc ++ xs) → sort_from acc xs ≡ acc ++ xs
  unfolding sort_from
  sort_from_of_Ordered acc [] h = sym (append-nil acc)
  sort_from_of_Ordered acc (x ∷ xs) h =
      rw (insert_by_last x acc (Ordered-append_before NotAfter acc x xs h))
        (sort_from_of_Ordered (acc ++ x ∷ []) xs (rw append_assoc h) ∙ append_assoc acc (x ∷ []) xs)

  pub sort_by_of_Ordered : (xs : List A) → Ordered NotAfter xs → sort_by xs ≡ xs
  unfolding sort_by
  sort_by_of_Ordered xs h = sort_from_of_Ordered [] xs h

  module _ {κ} (P : A → Type κ) where
    insert_by-All : (x : A) (ys : List A) → P x → All P ys → All P (insert_by x ys)
    unfolding insert_by
    insert_by-All x [] h k = (h, tt)
    insert_by-All x (y ∷ ys) h k = elim (Bool-cases (before x y)) [
      | inl e ↦ rw e (h, (k.0, k.1))
      | inr e ↦ rw e (k.0, insert_by-All x ys h k.1)
    ]

    sort_from-All : (acc xs : List A) → All P acc → All P xs → All P (sort_from acc xs)
    unfolding sort_from
    sort_from-All acc [] h k = h
    sort_from-All acc (x ∷ xs) h k =
        sort_from-All (insert_by x acc) xs (insert_by-All x acc k.0 h) k.1

    pub sort_by-All : (xs : List A) → All P xs → All P (sort_by xs)
    unfolding sort_by
    sort_by-All xs h = sort_from-All [] xs tt h

  -- A symmetric relation that holds between the items of a list still does in another order.
  module _ {κ} (R : A → A → Type κ) (symm : (x y : A) → R x y → R y x) where
    insert_by-Ordered_symm :
        (x : A) (ys : List A) → All (R x) ys → Ordered R ys → Ordered R (insert_by x ys)
    unfolding insert_by
    insert_by-Ordered_symm x [] h k = (tt, tt)
    insert_by-Ordered_symm x (y ∷ ys) h k = elim (Bool-cases (before x y)) [
      | inl e ↦ rw e ((h.0, h.1), k)
      | inr e ↦
          rw e (insert_by-All (R y) x ys (symm x y h.0) k.0, insert_by-Ordered_symm x ys h.1 k.1)
    ]

    -- Every item of the first list is related to every item of the second.
    sort_from-Ordered_symm :
        (acc xs : List A)
        → Ordered R acc
        → Ordered R xs
        → All (λ x. All (R x) acc) xs
        → Ordered R (sort_from acc xs)
    unfolding sort_from
    sort_from-Ordered_symm acc [] h k across = h
    sort_from-Ordered_symm acc (x ∷ xs) h k across =
        sort_from-Ordered_symm (insert_by x acc) xs (insert_by-Ordered_symm x acc across.0 h) k.1
          (All-imp₂ xs (λ y r a. insert_by-All (R y) x acc (symm x y r) a) k.0 across.1)

    pub sort_by-Ordered_symm : (xs : List A) → Ordered R xs → Ordered R (sort_by xs)
    unfolding sort_by
    sort_by-Ordered_symm xs h = sort_from-Ordered_symm [] xs tt h (All-of_forall xs (λ x. tt))

  module _ (weak : IsStrictWeak before) where
    not_before_trans : (x y z : A) → before x y ≡ true → before z y ≡ false → before z x ≡ false
    not_before_trans x y z p q = elim (Bool-cases (before z x)) [
      | inl e ↦ absurd (cc (weak.cotrans x y z p (weak.asym z x e)))
      | inr e ↦ e
    ]

    insert_by-Ordered :
        (x : A) (ys : List A) → Ordered NotAfter ys → Ordered NotAfter (insert_by x ys)
    unfolding insert_by
    insert_by-Ordered x [] h = (tt, tt)
    insert_by-Ordered x (y ∷ ys) h = elim (Bool-cases (before x y)) [
      | inl e ↦ rw e ((weak.asym x y e, All-imp ys (λ z. not_before_trans x y z e) h.0), h)
      | inr e ↦ rw e (insert_by-All (NotAfter y) x ys e h.0, insert_by-Ordered x ys h.1)
    ]

    sort_from-Ordered :
        (acc xs : List A) → Ordered NotAfter acc → Ordered NotAfter (sort_from acc xs)
    unfolding sort_from
    sort_from-Ordered acc [] h = h
    sort_from-Ordered acc (x ∷ xs) h =
        sort_from-Ordered (insert_by x acc) xs (insert_by-Ordered x acc h)

    pub sort_by-Ordered : (xs : List A) → Ordered NotAfter (sort_by xs)
    unfolding sort_by
    sort_by-Ordered xs = sort_from-Ordered [] xs tt

    -- Stability: items of a class within which nothing is before anything keep their order.
    module _ (q : A → Bool) (tied : (x y : A) → q x ≡ true → q y ≡ true → before x y ≡ false) where
      none_behind :
          (x : A) (ys : List A) → q x ≡ true → All (λ y. before x y ≡ true) ys → filter q ys ≡ []
      none_behind x [] qx h = refl
      none_behind x (y ∷ ys) qx h = elim (Bool-cases (q y)) [
        | inl e ↦ absurd (cc (h.0, tied x y qx e))
        | inr e ↦ rw e (none_behind x ys qx h.1)
      ]

      filter-insert_by_in :
          (x : A) (ys : List A)
          → q x ≡ true
          → Ordered NotAfter ys
          → filter q (insert_by x ys) ≡ filter q ys ++ x ∷ []
      unfolding insert_by
      filter-insert_by_in x [] qx h = rw qx refl
      filter-insert_by_in x (y ∷ ys) qx h = elim (Bool-cases (before x y)) [
        | inl e ↦
            let behind : filter q (y ∷ ys) ≡ [] =
              none_behind x (y ∷ ys) qx (e, All-imp ys (λ z p. before_of_before x y z e p) h.0) in
            rw (e, qx, behind) refl
        | inr e ↦ elim (Bool-cases (q y)) [
          | inl f ↦ rw (e, f) (ap (◌∷◌ y) (filter-insert_by_in x ys qx h.1))
          | inr f ↦ rw (e, f) (filter-insert_by_in x ys qx h.1)
        ]
      ]
        where
          before_of_before :
              (x y z : A) → before x y ≡ true → before z y ≡ false → before x z ≡ true
          before_of_before x y z p r = elim (Bool-cases (before x z)) [
            | inl e ↦ e
            | inr e ↦ absurd (cc (weak.cotrans x y z p e))
          ]

      filter-insert_by_out :
          (x : A) (ys : List A) → q x ≡ false → filter q (insert_by x ys) ≡ filter q ys
      unfolding insert_by
      filter-insert_by_out x [] qx = rw qx refl
      filter-insert_by_out x (y ∷ ys) qx = elim (Bool-cases (before x y)) [
        | inl e ↦ rw (e, qx) refl
        | inr e ↦ elim (Bool-cases (q y)) [
          | inl f ↦ rw (e, f) (ap (◌∷◌ y) (filter-insert_by_out x ys qx))
          | inr f ↦ rw (e, f) (filter-insert_by_out x ys qx)
        ]
      ]

      filter-sort_from :
          (acc xs : List A)
          → Ordered NotAfter acc
          → filter q (sort_from acc xs) ≡ filter q acc ++ filter q xs
      unfolding sort_from
      filter-sort_from acc [] h = sym (append-nil (filter q acc))
      filter-sort_from acc (x ∷ xs) h =
          filter-sort_from (insert_by x acc) xs (insert_by-Ordered x acc h)
          ∙ elim (Bool-cases (q x)) [
            | inl e ↦
                rw (filter-insert_by_in x acc e h, e)
                  (append_assoc (filter q acc) (x ∷ []) (filter q xs))
            | inr e ↦ rw (filter-insert_by_out x acc e, e) refl
          ]

      pub filter-sort_by : (xs : List A) → filter q (sort_by xs) ≡ filter q xs
      unfolding sort_by
      filter-sort_by xs = filter-sort_from [] xs tt

-- Comparisons that agree on the items sort them alike.
module _ {ℓ κ} {A : Type ℓ} (P : A → Type κ) (f g : A → A → Bool) where
  insert_by_congr :
      ((x y : A) → P x → P y → f x y ≡ g x y)
      → (x : A) (ys : List A) → P x
      → All P ys
      → insert_by f x ys ≡ insert_by g x ys
  unfolding insert_by
  insert_by_congr same x [] h k = refl
  insert_by_congr same x (y ∷ ys) h k = elim (Bool-cases (g x y)) [
    | inl e ↦ rw (same x y h k.0, e) refl
    | inr e ↦ rw (same x y h k.0, e) (ap (◌∷◌ y) (insert_by_congr same x ys h k.1))
  ]

  sort_from_congr :
      ((x y : A) → P x → P y → f x y ≡ g x y)
      → (acc xs : List A) → All P acc
      → All P xs
      → sort_from f acc xs ≡ sort_from g acc xs
  unfolding sort_from
  sort_from_congr same acc [] h k = refl
  sort_from_congr same acc (x ∷ xs) h k =
      sort_from_congr same (insert_by f x acc) xs (insert_by-All f P x acc k.0 h) k.1
      ∙ ap (λ a. sort_from g a xs) (insert_by_congr same x acc k.0 h)

  pub sort_by_congr :
      ((x y : A) → P x → P y → f x y ≡ g x y)
      → (xs : List A) → All P xs
      → sort_by f xs ≡ sort_by g xs
  unfolding sort_by
  sort_by_congr same xs h = sort_from_congr same [] xs tt h
