-- ===== src/Prelude/Sort/Ties.antt =====
-- Where no two items tie, the order in which they are given does not matter.
use mathlib.Core.Path.{◌≡◌, refl, sym, ap, ◌∙◌, subst}
use mathlib.Core.Bool.{Bool, true}
use mathlib.Core.Logic.{◌⊎◌, inl, inr}
use mathlib.Core.List.{List, [], ◌∷◌, Permᴰ}
use native.Mathlib.Omega.{arith}
use bigfleet_web_dashboard.Prelude.Lists.{All, Ordered}
use bigfleet_web_dashboard.Prelude.Sort.{IsStrictWeak, sort_by, insert_by, sort_from}

module _ {ℓ κ} {A : Type ℓ} (R : A → A → Type κ) where
  All-permᴰ : (x : A) {ys zs : List A} → Permᴰ ys zs → All (R x) ys → All (R x) zs
  All-permᴰ x Permᴰ.nil h = tt
  All-permᴰ x (Permᴰ.cons e p) h = (rw (← e) h.0, All-permᴰ x p h.1)
  All-permᴰ x (Permᴰ.swap e f) h = rw (← e, ← f) (h.1.0, (h.0, h.1.1))
  All-permᴰ x (Permᴰ.trans p q) h = All-permᴰ x q (All-permᴰ x p h)

  Ordered-permᴰ :
      ((x y : A) → R x y → R y x) → {ys zs : List A} → Permᴰ ys zs → Ordered R ys → Ordered R zs
  Ordered-permᴰ symm Permᴰ.nil h = tt
  Ordered-permᴰ symm (Permᴰ.cons {b = b} e p) h =
      (All-permᴰ b p (rw (← e) h.0), Ordered-permᴰ symm p h.1)
  Ordered-permᴰ symm (Permᴰ.swap {a = a} {b = b} {b' = b'} {l = l} e f) h =
      let swapped : Ordered R (b ∷ a ∷ l) = ((symm a b h.0.0, h.1.0), (h.0.1, h.1.1)) in
      subst (λ z. Ordered R (z ∷ b' ∷ l)) f (subst (λ z. Ordered R (b ∷ z ∷ l)) e swapped)
  Ordered-permᴰ symm (Permᴰ.trans p q) h = Ordered-permᴰ symm q (Ordered-permᴰ symm p h)

module _ {ℓ} {A : Type ℓ} (before : A → A → Bool) (weak : IsStrictWeak before) where
  -- One of the two comes before the other.
  abbrev pub NoTie : A → A → Type 0
  NoTie x y = (before x y ≡ true) ⊎ (before y x ≡ true)

  insert_by_comm :
      (x y : A) (zs : List A)
      → NoTie x y
      → insert_by before x (insert_by before y zs) ≡ insert_by before y (insert_by before x zs)
  unfolding insert_by
  insert_by_comm x y [] h = ground (arith, weak.asym x y, weak.asym y x)
  insert_by_comm x y (z ∷ zs) h = ground (
    arith,
    weak.asym x y,
    weak.asym y x,
    weak.asym x z,
    weak.asym y z,
    weak.cotrans x y z,
    weak.cotrans y x z,
    insert_by_comm x y zs,
  )

  NoTie-symm : (x y : A) → NoTie x y → NoTie y x
  NoTie-symm x y (inl h) = inr h
  NoTie-symm x y (inr h) = inl h

  sort_from-permᴰ :
      {xs ys : List A} (acc : List A)
      → Permᴰ xs ys
      → Ordered NoTie xs
      → sort_from before acc xs ≡ sort_from before acc ys
  unfolding sort_from
  sort_from-permᴰ acc Permᴰ.nil h = refl
  sort_from-permᴰ acc (Permᴰ.cons {b = b} e p) h =
      rw e (sort_from-permᴰ (insert_by before b acc) p h.1)
  sort_from-permᴰ acc (Permᴰ.swap {a = a} {b = b} {l = l} e f) h =
      rw (← e, ← f) (ap (λ zs. sort_from before zs l) (sym (insert_by_comm a b acc h.0.0)))
  sort_from-permᴰ acc (Permᴰ.trans p q) h =
      sort_from-permᴰ acc p h ∙ sort_from-permᴰ acc q (Ordered-permᴰ NoTie NoTie-symm p h)

  pub sort_by-permᴰ :
      {xs ys : List A} → Permᴰ xs ys → Ordered NoTie xs → sort_by before xs ≡ sort_by before ys
  unfolding sort_by
  sort_by-permᴰ p h = sort_from-permᴰ [] p h
