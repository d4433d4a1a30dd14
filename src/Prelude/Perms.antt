-- ===== src/Prelude/Perms.antt =====
-- What a list has in whatever order it stands: its length, and how many items pass a test.
use Prim.Native.Nat.{◌+◌}
use mathlib.Core.Path.{◌≡◌, refl, ap, ◌∙◌}
use mathlib.Core.Bool.{Bool}
use mathlib.Core.Logic.{∥∥₁_elim}
use mathlib.Core.List.{List, Perm, Permᴰ}
use native.Mathlib.Nat.{ℕ_set}
use native.Mathlib.Omega.{arith}
use bigfleet_web_dashboard.Prelude.Tests.{if◌then◌else◌}
use bigfleet_web_dashboard.Prelude.Lists.{length, count}

module _ {ℓ} {A : Type ℓ} where
  count-permᴰ : (p : A → Bool) {xs ys : List A} → Permᴰ xs ys → count p xs ≡ count p ys
  count-permᴰ p Permᴰ.nil = refl
  count-permᴰ p (Permᴰ.cons {b = b} e q) =
      rw e (ap (λ k. (if p b then 1 else 0) + k) (count-permᴰ p q))
  count-permᴰ p (Permᴰ.swap e f) = rw (e, f) (omega arith)
  count-permᴰ p (Permᴰ.trans q r) = count-permᴰ p q ∙ count-permᴰ p r

  pub count-perm : (p : A → Bool) {xs ys : List A} → Perm xs ys → count p xs ≡ count p ys
  count-perm p {xs} {ys} q = ∥∥₁_elim q (ℕ_set (count p xs) (count p ys)) (count-permᴰ p)

  length-permᴰ : {xs ys : List A} → Permᴰ xs ys → length xs ≡ length ys
  length-permᴰ Permᴰ.nil = refl
  length-permᴰ (Permᴰ.cons e q) = omega (arith, length-permᴰ q)
  length-permᴰ (Permᴰ.swap e f) = refl
  length-permᴰ (Permᴰ.trans q r) = length-permᴰ q ∙ length-permᴰ r

  pub length-perm : {xs ys : List A} → Perm xs ys → length xs ≡ length ys
  length-perm {xs} {ys} q = ∥∥₁_elim q (ℕ_set (length xs) (length ys)) length-permᴰ
