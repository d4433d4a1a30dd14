-- ===== src/Prelude/Buckets.antt =====
-- Maps from a text to a list, filled by `(m.get(k) ?? []).push(x)`: no item is lost and none added.
use mathlib.Core.Path.{◌≡◌, refl, sym, subst}
use mathlib.Core.Bool.{false}
use mathlib.Core.Logic.{inl, inr, ∥∥₁_elim}
use mathlib.Core.List.{
  List, [], ◌∷◌, ◌++◌, Perm, Permᴰ, Perm-prop, append_assoc, perm_middle, perm_append_comm,
}
use mathlib.Core.List.Perm
use native.Mathlib.Omega.{arith}
use Prim.Native.String.{String}
use bigfleet_web_dashboard.Prelude.Tests.{or_else, str_eq, Bool-cases}
use bigfleet_web_dashboard.Prelude.Dict.{Dict, get, set}

module _ {ℓ} {A : Type ℓ} where
  -- The items of all buckets.
  abbrev pub members : Dict (List A) → List A
  members [] = []
  members ((fp, g) ∷ es) = g ++ members es

  pub members-append : (es fs : Dict (List A)) → members (es ++ fs) ≡ members es ++ members fs
  members-append [] fs = refl
  members-append ((fp, g) ∷ es) fs =
      rw (members-append es fs) (sym (append_assoc g (members es) (members fs)))

  swap_front : (xs ys zs : List A) → Perm (xs ++ (ys ++ zs)) (ys ++ (xs ++ zs))
  swap_front xs ys zs =
      rw (← append_assoc, ← append_assoc) (Perm.append_right zs (perm_append_comm xs ys))

  members-permᴰ : {es fs : Dict (List A)} → Permᴰ es fs → Perm (members es) (members fs)
  members-permᴰ Permᴰ.nil = Perm.rfl
  members-permᴰ (Permᴰ.cons {b = b} e p) = rw e (Perm.append_left b.1 (members-permᴰ p))
  members-permᴰ (Permᴰ.swap {a' = a'} {b' = b'} {l = l} e f) =
      rw (e, f) (swap_front b'.1 a'.1 (members l))
  members-permᴰ (Permᴰ.trans p q) = Perm.trans (members-permᴰ p) (members-permᴰ q)

  pub members-perm : {es fs : Dict (List A)} → Perm es fs → Perm (members es) (members fs)
  members-perm p = ∥∥₁_elim p Perm-prop members-permᴰ

  pub push_other :
      (k j : String) (n : A) (g : List A) (m : Dict (List A))
      → str_eq j k ≡ false
      → set k (or_else (get k ((j, g) ∷ m)) [] ++ n ∷ []) ((j, g) ∷ m)
        ≡ (j, g) ∷ set k (or_else (get k m) [] ++ n ∷ []) m
  push_other k j n g m e = ground arith

  -- Adding an item to its bucket adds it to the members.
  pub members-push :
      (k : String) (n : A) (m : Dict (List A))
      → Perm (members (set k (or_else (get k m) [] ++ n ∷ []) m)) (n ∷ members m)
  members-push k n [] = Perm.rfl
  members-push k n ((j, g) ∷ m) = elim (Bool-cases (str_eq j k)) [
    | inl e ↦ rw e (rw append_assoc (perm_middle g (members m)))
    | inr e ↦
        subst (λ l. Perm (members l) (n ∷ (g ++ members m))) (sym (push_other k j n g m e))
          (Perm.trans (Perm.append_left g (members-push k n m)) (perm_middle g (members m)))
  ]
