-- ===== src/Prelude/Dict.antt =====
-- `Record<string, V>` and `Map<string, V>`: the entries in the order in which the engine lists
-- them. A `Map` keeps the order of first insertion, and writing to a key that is there keeps its
-- place. The entries of a record are in the order of `Object.entries`, and its own keys alone are
-- found: what an object inherits from its prototype is not on the wire.
use Prim.Native.String.{String}
use mathlib.Core.Path.{◌≡◌, refl, ◌∙◌}
use mathlib.Core.Bool.{Bool, true, false}
use mathlib.Core.List.{List, [], ◌∷◌}
use mathlib.Core.Option.{Option, none, some}
use native.Mathlib.Omega.{arith}
use mathlib.Core.Logic.{inl, inr}
use bigfleet_web_dashboard.Prelude.Tests.{if◌then◌else◌, str_eq, str_eq_iff, Bool-cases}
use bigfleet_web_dashboard.Prelude.Lists.{filter, All, All-imp₂}

abbrev pub Dict {ℓ} : Type ℓ → Type ℓ
Dict V = List (String × V)

module _ {ℓ} {V : Type ℓ} where
  -- `m.get(k)`, `m[k]`
  abbrev pub get : String → Dict V → Option V
  get k [] = none
  get k ((j, v) ∷ m) = if str_eq j k then some v else get k m

  -- `m.set(k, v)`
  abbrev pub set : String → V → Dict V → Dict V
  set k v [] = (k, v) ∷ []
  set k v ((j, w) ∷ m) = if str_eq j k then (k, v) ∷ m else (j, w) ∷ set k v m

  -- `params.delete(k)`
  abbrev pub delete : String → Dict V → Dict V
  delete k [] = []
  delete k ((j, w) ∷ m) = if str_eq j k then delete k m else (j, w) ∷ delete k m

  -- `Object.keys(m)`
  abbrev pub keys : Dict V → List String
  keys [] = []
  keys ((j, v) ∷ m) = j ∷ keys m

  -- `Object.values(m)`
  abbrev pub values : Dict V → List V
  values [] = []
  values ((j, v) ∷ m) = v ∷ values m

  pub get-set :
      (k j : String) (v : V) (m : Dict V)
      → get j (set k v m) ≡ (if str_eq k j then some v else get j m)
  get-set k j v [] = refl
  get-set k j v ((i, w) ∷ m) =
      ground (arith, str_eq_iff k j, str_eq_iff i k, str_eq_iff i j, get-set k j v m)

  pub get-delete :
      (k j : String) (m : Dict V) → get j (delete k m) ≡ (if str_eq k j then none else get j m)
  get-delete k j [] = ground arith
  get-delete k j ((i, w) ∷ m) =
      ground (arith, str_eq_iff k j, str_eq_iff i k, str_eq_iff i j, get-delete k j m)

-- `new Set(keys).has(k)`
abbrev pub has : String → List String → Bool
has k [] = false
has k (j ∷ js) = if str_eq j k then true else has k js

-- No key is listed twice.
abbrev pub Distinct : List String → Type 0
Distinct [] = Unit
Distinct (k ∷ ks) = (has k ks ≡ false) × Distinct ks

module _ {ℓ} {V : Type ℓ} where
  pub has-keys-set :
      (j k : String) (v : V) (m : Dict V)
      → has j (keys (set k v m)) ≡ (if str_eq k j then true else has j (keys m))
  has-keys-set j k v [] = refl
  has-keys-set j k v ((i, w) ∷ m) =
      ground (arith, str_eq_iff k j, str_eq_iff i k, str_eq_iff i j, has-keys-set j k v m)

  pub set-Distinct :
      (k : String) (v : V) (m : Dict V) → Distinct (keys m) → Distinct (keys (set k v m))
  set-Distinct k v [] h = (refl, tt)
  set-Distinct k v ((i, w) ∷ m) h = elim (Bool-cases (str_eq i k)) [
    | inl e ↦ rw e (rw ((str_eq_iff i k).0 e) at h)
    | inr e ↦ rw e (
      ground (arith, has-keys-set i k v m, str_eq_iff i k, str_eq_iff k i, h.0),
      set-Distinct k v m h.1,
    )
  ]

  -- A key that is not there differs from every key that is.
  pub All-ne_of_has :
      (k : String) (m : Dict V)
      → has k (keys m) ≡ false
      → All (λ (e : String × V). str_eq e.0 k ≡ false) m
  All-ne_of_has k [] h = tt
  All-ne_of_has k ((i, w) ∷ m) h = elim (Bool-cases (str_eq i k)) [
    | inl e ↦ absurd (ground arith)
    | inr e ↦ (e, All-ne_of_has k m (ground arith))
  ]

  has-keys-filter :
      (p : String × V → Bool) (k : String) (m : Dict V)
      → has k (keys m) ≡ false
      → has k (keys (filter p m)) ≡ false
  has-keys-filter p k [] h = refl
  has-keys-filter p k ((i, w) ∷ m) h = ground (arith, has-keys-filter p k m)

  has-keys-filter_skip :
      (p : String × V → Bool) (i j : String) (w : V) (m : Dict V)
      → str_eq j i ≡ false
      → has j (keys (filter p ((i, w) ∷ m))) ≡ has j (keys (filter p m))
  has-keys-filter_skip p i j w m h = ground (arith, str_eq_iff i j, str_eq_iff j i)

  -- Where no key is listed twice, the keys of the entries that pass a test tell them apart.
  pub has-keys-filter_iff :
      (p : String × V → Bool) (m : Dict V)
      → Distinct (keys m)
      → All (λ e. has e.0 (keys (filter p m)) ≡ p e) m
  has-keys-filter_iff p [] h = tt
  has-keys-filter_iff p ((i, w) ∷ m) h = (
    ground (arith, str_eq_iff i i, has-keys-filter p i m h.0),
    All-imp₂ m (λ (j, v) ne ih. has-keys-filter_skip p i j w m ne ∙ ih) (All-ne_of_has i m h.0)
        (has-keys-filter_iff p m h.1),
  )

  get-cons_skip :
      (i j : String) (w : V) (m : Dict V) (v : V)
      → str_eq j i ≡ false
      → get j m ≡ some v
      → get j ((i, w) ∷ m) ≡ some v
  get-cons_skip i j w m v h e = ground (arith, str_eq_iff i j, str_eq_iff j i)

  -- Where no key is listed twice, a lookup finds every entry.
  pub get-entry : (m : Dict V) → Distinct (keys m) → All (λ e. get e.0 m ≡ some e.1) m
  get-entry [] h = tt
  get-entry ((i, w) ∷ m) h = (
    ground (arith, str_eq_iff i i),
    All-imp₂ m (λ (j, v). get-cons_skip i j w m v) (All-ne_of_has i m h.0) (get-entry m h.1),
  )
