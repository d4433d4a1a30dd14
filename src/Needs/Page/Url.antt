-- ===== src/Needs/Page/Url.antt =====
-- The URL of the needs page over everything that can happen to it: actions of the user, and the
-- effects, whose data the queries choose.
use bigfleet_web_dashboard.Prelude.{
  ◌≡◌, refl, sym, ◌∙◌, ◌≢◌, ◌⊎◌, Bool, true, false, not, ◌&&◌, ◌||◌, none, some, List, [], ◌∷◌,
  String, arith, if◌then◌else◌, truthy, str_eq, str_eq_iff, head?, Option-cases, Bool-cases, inl,
  inr,
}
use bigfleet_web_dashboard.Prelude.Dict.{Dict, get}
use bigfleet_web_dashboard.Api.Demand.{NeedView}
use bigfleet_web_dashboard.Ui.SearchParam.{set_value, get-set_value, get-set_value_other}
use bigfleet_web_dashboard.Needs.Page.{
  State, Action, set_shard, set_cluster, set_status, pick_reason, select, close, act, settle_shard,
  settle_cluster, clusters, shard, cluster,
}

-- A step of the page.
pub data Step (locale_before : String → String → Bool) : State → State → Type 0 where
  user : (a : Action) (s : State) → Step locale_before s (act a s)
  fill_shard : (ids : List String) (s : State) → Step locale_before s (settle_shard ids s)
  fill_cluster :
      (needs : List NeedView) (s : State)
      → Step locale_before s (settle_cluster locale_before needs s)

pub data Reach (locale_before : String → String → Bool) (s : State) : State → Type 0 where
  here : Reach locale_before s s
  next : {t u : State} → Reach locale_before s t → Step locale_before t u → Reach locale_before s u

-- The page's own parameters are in the URL only where they say something.
pub record IsTidy (params : Dict String) : Type 0 where
  pub shard_said : get "shard" params ≢ some ""
  pub cluster_said : get "cluster" params ≢ some ""
  pub status_said : get "status" params ≢ some ""
  pub status_not_default : get "status" params ≢ some "all"

abbrev pub is_own : String → Bool
is_own j = str_eq "shard" j || str_eq "cluster" j || str_eq "status" j

-- What a step keeps: tidiness, and every parameter that is not the page's own.
record IsKept (old new : Dict String) : Type 0 where
  tidy : IsTidy old → IsTidy new
  others : (j : String) → is_own j ≡ false → get j new ≡ get j old

some_inj : {a b : String} → some a ≡ some b → a ≡ b
some_inj h = cc h

-- A value that a write leaves in the URL is neither empty nor the fallback.
own_parts : (a b c : Bool) → (a || b || c) ≡ false → (a ≡ false) × (b ≡ false) × (c ≡ false)
own_parts a b c h = ground arith

not_own :
    (j : String)
    → is_own j ≡ false
    → (str_eq "shard" j ≡ false) × (str_eq "cluster" j ≡ false) × (str_eq "status" j ≡ false)
not_own j h = own_parts (str_eq "shard" j) (str_eq "cluster" j) (str_eq "status" j) h

left_ne :
    (fallback v w : String)
    → (w ≡ "") ⊎ (w ≡ fallback)
    → (if truthy v && not (str_eq v fallback) then some v else none) ≢ some w
left_ne fallback String.[] w e h = cc h
left_ne fallback (String.◌∷◌ c s) w e h = elim (Bool-cases (str_eq (String.◌∷◌ c s) fallback)) [
  | inl q ↦ cc (rw q at h)
  | inr q ↦
      let same : String.◌∷◌ c s ≡ w = some_inj (rw q at h) in
      elim e [
        | inl k ↦ cc (same, k)
        | inr k ↦ cc (q, (str_eq_iff (String.◌∷◌ c s) fallback).1 (same ∙ k))
      ]
]

module _ (key fallback v : String) (m : Dict String) where
  written_ne :
      (w : String) → (w ≡ "") ⊎ (w ≡ fallback) → get key (set_value key fallback v m) ≢ some w
  written_ne w e h = left_ne fallback v w e (sym (get-set_value key fallback v m) ∙ h)

  away_ne :
      (j w : String)
      → str_eq key j ≡ false
      → get j m ≢ some w
      → get j (set_value key fallback v m) ≢ some w
  away_ne j w ne h e = h (sym (get-set_value_other key fallback v j m ne) ∙ e)

shard-IsKept : (v : String) (m : Dict String) → IsKept m (set_value "shard" "" v m)
unfolding str_eq
shard-IsKept v m = record {
  tidy = λ t. record {
    shard_said = written_ne "shard" "" v m "" (inl refl);
    cluster_said = away_ne "shard" "" v m "cluster" "" refl t.cluster_said;
    status_said = away_ne "shard" "" v m "status" "" refl t.status_said;
    status_not_default = away_ne "shard" "" v m "status" "all" refl t.status_not_default;
  };
  others = λ j h. get-set_value_other "shard" "" v j m (not_own j h).0;
}

cluster-IsKept : (v : String) (m : Dict String) → IsKept m (set_value "cluster" "" v m)
unfolding str_eq
cluster-IsKept v m = record {
  tidy = λ t. record {
    shard_said = away_ne "cluster" "" v m "shard" "" refl t.shard_said;
    cluster_said = written_ne "cluster" "" v m "" (inl refl);
    status_said = away_ne "cluster" "" v m "status" "" refl t.status_said;
    status_not_default = away_ne "cluster" "" v m "status" "all" refl t.status_not_default;
  };
  others = λ j h. get-set_value_other "cluster" "" v j m (not_own j h).1;
}

status-IsKept : (v : String) (m : Dict String) → IsKept m (set_value "status" "all" v m)
unfolding str_eq
status-IsKept v m = record {
  tidy = λ t. record {
    shard_said = away_ne "status" "all" v m "shard" "" refl t.shard_said;
    cluster_said = away_ne "status" "all" v m "cluster" "" refl t.cluster_said;
    status_said = written_ne "status" "all" v m "" (inl refl);
    status_not_default = written_ne "status" "all" v m "all" (inr refl);
  };
  others = λ j h. get-set_value_other "status" "all" v j m (not_own j h).2;
}

same-IsKept : (m : Dict String) → IsKept m m
same-IsKept m = record { tidy = λ t. t; others = λ j h. refl }

act-IsKept : (a : Action) (s : State) → IsKept s.params (act a s).params
unfolding act
act-IsKept (set_shard v) s = shard-IsKept v s.params
act-IsKept (set_cluster v) s = cluster-IsKept v s.params
act-IsKept (set_status v) s = status-IsKept v s.params
act-IsKept (pick_reason r) s = same-IsKept s.params
act-IsKept (select n) s = same-IsKept s.params
act-IsKept close s = same-IsKept s.params

fill-IsKept :
    (b : Bool) (a : Action) (s : State) → IsKept s.params (if b then act a s else s).params
fill-IsKept true a s = act-IsKept a s
fill-IsKept false a s = same-IsKept s.params

settle_shard-IsKept : (ids : List String) (s : State) → IsKept s.params (settle_shard ids s).params
unfolding settle_shard
settle_shard-IsKept [] s = same-IsKept s.params
settle_shard-IsKept (id ∷ ids) s = fill-IsKept (not (truthy (shard s))) (set_shard id) s

module _ (locale_before : String → String → Bool) where
  settle_cluster-IsKept :
      (needs : List NeedView) (s : State)
      → IsKept s.params (settle_cluster locale_before needs s).params
  unfolding settle_cluster
  settle_cluster-IsKept needs s = elim (Option-cases (head? (clusters locale_before needs))) [
    | inl e ↦ rw (e, settle_cluster) (same-IsKept s.params)
    | inr (p, e) ↦
        rw (e, settle_cluster) (fill-IsKept (not (truthy (cluster s))) (set_cluster p.0) s)
  ]

  Step-IsKept : {s t : State} → Step locale_before s t → IsKept s.params t.params
  Step-IsKept (user a s) = act-IsKept a s
  Step-IsKept (fill_shard ids s) = settle_shard-IsKept ids s
  Step-IsKept (fill_cluster needs s) = settle_cluster-IsKept needs s

  -- Whatever the user does and whatever data the effects see, a tidy URL stays tidy: the page's own
  -- parameters are never left in it empty, nor the status at its default. Every other parameter
  -- keeps its value.
  pub Reach-IsTidy :
      {s t : State}
      → Reach locale_before s t
      → IsTidy s.params
      → IsTidy t.params × ((j : String) → is_own j ≡ false → get j t.params ≡ get j s.params)
  Reach-IsTidy here h = (h, λ j ne. refl)
  Reach-IsTidy (next r st) h =
      let k = Step-IsKept st in
      let (tidy, others) = Reach-IsTidy r h in (k.tidy tidy, λ j ne. k.others j ne ∙ others j ne)
