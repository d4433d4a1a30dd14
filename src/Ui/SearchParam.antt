-- ===== src/Ui/SearchParam.antt =====
-- ui/src/lib/useSearchParamState.ts: one query parameter of the URL bound to a text. The
-- parameters of a URL are a list, in which a key may stand more than once: `get` reads the first,
-- `set` writes it and drops the others, `delete` drops all.
use bigfleet_web_dashboard.Prelude.{
  ◌≡◌, refl, false, not, ◌&&◌, String, arith, if◌then◌else◌, or_else, truthy, str_eq, str_eq_iff,
  [], ◌∷◌, none, some,
}
use bigfleet_web_dashboard.Prelude.Dict.{Dict, get, delete, get-delete}

-- `next.set(key, v)`
abbrev pub set_param : String → String → Dict String → Dict String
set_param k v [] = (k, v) ∷ []
set_param k v ((j, w) ∷ m) = if str_eq j k then (k, v) ∷ delete k m else (j, w) ∷ set_param k v m

-- `params.get(key) ?? fallback`
unfoldable pub value : String → String → Dict String → String
value key fallback params = or_else (get key params) fallback

unfoldable pub set_value : String → String → String → Dict String → Dict String
set_value key fallback v params =
    if truthy v && not (str_eq v fallback) then set_param key v params else delete key params

get-set_param :
    (k j v : String) (m : Dict String)
    → get j (set_param k v m) ≡ (if str_eq k j then some v else get j m)
get-set_param k j v [] = refl
get-set_param k j v ((i, w) ∷ m) =
    ground (
      arith,
      str_eq_iff k j,
      str_eq_iff i k,
      str_eq_iff i j,
      get-set_param k j v m,
      get-delete k j m,
    )

-- What is read after a write: the written text, or the fallback if that text is empty; every other
-- parameter of the URL is as before.
pub value-set_value :
    (key fallback v : String) (params : Dict String)
    → (value key fallback (set_value key fallback v params) ≡ (if truthy v then v else fallback))
      × ((j other : String)
          → str_eq key j ≡ false
          → value j other (set_value key fallback v params) ≡ value j other params)
unfolding value set_value
value-set_value key fallback v params = (
  ground (
    arith,
    str_eq_iff key key,
    str_eq_iff v fallback,
    get-set_param key key v params,
    get-delete key key params,
  ),
  λ j other ne. ground (arith, get-set_param key j v params, get-delete key j params),
)

-- The parameter stands in the URL after a write exactly when the text is neither empty nor the
-- fallback.
pub get-set_value :
    (key fallback v : String) (params : Dict String)
    → get key (set_value key fallback v params)
      ≡ (if truthy v && not (str_eq v fallback) then some v else none)
unfolding set_value
get-set_value key fallback v params =
    ground (arith, str_eq_iff key key, get-set_param key key v params, get-delete key key params)

pub get-set_value_other :
    (key fallback v j : String) (params : Dict String)
    → str_eq key j ≡ false
    → get j (set_value key fallback v params) ≡ get j params
unfolding set_value
get-set_value_other key fallback v j params ne =
    ground (arith, get-set_param key j v params, get-delete key j params)
