-- ===== src/Needs/Walk.antt =====
-- ui/src/pages/Needs.tsx: `WalkItem` and `buildWalk`, the flat list of headers, cut-lines and rows
-- that the needs table draws.
pub mod Groups
pub mod Rows
pub mod Whole
pub mod Alone
pub mod Leaders
pub mod Shape
pub mod Cut
pub mod Keys
pub mod Ties
use bigfleet_web_dashboard.Prelude.{
  ℕ, ◌+◌, ◌-◌, Bool, false, not, ◌&&◌, ◌||◌, Option, none, some, List, [], ◌∷◌, ◌++◌, String,
  if◌then◌else◌, ltb, leb, ◌==◌, ◌<>◌, or_else, truthy, filter, any, find?, length, is_some,
}
use bigfleet_web_dashboard.Prelude.Dict.{Dict, get, set, keys, has}
use bigfleet_web_dashboard.Prelude.Show.{show, show_ℤ}
use bigfleet_web_dashboard.Prelude.Sort.{sort_by}
use bigfleet_web_dashboard.Api.Demand.{NeedView, MatchingSupply}
use bigfleet_web_dashboard.Needs.Precedence.{precedes}

pub data WalkItem : Type 0 where
  header :
      (key fingerprint : String) (count : ℕ) (contested : Bool) (supply : Option MatchingSupply)
      → WalkItem
  cutline : (key : String) (below : ℕ) → WalkItem
  row : (key : String) (need : NeedView) → WalkItem

abbrev pub Group : Type 0
Group = String × List NeedView

-- The state of the grouping loop: `groups` and `flat`.
abbrev pub Grouping : Type 0
Grouping = Dict (List NeedView) × List NeedView

abbrev pub fingerprint : NeedView → String
fingerprint n = or_else n.profile_fingerprint ""

-- One round of `for (const n of sorted)`.
unfoldable pub place : Bool → NeedView → Grouping → Grouping
place show_cluster n (groups, flat) =
    if not (truthy (fingerprint n)) || show_cluster
    then (groups, flat ++ n ∷ [])
    else (set (fingerprint n) (or_else (get (fingerprint n) groups) [] ++ n ∷ []) groups, flat)

unfoldable pub group_all : Bool → List NeedView → Grouping → Grouping
group_all show_cluster [] st = st
group_all show_cluster (n ∷ ns) st = group_all show_cluster ns (place show_cluster n st)

-- `g.length >= 2`
abbrev pub is_cohort : Group → Bool
is_cohort e = leb 2 (length e.1)

-- `for (const [fp, g] of groups) if (!cohortKeys.has(fp)) flat.push(...g)`
unfoldable pub push_singles : List String → Dict (List NeedView) → List NeedView → List NeedView
push_singles cohort_keys [] flat = flat
push_singles cohort_keys ((fp, g) ∷ groups) flat =
    push_singles cohort_keys groups (if has fp cohort_keys then flat else flat ++ g)

-- `precedes(a[0]!, b[0]!)`; no group is empty.
abbrev pub leads : Group → Group → Bool
leads (fp, a ∷ as') (gp, b ∷ bs) = precedes a b
leads _ _ = false

-- `g[i]` claimed machines, and `g[i + 1]` is unmet and claimed none.
abbrev pub is_cut : NeedView → NeedView → Bool
is_cut a b = ltb 0 a.claimed_machine_count && not b.satisfied && b.claimed_machine_count == 0

-- The loop over `i` with its `break`; `none` stands for -1.
unfoldable pub find_cut : ℕ → List NeedView → Option ℕ
find_cut i [] = none
find_cut i (a ∷ []) = none
find_cut i (a ∷ (b ∷ g)) = if is_cut a b then some i else find_cut (i + 1) (b ∷ g)

abbrev pub is_at : Option ℕ → ℕ → Bool
is_at none i = false
is_at (some c) i = i == c

-- The `g.forEach`: `total` is `g.length`.
unfoldable pub cohort_rows : String → ℕ → Option ℕ → ℕ → List NeedView → List WalkItem
cohort_rows fp total cut i [] = []
cohort_rows fp total cut i (n ∷ g) =
    let rest = cohort_rows fp total cut (i + 1) g in
    row ("r:" <> fp <> ":" <> show i) n
    ∷ (if is_at cut i then cutline ("c:" <> fp) (total - i - 1) ∷ rest else rest)

abbrev pub contested : List NeedView → Bool
contested g = any (λ m. not m.satisfied) g

-- `g.find((m) => m.matchingSupply)?.matchingSupply`
abbrev pub pool : List NeedView → Option MatchingSupply
pool g = elim (find? (λ (m : NeedView). is_some m.matching_supply) g) [
  | none ↦ none
  | some m ↦ m.matching_supply
]

unfoldable pub cohort_items : Group → List WalkItem
cohort_items (fp, g) =
    header ("h:" <> fp) fp (length g) (contested g) (pool g)
    ∷ cohort_rows fp (length g) (find_cut 0 g) 0 g

unfoldable pub all_cohort_items : List Group → List WalkItem
all_cohort_items [] = []
all_cohort_items (e ∷ es) = cohort_items e ++ all_cohort_items es

unfoldable pub flat_rows : ℕ → List NeedView → List WalkItem
flat_rows i [] = []
flat_rows i (n ∷ ns) =
    row ("f:" <> show i <> ":" <> n.cluster_id <> ":" <> show_ℤ n.priority) n ∷ flat_rows (i + 1) ns

-- The groups of `rows`, and what falls outside of them.
unfoldable pub grouping : List NeedView → Bool → Grouping
grouping rows show_cluster = group_all show_cluster (sort_by precedes rows) ([], [])

unfoldable pub cohorts : Dict (List NeedView) → List Group
cohorts groups = filter is_cohort groups

unfoldable pub flat_tail : Grouping → List NeedView
flat_tail (groups, flat) = sort_by precedes (push_singles (keys (cohorts groups)) groups flat)

-- The walk over a grouping.
abbrev pub walk_of : Grouping → List WalkItem
walk_of st = all_cohort_items (sort_by leads (cohorts st.0)) ++ flat_rows 0 (flat_tail st)

unfoldable pub build_walk : List NeedView → Bool → List WalkItem
build_walk rows show_cluster = walk_of (grouping rows show_cluster)
