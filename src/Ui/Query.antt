-- ===== src/Ui/Query.antt =====
-- How a page shows a query: `useQuery` is a third-party hook, of whose result the pages read the
-- data, the error and whether it is loading; ui/src/lib/useConfig.ts is one such query.
use bigfleet_web_dashboard.Prelude.{
  ℕ, ◌+◌, ◌≡◌, refl, Bool, false, not, ◌&&◌, Option, none, some, String, if◌then◌else◌, is_some,
  arith,
}
use bigfleet_web_dashboard.Api.Fleet.{ClientConfig}

pub record Query (A : Type 0) : Type 0 where
  pub result : Option A
  pub error : Option String
  pub is_loading : Bool

-- `cfg.data?.prometheusWired ?? false`, and the others
abbrev pub wired : (ClientConfig → Bool) → Query ClientConfig → Bool
wired source cfg = elim cfg.result [ none ↦ false | some c ↦ source c ]

-- What FinOps, Topology, ClusterDetail and ShardDetail show.
pub record Gate (A : Type 0) : Type 0 where
  pub unwired : Bool
  pub error : Option String
  pub body : Option A
  pub loading : Bool

unfoldable pub gate : {A : Type 0} → Query ClientConfig → Bool → Query A → Gate A
gate cfg on q = record {
  unwired = not cfg.is_loading && not on;
  error = if on then q.error else none;
  body = if on && not (is_some q.error) then q.result else none;
  loading = on && not (is_some q.error) && not (is_some q.result);
}

abbrev pub one_if : Bool → ℕ
one_if b = if b then 1 else 0

-- With its source wired a page shows exactly one of the error, the body and the loading line, and
-- the body only of the query's own data; without, it shows none of them.
pub gate_lem :
    {A : Type 0} (cfg : Query ClientConfig) (on : Bool) (q : Query A)
    → (one_if (is_some (gate cfg on q).error)
          + one_if (is_some (gate cfg on q).body)
          + one_if (gate cfg on q).loading
        ≡ one_if on)
      × ((a : A) → (gate cfg on q).body ≡ some a → q.result ≡ some a)
      × ((gate cfg on q).unwired ≡ not cfg.is_loading && not on)
unfolding gate
gate_lem cfg on q = (ground arith, λ a h. ground arith, refl)
