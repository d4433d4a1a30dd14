-- ===== src/Needs/Page/Tallies.antt =====
-- The tallies of the needs page: needs by cluster, and unmet needs by reason.
use bigfleet_web_dashboard.Prelude.{
  ℕ, ◌+◌, ◌≤◌, ◌≡◌, refl, ◌∙◌, Bool, not, ◌&&◌, Option, none, some, List, [], ◌∷◌, String, Perm,
  arith, if◌then◌else◌, ◌==◌, or_else, count, length, str_eq, str_eq_iff, Bool-cases, inl, inr,
}
use bigfleet_web_dashboard.Prelude.Dict.{Dict, get, set, values, get-set}
use bigfleet_web_dashboard.Prelude.Sort.{sort_by-perm}
use bigfleet_web_dashboard.Api.Demand.{NeedView}
use bigfleet_web_dashboard.Needs.Page.{
  Tally, State, bump, tally, clusters, cluster_before, summarize, summary, scoped,
}

abbrev pub of_cluster : String → NeedView → Bool
of_cluster k n = str_eq n.cluster_id k

abbrev pub unmet_of_cluster : String → NeedView → Bool
unmet_of_cluster k n = str_eq n.cluster_id k && not n.satisfied

abbrev pub unmet_for : String → NeedView → Bool
unmet_for r n = not n.satisfied && str_eq n.unmet_reason r

-- A tally with more needs added, and nothing where there is nothing to count.
abbrev add_tally : Option Tally → ℕ → ℕ → Option Tally
add_tally e total unmet =
    let old : Tally = or_else e (record { total = 0; unmet = 0 }) in
    if total == 0 then e else some (record { total = old.total + total; unmet = old.unmet + unmet })

unmet-le-total :
    (k : String) (ns : List NeedView) → count (unmet_of_cluster k) ns ≤ count (of_cluster k) ns
unmet-le-total k [] = omega arith
unmet-le-total k (n ∷ ns) = ground (arith, unmet-le-total k ns)

add_tally-bump :
    (n : NeedView) (e : Option Tally) (total unmet : ℕ)
    → unmet ≤ total
    → add_tally (some (bump n e)) total unmet
      ≡ add_tally e (1 + total) ((if not n.satisfied then 1 else 0) + unmet)
add_tally-bump n e total unmet h = ground arith

tally-get :
    (k : String) (ns : List NeedView) (m : Dict Tally)
    → get k (tally ns m)
      ≡ add_tally (get k m) (count (of_cluster k) ns) (count (unmet_of_cluster k) ns)
unfolding tally
tally-get k [] m = refl
tally-get k (n ∷ ns) m =
    tally-get k ns (set n.cluster_id (bump n (get n.cluster_id m)) m)
    ∙ elim (Bool-cases (str_eq n.cluster_id k)) [
      | inl e ↦
          rw
            (
              get-set n.cluster_id k (bump n (get n.cluster_id m)) m,
              e,
              (str_eq_iff n.cluster_id k).0 e,
            )
            (add_tally-bump n (get k m) _ _ (unmet-le-total k ns))
      | inr e ↦ rw (get-set n.cluster_id k (bump n (get n.cluster_id m)) m, e) (ground arith)
    ]

-- The clusters offered are the tallies, in some order: a cluster is there exactly when it has a
-- need, with the number of its needs and the number of those that are unmet.
pub clusters_lem :
    (locale_before : String → String → Bool) (needs : List NeedView)
    → Perm (clusters locale_before needs) (tally needs [])
      × ((k : String)
          → get k (tally needs []) ≡ (
              if count (of_cluster k) needs == 0
              then none
              else some (record {
                total = count (of_cluster k) needs;
                unmet = count (unmet_of_cluster k) needs;
              })))
unfolding clusters
clusters_lem locale_before needs = (
  sort_by-perm (cluster_before locale_before) (tally needs []),
  λ k. tally-get k needs [] ∙ ground arith,
)

pub sum : List ℕ → ℕ
sum [] = 0
sum (x ∷ xs) = x + sum xs

sum-set :
    (k : String) (m : Dict ℕ)
    → sum (values (set k (or_else (get k m) 0 + 1) m)) ≡ sum (values m) + 1
unfolding sum
sum-set k [] = refl
sum-set k ((j, v) ∷ m) = ground (arith, sum-set k m)

summarize_total :
    (ns : List NeedView) (st : ℕ × Dict ℕ)
    → (summarize ns st).0 + sum (values (summarize ns st).1) ≡ st.0 + sum (values st.1) + length ns
unfolding summarize
summarize_total [] st = omega arith
summarize_total (n ∷ ns) (done, m) = ground (
  arith,
  summarize_total ns (done + 1, m),
  summarize_total ns (done, set n.unmet_reason (or_else (get n.unmet_reason m) 0 + 1) m),
  sum-set n.unmet_reason m,
)

summarize-get :
    (r : String) (ns : List NeedView) (st : ℕ × Dict ℕ)
    → or_else (get r (summarize ns st).1) 0 ≡ or_else (get r st.1) 0 + count (unmet_for r) ns
unfolding summarize
summarize-get r [] st = omega arith
summarize-get r (n ∷ ns) (done, m) = ground (
  arith,
  summarize-get r ns (done + 1, m),
  summarize-get r ns (done, set n.unmet_reason (or_else (get n.unmet_reason m) 0 + 1) m),
  get-set n.unmet_reason r (or_else (get n.unmet_reason m) 0 + 1) m,
  str_eq_iff n.unmet_reason r,
)

summarize-satisfied :
    (ns : List NeedView) (st : ℕ × Dict ℕ)
    → (summarize ns st).0 ≡ st.0 + count (λ n. n.satisfied) ns
unfolding summarize
summarize-satisfied [] st = omega arith
summarize-satisfied (n ∷ ns) (done, m) = ground (
  arith,
  summarize-satisfied ns (done + 1, m),
  summarize-satisfied ns (done, set n.unmet_reason (or_else (get n.unmet_reason m) 0 + 1) m),
)

-- The summary counts the satisfied needs in scope and, under each reason, the unmet needs with it;
-- its numbers together add up to the needs in scope.
pub summary_lem :
    (s : State) (needs : List NeedView)
    → ((summary s needs).0 ≡ count (λ n. n.satisfied) (scoped s needs))
      × ((summary s needs).0 + sum (values (summary s needs).1) ≡ length (scoped s needs))
      × ((r : String)
          → or_else (get r (summary s needs).1) 0 ≡ count (unmet_for r) (scoped s needs))
unfolding summary sum
summary_lem s needs = (
  omega (arith, summarize-satisfied (scoped s needs) (0, [])),
  omega (arith, summarize_total (scoped s needs) (0, [])),
  λ r. omega (arith, summarize-get r (scoped s needs) (0, [])),
)
