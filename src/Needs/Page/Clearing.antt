-- ===== src/Needs/Page/Clearing.antt =====
-- How the filters of the needs page are cleared by the actions that it offers.
use mathlib.Core.List.{Mem}
use mathlib.Core.Path.{subst}
use bigfleet_web_dashboard.Prelude.{
  ℕ, suc, ◌≤◌, ◌<◌, ◌≡◌, refl, sym, ap, ◌∙◌, Bool, true, false, not, ◌||◌, Option, none, some, List,
  [], ◌∷◌, map, String, arith, length, count, All, str_eq, str_eq_iff, truthy, truthy?, or_else,
  is_some, Bool-cases, inl, inr,
}
use bigfleet_web_dashboard.Prelude.Dict.{Dict, get, has, keys}
use bigfleet_web_dashboard.Api.Demand.{NeedView}
use bigfleet_web_dashboard.Needs.Page.{
  State, all, Action, set_cluster, set_status, pick_reason, select, close, act, toggle, cluster,
  shard, status, status_filter, all_clusters, rows, scoped, by_status, by_reason, summary,
}
use bigfleet_web_dashboard.Needs.Page.Runs.{choose, choice_of-act, run}
use bigfleet_web_dashboard.Needs.Page.Tallies.{unmet_for, summary_lem}
use bigfleet_web_dashboard.Needs.Page.Offers.{IsOffered, Allowed}
use bigfleet_web_dashboard.Needs.Page.Stuck.{has_unmet, stuck}

-- No reason that filters is picked, or there is an unmet need, and so a pill to take it back by.
abbrev pub can_clear : State → List NeedView → Bool
can_clear s needs = not (truthy? s.reason_filter) || has_unmet needs

-- Actions with one answer throughout.
abbrev pub over : List NeedView → List Action → List (List NeedView × Action)
over needs actions = map (λ a. (needs, a)) actions

has-keys : (k : String) (m : Dict ℕ) → 0 < or_else (get k m) 0 → has k (keys m) ≡ true
has-keys k [] h = absurd (omega arith)
has-keys k ((j, v) ∷ m) h = ground (arith, has-keys k m)

an_unmet :
    (needs : List NeedView)
    → has_unmet needs ≡ true
    → (u : String) × (0 < count (unmet_for u) needs)
an_unmet [] h = absurd (ground arith)
an_unmet (n ∷ ns) h = elim (Bool-cases n.satisfied) [
  | inl e ↦ let (u, more) = an_unmet ns (ground arith) in (u, omega arith)
  | inr e ↦ (n.unmet_reason, ground (arith, str_eq_iff n.unmet_reason n.unmet_reason))
]

by_reason_off : (o : Option String) (r : List NeedView) → truthy? o ≡ false → by_reason o r ≡ r
by_reason_off none r h = refl
by_reason_off (some t) r h = rw h refl

scoped_all : (t : State) (needs : List NeedView) → cluster t ≡ all_clusters → scoped t needs ≡ needs
unfolding scoped str_eq
scoped_all t needs h = rw h refl

rows_cleared :
    (t : State) (needs : List NeedView)
    → cluster t ≡ all_clusters
    → status t ≡ all
    → truthy? t.reason_filter ≡ false
    → rows t needs ≡ needs
unfolding rows
rows_cleared t needs h k l =
    by_reason_off t.reason_filter (by_status (status t) (scoped t needs)) l
    ∙ ap (λ st. by_status st (scoped t needs)) k
    ∙ scoped_all t needs h

module _ (locale_before : String → String → Bool) (shard_ids : List String)
    (needs : List NeedView) where
  abbrev IsOffer : State → Action → Type 0
  IsOffer = IsOffered locale_before shard_ids needs

  -- At most `k` actions list all the needs and open the report of `n`, and
  -- keep the shard.
  abbrev pub Lists : State → NeedView → ℕ → Type 0
  Lists s n k =
      (actions : List Action) × Allowed locale_before shard_ids s (over needs actions)
      × (length actions ≤ k)
      × (rows (run actions s) needs ≡ needs)
      × ((run actions s).selected ≡ some n)
      × (shard (run actions s) ≡ shard s)

  module _ (n : NeedView) (here : Mem n needs) where
    first_do :
        (a : Action) (t : State) (k : ℕ)
        → IsOffer t a
        → shard (act a t) ≡ shard t
        → Lists (act a t) n k
        → Lists t n (suc k)
    unfolding run
    first_do a t k o e (actions, allowed, few, listed, opened, same) =
        (a ∷ actions, (o, allowed), omega arith, listed, opened, same ∙ e)

    at_most : (t : State) (j k : ℕ) → j ≤ k → Lists t n j → Lists t n k
    at_most t j k h (actions, allowed, few, listed, opened, same) =
        (actions, allowed, omega arith, listed, opened, same)

    open_it :
        (t : State)
        → cluster t ≡ all_clusters
        → status t ≡ all
        → truthy? t.reason_filter ≡ false
        → Lists t n 1
    unfolding run act rows scoped
    open_it t h k l =
        let every = rows_cleared t needs h k l in
        (
          select n ∷ [],
          (subst (λ ns. Mem n ns) (sym every) here, tt),
          omega arith,
          every,
          refl,
          refl,
        )

    -- The pill of a reason that some need is unmet for.
    pill_offered :
        (t : State) (u : String)
        → cluster t ≡ all_clusters
        → 0 < count (unmet_for u) needs
        → IsOffer t (pick_reason u)
    pill_offered t u h more = has-keys u (summary t needs).1 (
        subst (λ (k : ℕ). 0 < k)
          (sym ((summary_lem t needs).2 u ∙ ap (count (unmet_for u)) (scoped_all t needs h))) more)

    toggle_self : (u : String) → toggle u (some u) ≡ none
    toggle_self u = rw ((str_eq_iff u u).1 refl) refl

    -- The reason that is picked is taken back by its own pill or, by way of it, by another.
    unpick :
        (t : State) (r : Option String)
        → t.reason_filter ≡ r
        → cluster t ≡ all_clusters
        → status t ≡ all
        → can_clear t needs ≡ true
        → Lists t n 3
    unfolding act
    unpick t none p h k c = at_most t 1 3 (omega arith) (open_it t h k (ap truthy? p))
    unpick t (some r) p h k c = elim (Bool-cases (truthy r)) [
      | inr plain ↦ at_most t 1 3 (omega arith) (open_it t h k (ap truthy? p ∙ plain))
      | inl named ↦
          let unmet_there : has_unmet needs ≡ true =
            ap (λ b. not b || has_unmet needs) (sym (ap truthy? p ∙ named)) ∙ c in
          let (u, more) = an_unmet needs unmet_there in
          let t' = act (pick_reason u) t in
          let pill = pill_offered t u h more in
          elim (Bool-cases (str_eq r u)) [
            | inl same ↦ at_most t 2 3 (omega arith) (
                first_do (pick_reason u) t 1 pill refl
                  (open_it t' h k (ap (λ o. truthy? (toggle u o)) p ∙ rw same refl)))
            | inr other ↦ first_do (pick_reason u) t 2 pill refl (
                first_do (pick_reason u) t' 1 (pill_offered t' u h more) refl (
                  open_it (act (pick_reason u) t') h k (
                    ap (λ o. truthy? (toggle u (toggle u o))) p
                    ∙ rw other (ap truthy? (toggle_self u)))))
          ]
    ]

    set_all :
        (s : State)
        → (cluster (act (set_status "all") (act (set_cluster all_clusters) s)) ≡ all_clusters)
          × (status (act (set_status "all") (act (set_cluster all_clusters) s)) ≡ all)
          × (shard (act (set_status "all") (act (set_cluster all_clusters) s))
              ≡ shard (act (set_cluster all_clusters) s))
          × (shard (act (set_cluster all_clusters) s) ≡ shard s)
    unfolding choose status_filter str_eq
    set_all s =
        let one = choice_of-act (set_cluster all_clusters) s in
        let two = choice_of-act (set_status "all") (act (set_cluster all_clusters) s) in
        (
          ap (λ c. c.cluster_id) two ∙ ap (λ c. c.cluster_id) one,
          ap (λ c. c.shown) two,
          ap (λ c. c.shard_id) two,
          ap (λ c. c.shard_id) one,
        )

    -- With no report open.
    clear_closed : (s : State) → can_clear s needs ≡ true → Lists s n 5
    unfolding act str_eq
    clear_closed s c =
        let s1 = act (set_cluster all_clusters) s in
        let s2 = act (set_status "all") s1 in
        let facts = set_all s in
        first_do (set_cluster all_clusters) s 4 refl facts.3 (
          first_do (set_status "all") s1 3 refl facts.2
            (unpick s2 s2.reason_filter refl facts.0 facts.1 c))

    clear_all :
        (s : State) (o : Option NeedView) → s.selected ≡ o → can_clear s needs ≡ true → Lists s n 6
    unfolding act
    clear_all s none e c = at_most s 5 6 (omega arith) (clear_closed s c)
    clear_all s (some m) e c = first_do close s 5 (ap is_some e) refl (clear_closed (act close s) c)

module _ (locale_before : String → String → Bool) (shard_ids : List String) where
  -- Where no reason that is not empty is picked, or some need of the answer is unmet: for every need
  -- of the answer at most six actions that the page offers, one after the other, list all the needs
  -- and open the report of that need; the shard stays. Otherwise, where such a reason is picked and no
  -- need is unmet, whatever the page offers and the user does, and whatever answers come, the list is
  -- empty as long as the answers hold no unmet need.
  pub list_all :
      (s : State) (needs : List NeedView)
      → (can_clear s needs ≡ true
          → (n : NeedView) → Mem n needs
          → Lists locale_before shard_ids needs s n 6)
        × (can_clear s needs ≡ false
            → (steps : List (List NeedView × Action)) (later : List NeedView)
            → Allowed locale_before shard_ids s steps
            → All (λ e. has_unmet e.0 ≡ false) steps
            → has_unmet later ≡ false
            → rows (run (map (λ e. e.1) steps) s) later ≡ [])
  list_all s needs = (
    λ c n here. clear_all locale_before shard_ids needs n here s s.selected refl c,
    λ c steps later o k l.
        stuck locale_before shard_ids s s.reason_filter later steps refl (ground arith) o k l,
  )
