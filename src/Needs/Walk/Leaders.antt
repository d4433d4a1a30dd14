-- ===== src/Needs/Walk/Leaders.antt =====
-- The cohorts of the walk stand in the order of their first needs.
use bigfleet_web_dashboard.Prelude.{
  ◌≡◌, refl, Bool, true, false, List, [], ◌∷◌, arith, filter, filter-All, Ordered, Ordered-imp,
}
use bigfleet_web_dashboard.Prelude.Dict.{Dict}
use bigfleet_web_dashboard.Prelude.Sort.{sort_by, sort_by_congr, sort_by-Ordered, NotAfter}
use bigfleet_web_dashboard.Api.Demand.{NeedView}
use bigfleet_web_dashboard.Needs.Precedence.{precedes, precedes-IsStrictWeak}
use bigfleet_web_dashboard.Needs.Walk.{Group, leads, is_cohort, cohorts}

-- The order of the cohorts, with empty groups last.
abbrev leads_all : Group → Group → Bool
leads_all (fp, a ∷ as') (gp, b ∷ bs) = precedes a b
leads_all (fp, a ∷ as') (gp, []) = true
leads_all (fp, []) f = false

leads_all-asym : (e f : Group) → leads_all e f ≡ true → leads_all f e ≡ false
leads_all-asym (fp, a ∷ as') (gp, b ∷ bs) h = precedes-IsStrictWeak.asym a b h
leads_all-asym (fp, a ∷ as') (gp, []) h = refl
leads_all-asym (fp, []) f h = cc

leads_all-cotrans :
    (e f g : Group) → leads_all e f ≡ true → leads_all e g ≡ false → leads_all g f ≡ true
leads_all-cotrans (fp, a ∷ as') (gp, b ∷ bs) (hp, c ∷ cs) h k =
    precedes-IsStrictWeak.cotrans a b c h k
leads_all-cotrans (fp, a ∷ as') (gp, []) (hp, c ∷ cs) h k = refl
leads_all-cotrans (fp, a ∷ as') f (hp, []) h k = cc
leads_all-cotrans (fp, []) f g h k = cc

leads-le-leads_all : (e f : Group) → leads_all e f ≡ false → leads e f ≡ false
leads-le-leads_all (fp, a ∷ as') (gp, b ∷ bs) h = h
leads-le-leads_all (fp, a ∷ as') (gp, []) h = refl
leads-le-leads_all (fp, []) (gp, bs) h = refl

leads-eq_of_is_cohort :
    (e f : Group) → is_cohort e ≡ true → is_cohort f ≡ true → leads e f ≡ leads_all e f
leads-eq_of_is_cohort (fp, a ∷ as') (gp, b ∷ bs) h k = refl
leads-eq_of_is_cohort (fp, a ∷ as') (gp, []) h k = ground arith
leads-eq_of_is_cohort (fp, []) f h k = ground arith

-- No cohort leads one that stands before it.
pub cohorts-Ordered :
    (groups : Dict (List NeedView)) → Ordered (NotAfter leads) (sort_by leads (cohorts groups))
unfolding cohorts
cohorts-Ordered groups =
    let es = filter is_cohort groups in
    rw
      (sort_by_congr (λ e. is_cohort e ≡ true) leads leads_all leads-eq_of_is_cohort es
        (filter-All is_cohort groups))
      (Ordered-imp (sort_by leads_all es) (λ e f h. leads-le-leads_all f e h)
        (sort_by-Ordered leads_all (record { asym = leads_all-asym; cotrans = leads_all-cotrans })
          es))
