-- ===== src/Pages/Topology/Domains.antt =====
-- The domain assignments of the topology page: none is lost by grouping and sorting.
use bigfleet_web_dashboard.Prelude.{List, [], ◌∷◌, ◌++◌, Perm}
use mathlib.Core.List.Perm
use mathlib.Core.List.{append-nil, perm_middle}
use bigfleet_web_dashboard.Prelude.Dict.{Dict}
use bigfleet_web_dashboard.Prelude.Buckets.{members, members-push, members-perm}
use bigfleet_web_dashboard.Prelude.Sort.{sort_by-perm}
use bigfleet_web_dashboard.Engine.{Engine}
use bigfleet_web_dashboard.Api.Reports.{TopologyDomainAssignment}
use bigfleet_web_dashboard.Pages.Topology.{group_domains, sort_groups, domains}

module _ (js : Engine) where
  group_domains-perm :
      (xs : List TopologyDomainAssignment) (out : Dict (List TopologyDomainAssignment))
      → Perm (members (group_domains js xs out)) (xs ++ members out)
  unfolding group_domains
  group_domains-perm [] out = Perm.rfl
  group_domains-perm (a ∷ xs) out = Perm.trans (group_domains-perm xs _) (
      Perm.trans (Perm.append_left xs (members-push a.topology_key a out))
        (perm_middle xs (members out)))

  sort_groups-perm :
      (m : Dict (List TopologyDomainAssignment)) → Perm (members (sort_groups js m)) (members m)
  sort_groups-perm [] = Perm.rfl
  sort_groups-perm ((k, g) ∷ m) = Perm.append (sort_by-perm _ g) (sort_groups-perm m)

  -- The groups shown hold exactly the assignments given, each as often as it is given.
  pub domains-perm : (xs : List TopologyDomainAssignment) → Perm (members (domains js xs)) xs
  unfolding domains
  domains-perm xs =
      Perm.trans (members-perm (sort_by-perm _ (sort_groups js (group_domains js xs [])))) (
        Perm.trans (sort_groups-perm (group_domains js xs []))
          (rw append-nil at (group_domains-perm xs [])))
