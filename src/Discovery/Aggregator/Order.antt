-- ===== src/Discovery/Aggregator/Order.antt =====
-- What the aggregated list holds, whatever the order of the map.
use mathlib.Core.List.{Perm, Permᴰ, Perm-prop, perm_append_comm}
use mathlib.Core.List.Perm
use mathlib.Core.Logic.{∥∥₁_elim}
use flexds.Prelude.{
  none, ◌≡◌, refl, List, [], ◌∷◌, ◌++◌, append_assoc, Bool-cases, inl, inr, arith, if◌then◌else◌,
}
use flexds.Strings.{Text, ◌==◌}
use flexds.Strings.Equality.{eq_of_==}
use flexds.Dict.{lookup, insert, IsMap}
use flexds.Common.ServiceModel.{DiscoveredService}
use flexds.Discovery.Aggregator.{ServiceMap, aggregate}

exchange : {A : Type 0} (a b c : List A) → Perm (a ++ (b ++ c)) (b ++ (a ++ c))
exchange a b c =
    rw (← append_assoc a b c, ← append_assoc b a c) (Perm.append_right c (perm_append_comm a b))

-- The map without one loader's entry.
abbrev pub without : Text → ServiceMap → ServiceMap
without loader [] = []
without loader ((l, services) ∷ m) =
    if l == loader then without loader m else (l, services) ∷ without loader m

permuted : {m m' : ServiceMap} → Permᴰ m m' → Perm (aggregate m) (aggregate m')
unfolding aggregate
permuted Permᴰ.nil = Perm.refl []
permuted (Permᴰ.cons {b = e} p h) = rw p (Perm.append_left e.1 (permuted h))
permuted (Permᴰ.swap {a' = d} {b' = e} {l = m} p q) = rw (p, q) (exchange e.1 d.1 (aggregate m))
permuted (Permᴰ.trans h k) = Perm.trans (permuted h) (permuted k)

-- Two orders of one map's entries give the same services, as often, in some order.
pub aggregate-perm : {m m' : ServiceMap} → Perm m m' → Perm (aggregate m) (aggregate m')
aggregate-perm p = ∥∥₁_elim p Perm-prop permuted

pub without_absent :
    (loader : Text) (m : ServiceMap) → lookup loader m ≡ none → without loader m ≡ m
unfolding lookup
without_absent loader [] h = refl
without_absent loader ((l, s) ∷ m) h = ground (arith, without_absent loader m)

aggregate-insert :
    (loader : Text) (services : List DiscoveredService) (m : ServiceMap)
    → IsMap m
    → Perm (aggregate (insert loader services m)) (services ++ aggregate (without loader m))
unfolding aggregate insert lookup
aggregate-insert loader services [] h = Perm.refl _
aggregate-insert loader services ((l, old) ∷ m) (new, h) = elim (Bool-cases (l == loader)) [
  | inl e ↦ rw (e, without_absent loader m (rw (eq_of_== l loader e) at new)) (Perm.refl _)
  | inr e ↦ rw e (
      Perm.trans (Perm.append_left old (aggregate-insert loader services m h))
        (exchange old services (aggregate (without loader m))))
]

-- Where the map has each loader once: after an update the aggregated services are, in some order,
-- those of the update and those of every other loader, whatever the order in which `range` meets
-- the map. An update replaces what its loader reported before, and nothing else.
pub aggregate-update :
    (range : ServiceMap → ServiceMap) (loader : Text) (services : List DiscoveredService)
    (m : ServiceMap)
    → ((m : ServiceMap) → Perm (range m) m)
    → IsMap m
    → Perm (aggregate (range (insert loader services m))) (services ++ aggregate (without loader m))
aggregate-update range loader services m any_order h =
    Perm.trans (aggregate-perm (any_order (insert loader services m)))
      (aggregate-insert loader services m h)
