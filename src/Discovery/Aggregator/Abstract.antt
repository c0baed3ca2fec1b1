-- ===== src/Discovery/Aggregator/Abstract.antt =====
-- What the aggregator is for, with neither the order of a map nor that of a list: the reports of the
-- loaders and the services that they offer are multisets.
use mathlib.Core.List.{Perm, Permᴰ}
use mathlib.Core.List.Perm
use mathlib.Core.Logic.{∥∥₁_elim}
use mathlib.Core.List.{Perm-prop}
use mathlib.Core.Quot.{sound, lift}
use mathlib.Mathlib.Data.Multiset.Defs.{Multiset, Multiset-set, of_list}
use mathlib.Mathlib.Data.Multiset.ZeroCons.{cons}
use mathlib.Mathlib.Data.Multiset.AddSub.{add}
use mathlib.Mathlib.Data.Multiset.Bind.{bind, cons-bind, zero-bind}
use flexds.Prelude.{
  ◌≡◌, ap, ◌∙◌, Bool, true, false, List, [], ◌∷◌, inl, inr, Bool-cases, if◌then◌else◌,
}
use flexds.Strings.{Text, ◌==◌}
use flexds.Strings.Equality.{eq_of_==}
use flexds.Dict.{lookup, insert, IsMap}
use flexds.Common.ServiceModel.{DiscoveredService}
use flexds.Discovery.Aggregator.{ServiceMap, aggregate}
use flexds.Discovery.Aggregator.Order.{without, without_absent}

-- What each loader has reported last.
abbrev pub Reports : Type 0
Reports = Multiset (Text × List DiscoveredService)

-- The services of all reports, as often as they are reported.
unfoldable pub offered : Reports → Multiset DiscoveredService
unfolding bind
offered r = bind r (λ e. of_list e.1)

kept-perm :
    (gone : Bool) (e : Text × List DiscoveredService) {m m' : ServiceMap}
    → Perm m m'
    → Perm (if gone then m else e ∷ m) (if gone then m' else e ∷ m')
kept-perm true e p = p
kept-perm false e p = Perm.cons e p

kept-swap :
    (a b : Bool) (d e : Text × List DiscoveredService) (m : ServiceMap)
    → Perm
        (if b then (if a then m else d ∷ m) else e ∷ (if a then m else d ∷ m))
        (if a then (if b then m else e ∷ m) else d ∷ (if b then m else e ∷ m))
kept-swap true true d e m = Perm.refl _
kept-swap true false d e m = Perm.refl _
kept-swap false true d e m = Perm.refl _
kept-swap false false d e m = Perm.swap d e m

permuted_without :
    (loader : Text) {m m' : ServiceMap} → Permᴰ m m' → Perm (without loader m) (without loader m')
permuted_without loader Permᴰ.nil = Perm.refl []
permuted_without loader (Permᴰ.cons {b = e} p h) =
    rw p (kept-perm (e.0 == loader) e (permuted_without loader h))
permuted_without loader (Permᴰ.swap {a' = d} {b' = e} {l = m} p q) =
    rw (p, q) (kept-swap (d.0 == loader) (e.0 == loader) d e (without loader m))
permuted_without loader (Permᴰ.trans h k) =
    Perm.trans (permuted_without loader h) (permuted_without loader k)

without-perm :
    (loader : Text) {m m' : ServiceMap} → Perm m m' → Perm (without loader m) (without loader m')
without-perm loader p = ∥∥₁_elim p Perm-prop (permuted_without loader)

-- A report takes the place of what its loader had reported.
pub replace : Text → List DiscoveredService → Reports → Reports
replace loader services r =
    cons (loader, services)
      (lift Multiset-set (λ m. of_list (without loader m)) (λ m m' p. sound (without-perm loader p))
        r)

insert-perm :
    (loader : Text) (services : List DiscoveredService) (m : ServiceMap)
    → IsMap m
    → Perm (insert loader services m) ((loader, services) ∷ without loader m)
unfolding insert lookup
insert-perm loader services [] h = Perm.refl _
insert-perm loader services ((l, old) ∷ m) (new, h) = elim (Bool-cases (l == loader)) [
  | inl e ↦ rw (e, without_absent loader m (rw (eq_of_== l loader e) at new)) (Perm.refl _)
  | inr e ↦ rw e (
      Perm.trans (Perm.cons (l, old) (insert-perm loader services m h))
        (Perm.swap (loader, services) (l, old) (without loader m)))
]

-- A write of the map replaces the loader's report.
pub insert-replace :
    (loader : Text) (services : List DiscoveredService) (m : ServiceMap)
    → IsMap m
    → of_list (insert loader services m) ≡ replace loader services (of_list m)
unfolding replace
insert-replace loader services m h = sound (insert-perm loader services m h)

-- The aggregated services are those that the reports offer.
pub offered-aggregate : (m : ServiceMap) → offered (of_list m) ≡ of_list (aggregate m)
unfolding offered aggregate
offered-aggregate [] = zero-bind (λ (e : Text × List DiscoveredService). of_list e.1)
offered-aggregate ((loader, services) ∷ m) =
    cons-bind (loader, services) (of_list m) (λ e. of_list e.1)
    ∙ ap (add (of_list services)) (offered-aggregate m)
