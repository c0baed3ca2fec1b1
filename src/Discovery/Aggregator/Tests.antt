-- ===== src/Discovery/Aggregator/Tests.antt =====
-- Two loaders that report one after the other.
use mathlib.Core.List.{reverse}
use flexds.Prelude.{◌≡◌, refl, [], ◌∷◌}
use flexds.Strings.{codes, ◌==◌}
use flexds.Dict.{insert}
use flexds.Xds.Samples.{web, idle}
use flexds.Discovery.Aggregator.{ServiceMap, aggregate}

abbrev both_loaded : ServiceMap
both_loaded = (codes "consul_loader", web ∷ []) ∷ (codes "marathon", web ∷ idle ∷ []) ∷ []

-- Consul's entry is replaced, Marathon's stays; the order is that of `range`.
replaced :
    aggregate (insert (codes "consul_loader") (idle ∷ []) both_loaded) ≡ idle ∷ web ∷ idle ∷ []
unfolding aggregate insert ◌==◌
replaced = refl

reversed :
    aggregate (reverse (insert (codes "consul_loader") (idle ∷ []) both_loaded))
    ≡ web ∷ idle ∷ idle ∷ []
unfolding aggregate insert ◌==◌
reversed = refl
