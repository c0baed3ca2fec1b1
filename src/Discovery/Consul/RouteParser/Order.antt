-- ===== src/Discovery/Consul/RouteParser/Order.antt =====
-- The order in which Go's `range` meets the metadata does not change the routes.
use flexds.Prelude.{
  ℕ, zero, suc, ◌+◌, ◌≡◌, ◌≢◌, refl, sym, ap, ◌∙◌, fun_ext, Bool, true, none, [], ◌∷◌, arith, any,
  Bool-cases, Bool-eq_of_iff, inl, inr,
}
use flexds.Strings.{Text, itoa, has_prefix}
use flexds.Strings.Equality.{==_iff, ==_refl}
use flexds.Dict.{Dict, lookup, IsMap, SameMap}
use flexds.Discovery.Consul.RouteParser.{parse_service_routes}
use flexds.Discovery.Consul.RouteParser.Collect.{route_key}
use flexds.Discovery.Consul.RouteParser.Present.{has_route}
use flexds.Discovery.Consul.RouteParser.Spec.{
  described, described_routes, found_by, parse_service_routes-described,
}

-- A key that passes a test, and that the map holds.
any_key_found :
    (p : Text → Bool) (m : Dict Text)
    → any (λ e. p e.0) m ≡ true
    → (k : Text) × (p k ≡ true) × (lookup k m ≢ none)
unfolding lookup
any_key_found p [] h = cc
any_key_found p ((k, v) ∷ m) h = elim (Bool-cases (p k)) [
  | inl e ↦ (k, e, rw (==_refl k) (λ q. cc))
  | inr e ↦
      let (j, pj, found) = any_key_found p m (ground arith) in (j, pj, λ q. found (ground arith))
]

key_found_any :
    (p : Text → Bool) (k : Text) (m : Dict Text)
    → p k ≡ true
    → lookup k m ≢ none
    → any (λ e. p e.0) m ≡ true
unfolding lookup
key_found_any p k [] h found = absurd (found refl)
key_found_any p k ((j, v) ∷ m) h found = ground (arith, ==_iff j k, key_found_any p k m h)

any-SameMap :
    (p : Text → Bool) (m m' : Dict Text)
    → SameMap m m'
    → any (λ e. p e.0) m ≡ true
    → any (λ e. p e.0) m' ≡ true
any-SameMap p m m' same h =
    let (k, pk, found) = any_key_found p m h in key_found_any p k m' pk (λ e. found (same k ∙ e))

has_route-SameMap :
    (num : Text) (m m' : Dict Text) → SameMap m m' → has_route m num ≡ has_route m' num
has_route-SameMap num m m' same =
    Bool-eq_of_iff _ _ (any-SameMap (has_prefix (route_key num [])) m m' same)
      (any-SameMap (has_prefix (route_key num [])) m' m (λ k. sym (same k)))

described-SameMap :
    (svc num : Text) (m m' : Dict Text) → SameMap m m' → described svc m num ≡ described svc m' num
described-SameMap svc num m m' same =
    ap (found_by svc num) (fun_ext λ field. same (route_key num field))

described_routes-SameMap :
    (svc : Text) (m m' : Dict Text) (left num : ℕ)
    → SameMap m m'
    → described_routes svc m left num ≡ described_routes svc m' left num
described_routes-SameMap svc m m' zero num same = refl
described_routes-SameMap svc m m' (suc left) num same = rw (
  has_route-SameMap (itoa num) m m' same,
  described-SameMap svc (itoa num) m m' same,
  described_routes-SameMap svc m m' left (num + 1) same,
)

-- Two lists of the entries of one metadata map, each with distinct keys, give the same routes,
-- whatever their order.
pub parse_service_routes-SameMap :
    (svc : Text) (meta meta' : Dict Text)
    → IsMap meta
    → IsMap meta'
    → SameMap meta meta'
    → parse_service_routes svc meta ≡ parse_service_routes svc meta'
parse_service_routes-SameMap svc meta meta' h h' same =
    parse_service_routes-described svc meta h
    ∙ described_routes-SameMap svc meta meta' 10 1 same
    ∙ sym (parse_service_routes-described svc meta' h')
