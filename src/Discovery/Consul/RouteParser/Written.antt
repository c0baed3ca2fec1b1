-- ===== src/Discovery/Consul/RouteParser/Written.antt =====
-- Routes written as the metadata of a service, and read back by ParseServiceRoutes.
use flexds.Prelude.{
  ℕ, zero, suc, ◌+◌, ◌≤◌, ◌<◌, ◌≡◌, ◌≢◌, refl, ap, ◌∙◌, fun_ext, true, none, List, [], ◌∷◌, ◌++◌,
  arith, length,
}
use flexds.Strings.{Text, codes, ◌==◌, itoa}
use flexds.Strings.Cut.{Lacks}
use flexds.Strings.Decimal.{itoa_injective}
use flexds.Strings.Equality.{==-ne, ==_refl}
use flexds.Dict.{Dict, lookup, IsMap, SameMap}
use flexds.Common.ServiceModel.{RoutePattern, any_host}
use flexds.Discovery.Consul.RouteParser.{parse_service_routes}
use flexds.Discovery.Consul.RouteParser.Collect.{route_key, key_test}
use flexds.Discovery.Consul.RouteParser.Present.{has_route, stem_test}
use flexds.Discovery.Consul.RouteParser.Spec.{
  described, described_routes, found_by, itoa-Lacks, parse_service_routes-described,
}
use flexds.Discovery.Consul.RouteParser.Order.{parse_service_routes-SameMap}

-- What a route holds, under the names of the fields.
abbrev fields : RoutePattern → Dict Text
fields r =
    (codes "match_type", r.match_type)
    ∷ (codes "path_prefix", r.path_prefix)
    ∷ (codes "header_name", r.header_name)
    ∷ (codes "header_value", r.header_value)
    ∷ (codes "prefix_rewrite", r.prefix_rewrite)
    ∷ (codes "regex_rewrite", r.regex_rewrite)
    ∷ (codes "regex_replacement", r.regex_replacement)
    ∷ []

abbrev keyed : Text → Dict Text → Dict Text
keyed num [] = []
keyed num ((field, value) ∷ m) = (route_key num field, value) ∷ keyed num m

-- The routes as metadata, numbered from `num` on.
abbrev pub written : ℕ → List RoutePattern → Dict Text
written num [] = []
written num (r ∷ rs) = keyed (itoa num) (fields r) ++ written (num + 1) rs

-- The routes have the names that the numbers give, and any host.
abbrev pub IsNumbered : Text → ℕ → List RoutePattern → Type 0
IsNumbered svc num [] = Unit
IsNumbered svc num (r ∷ rs) =
    (r.name ≡ svc ++ codes "-route-" ++ itoa num)
    × (r.hosts ≡ any_host)
    × IsNumbered svc (num + 1) rs

-- One route's keys.
lookup-keyed :
    (num field : Text) (m rest : Dict Text)
    → Lacks b'_' num
    → lookup (route_key num field) rest ≡ none
    → lookup (route_key num field) (keyed num m ++ rest) ≡ lookup field m
unfolding lookup
lookup-keyed num field [] rest hn h = h
lookup-keyed num field ((f, v) ∷ m) rest hn h =
    rw (key_test num f num field hn hn, ==_refl num, lookup-keyed num field m rest hn h) refl

lookup-keyed_other :
    (a num field : Text) (m rest : Dict Text)
    → Lacks b'_' a
    → Lacks b'_' num
    → a ≢ num
    → lookup (route_key num field) (keyed a m ++ rest) ≡ lookup (route_key num field) rest
unfolding lookup
lookup-keyed_other a num field [] rest ha hn ne = refl
lookup-keyed_other a num field ((f, v) ∷ m) rest ha hn ne =
    rw (key_test a f num field ha hn, ==-ne a num ne)
      (lookup-keyed_other a num field m rest ha hn ne)

has_route-keyed_other :
    (a num : Text) (m rest : Dict Text)
    → Lacks b'_' a
    → Lacks b'_' num
    → a ≢ num
    → has_route (keyed a m ++ rest) num ≡ has_route rest num
has_route-keyed_other a num [] rest ha hn ne = refl
has_route-keyed_other a num ((f, v) ∷ m) rest ha hn ne =
    rw (stem_test a f num ha hn, ==-ne a num ne) (has_route-keyed_other a num m rest ha hn ne)

itoa-ne : (m n : ℕ) → m ≢ n → itoa m ≢ itoa n
itoa-ne m n ne e = ne (itoa_injective m n e)

-- The routes from a number on have no keys of the numbers before.
lookup-written :
    (k num : ℕ) (field : Text) (rs : List RoutePattern)
    → k < num
    → lookup (route_key (itoa k) field) (written num rs) ≡ none
unfolding lookup
lookup-written k num field [] h = refl
lookup-written k num field (r ∷ rs) h =
    lookup-keyed_other (itoa num) (itoa k) field (fields r) (written (num + 1) rs) (itoa-Lacks num)
      (itoa-Lacks k) (itoa-ne num k (omega arith))
    ∙ lookup-written k (num + 1) field rs (omega arith)

keyed-IsMap :
    (num : Text) (m rest : Dict Text)
    → Lacks b'_' num
    → ((field : Text) → lookup (route_key num field) rest ≡ none)
    → IsMap m
    → IsMap rest
    → IsMap (keyed num m ++ rest)
keyed-IsMap num [] rest hn new h hr = hr
keyed-IsMap num ((f, v) ∷ m) rest hn new (fresh, h) hr =
    (lookup-keyed num f m rest hn (new f) ∙ fresh, keyed-IsMap num m rest hn new h hr)

fields-IsMap : (r : RoutePattern) → IsMap (fields r)
unfolding lookup ◌==◌
fields-IsMap r = (refl, (refl, (refl, (refl, (refl, (refl, (refl, tt)))))))

written-IsMap : (num : ℕ) (rs : List RoutePattern) → IsMap (written num rs)
written-IsMap num [] = tt
written-IsMap num (r ∷ rs) =
    keyed-IsMap (itoa num) (fields r) (written (num + 1) rs) (itoa-Lacks num)
      (λ f. lookup-written num (num + 1) f rs (omega arith)) (fields-IsMap r)
      (written-IsMap (num + 1) rs)

-- Metadata that has, from a number on, the keys of the routes.
record Holds (meta : Dict Text) (num : ℕ) (rs : List RoutePattern) : Type 0 where
  found :
      (k : ℕ) (field : Text)
      → num ≤ k
      → lookup (route_key (itoa k) field) meta ≡ lookup (route_key (itoa k) field) (written num rs)
  present : (k : ℕ) → num ≤ k → has_route meta (itoa k) ≡ has_route (written num rs) (itoa k)

tail-Holds :
    (meta : Dict Text) (num : ℕ) (r : RoutePattern) (rs : List RoutePattern)
    → Holds meta num (r ∷ rs)
    → Holds meta (num + 1) rs
tail-Holds meta num r rs h = record {
  found = λ k field le.
      h.found k field (omega arith)
      ∙ lookup-keyed_other (itoa num) (itoa k) field (fields r) (written (num + 1) rs)
          (itoa-Lacks num) (itoa-Lacks k) (itoa-ne num k (omega arith));
  present = λ k le.
      h.present k (omega arith)
      ∙ has_route-keyed_other (itoa num) (itoa k) (fields r) (written (num + 1) rs) (itoa-Lacks num)
          (itoa-Lacks k) (itoa-ne num k (omega arith));
}

-- The route that its keys describe.
described-fields :
    (svc num : Text) (r : RoutePattern)
    → r.name ≡ svc ++ codes "-route-" ++ num
    → r.hosts ≡ any_host
    → found_by svc num (λ f. lookup f (fields r)) ≡ r
unfolding lookup ◌==◌
described-fields svc num r named hosts = rw (← named, ← hosts) refl

described-written :
    (svc : Text) (meta : Dict Text) (num : ℕ) (r : RoutePattern) (rs : List RoutePattern)
    → Holds meta num (r ∷ rs)
    → r.name ≡ svc ++ codes "-route-" ++ itoa num
    → r.hosts ≡ any_host
    → described svc meta (itoa num) ≡ r
described-written svc meta num r rs h named hosts =
    ap (found_by svc (itoa num)) (
      fun_ext λ f.
        h.found num f (omega arith)
        ∙ lookup-keyed (itoa num) f (fields r) (written (num + 1) rs) (itoa-Lacks num)
            (lookup-written num (num + 1) f rs (omega arith)))
    ∙ described-fields svc (itoa num) r named hosts

has_route-written :
    (num : ℕ) (r : RoutePattern) (rs : List RoutePattern)
    → has_route (written num (r ∷ rs)) (itoa num) ≡ true
has_route-written num r rs =
    rw
      (
        stem_test (itoa num) (codes "match_type") (itoa num) (itoa-Lacks num) (itoa-Lacks num),
        ==_refl (itoa num),
      )
      refl

described_routes-written :
    (svc : Text) (meta : Dict Text) (left num : ℕ) (rs : List RoutePattern)
    → length rs ≤ left
    → IsNumbered svc num rs
    → Holds meta num rs
    → described_routes svc meta left num ≡ rs
described_routes-written svc meta zero num [] le n h = refl
described_routes-written svc meta zero num (r ∷ rs) le n h = absurd (omega arith)
described_routes-written svc meta (suc left) num [] le n h = rw (h.present num (omega arith)) (
    described_routes-written svc meta left (num + 1) [] (omega arith) tt (record {
      found = λ k field b. h.found k field (omega arith);
      present = λ k b. h.present k (omega arith);
    }))
described_routes-written svc meta (suc left) num (r ∷ rs) le (named, hosts, n) h =
    rw
      (
        h.present num (omega arith),
        has_route-written num r rs,
        described-written svc meta num r rs h named hosts,
        described_routes-written svc meta left (num + 1) rs (omega arith) n
            (tail-Holds meta num r rs h),
      )
      refl

-- At most ten routes, with the names that the numbers 1, 2, ... give and any host, are written
-- as metadata, a key route_<N>_<field> for each of their fields: from these keys, in any order,
-- ParseServiceRoutes returns the same routes, in their order.
pub parse_service_routes-written :
    (svc : Text) (rs : List RoutePattern) (meta : Dict Text)
    → length rs ≤ 10
    → IsNumbered svc 1 rs
    → IsMap meta
    → SameMap meta (written 1 rs)
    → parse_service_routes svc meta ≡ rs
parse_service_routes-written svc rs meta le n h same =
    parse_service_routes-SameMap svc meta (written 1 rs) h (written-IsMap 1 rs) same
    ∙ parse_service_routes-described svc (written 1 rs) (written-IsMap 1 rs)
    ∙ described_routes-written svc (written 1 rs) 10 1 rs le n
        (record { found = λ k f b. refl; present = λ k b. refl })
