-- ===== src/Discovery/Consul/RouteParser/Spec.antt =====
-- ParseServiceRoutes against a direct reading of the metadata: no maps of maps, no order.
use flexds.Prelude.{
  ℕ, zero, suc, ◌+◌, ◌≡◌, refl, sym, ap, ◌∙◌, Option, none, some, List, [], ◌∷◌, ◌++◌, arith,
  if◌then◌else◌, fun_ext, All,
}
use flexds.Strings.{Text, codes, itoa}
use flexds.Strings.Cut.{Lacks}
use flexds.Strings.Decimal.{IsDigit, itoa-IsDigit}
use flexds.Dict.{Dict, lookup, IsMap, or_zero}
use flexds.Common.ServiceModel.{RoutePattern, any_host}
use flexds.Discovery.Consul.RouteParser.{
  route_pattern, with_route, build_routes, from_map, collect, parse_service_routes,
}
use flexds.Discovery.Consul.RouteParser.Collect.{route_key, field_of-collect, is_some}
use flexds.Discovery.Consul.RouteParser.Present.{has_route, is_some-collect}

abbrev setting : Dict Text → Text → Text → Text → Text
setting meta num first field = or_zero first (lookup (route_key num field) meta)

-- The route that the keys route_<num>_<field> of the metadata describe.
abbrev pub described : Text → Dict Text → Text → RoutePattern
described svc meta num = record {
  name = svc ++ codes "-route-" ++ num;
  match_type = setting meta num (codes "path") (codes "match_type");
  path_prefix = setting meta num [] (codes "path_prefix");
  header_name = setting meta num [] (codes "header_name");
  header_value = setting meta num [] (codes "header_value");
  prefix_rewrite = setting meta num [] (codes "prefix_rewrite");
  regex_rewrite = setting meta num [] (codes "regex_rewrite");
  regex_replacement = setting meta num [] (codes "regex_replacement");
  hosts = any_host;
}

-- The described routes of `left` numbers from `num` on, in the order of the numbers.
abbrev pub described_routes : Text → Dict Text → ℕ → ℕ → List RoutePattern
described_routes svc meta zero num = []
described_routes svc meta (suc left) num =
    let rest = described_routes svc meta left (num + 1) in
    if has_route meta (itoa num) then described svc meta (itoa num) ∷ rest else rest

All-Lacks : (s : Text) → All IsDigit s → Lacks b'_' s
All-Lacks [] h = tt
All-Lacks (c ∷ s) (d, h) = (omega arith, All-Lacks s h)

pub itoa-Lacks : (n : ℕ) → Lacks b'_' (itoa n)
itoa-Lacks n = All-Lacks (itoa n) (itoa-IsDigit n)

-- A route from the way in which its fields are found.
abbrev pub found_by : Text → Text → (Text → Option Text) → RoutePattern
found_by svc num get = record {
  name = svc ++ codes "-route-" ++ num;
  match_type = or_zero (codes "path") (get (codes "match_type"));
  path_prefix = or_zero [] (get (codes "path_prefix"));
  header_name = or_zero [] (get (codes "header_name"));
  header_value = or_zero [] (get (codes "header_value"));
  prefix_rewrite = or_zero [] (get (codes "prefix_rewrite"));
  regex_rewrite = or_zero [] (get (codes "regex_rewrite"));
  regex_replacement = or_zero [] (get (codes "regex_replacement"));
  hosts = any_host;
}

-- The route that is built from an inner map is the one that the metadata's keys describe.
pattern-described :
    (svc : Text) (meta : Dict Text) (num : Text)
    → Lacks b'_' num
    → IsMap meta
    → route_pattern svc num (or_zero [] (lookup num (collect meta []))) ≡ described svc meta num
unfolding route_pattern
pattern-described svc meta num hn h =
    ap (found_by svc num) (fun_ext λ field. field_of-collect meta num field hn h)

-- A route is built exactly when its number is present.
with_route-if :
    (svc num : Text) (o : Option (Dict Text)) (rest : List RoutePattern)
    → with_route svc num o rest
      ≡ (if is_some o then route_pattern svc num (or_zero [] o) ∷ rest else rest)
with_route-if svc num none rest = refl
with_route-if svc num (some config) rest = refl

build_routes-described :
    (svc : Text) (meta : Dict Text) (left num : ℕ)
    → IsMap meta
    → build_routes svc (collect meta []) left num ≡ described_routes svc meta left num
unfolding build_routes
build_routes-described svc meta zero num h = refl
build_routes-described svc meta (suc left) num h = rw (
  with_route-if,
  is_some-collect meta (itoa num) (itoa-Lacks num),
  pattern-described svc meta (itoa num) (itoa-Lacks num) h,
  build_routes-described svc meta left (num + 1) h,
)

build_routes-nil : (svc : Text) (left num : ℕ) → build_routes svc [] left num ≡ []
unfolding build_routes
build_routes-nil svc zero num = refl
build_routes-nil svc (suc left) num = build_routes-nil svc left (num + 1)

from_map-build : (svc : Text) (m : Dict (Dict Text)) → from_map svc m ≡ build_routes svc m 10 1
from_map-build svc [] = sym (build_routes-nil svc 10 1)
from_map-build svc (e ∷ m) = refl

-- On metadata with distinct keys, ParseServiceRoutes returns exactly the routes numbered 1 to 10
-- that some key route_<N>_<field> names, in the order of their numbers, each with its fields read
-- directly from those keys and with the defaults (match type "path", host "*") elsewhere.
pub parse_service_routes-described :
    (svc : Text) (meta : Dict Text)
    → IsMap meta
    → parse_service_routes svc meta ≡ described_routes svc meta 10 1
unfolding parse_service_routes
parse_service_routes-described svc meta h =
    from_map-build svc (collect meta []) ∙ build_routes-described svc meta 10 1 h
