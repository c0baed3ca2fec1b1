-- ===== src/Discovery/Consul/RouteParser.antt =====
-- internal/discovery/consul/route_parser.go: routes from the numbered keys of a service's metadata.
pub mod Collect
pub mod Present
pub mod Spec
pub mod Order
pub mod Written
mod Tests
use flexds.Prelude.{ℕ, zero, suc, ◌+◌, Option, none, some, List, [], ◌∷◌, ◌++◌, if◌then◌else◌}
use flexds.Strings.{Text, codes, has_prefix, split_n, itoa}
use flexds.Dict.{Dict, lookup, insert, or_zero}
use flexds.Common.ServiceModel.{RoutePattern, any_host}

-- `routeMap[routeNum][fieldName] = value`, the inner map made when it is nil
abbrev set_field : Text → Text → Text → Dict (Dict Text) → Dict (Dict Text)
set_field num field value m = insert num (insert field value (or_zero [] (lookup num m))) m

abbrev add_parts : List Text → Text → Dict (Dict Text) → Dict (Dict Text)
add_parts (p ∷ num ∷ field ∷ []) value m = set_field num field value m
add_parts _ value m = m

-- One round of the loop over the metadata.
unfoldable pub add_key : Text → Text → Dict (Dict Text) → Dict (Dict Text)
unfolding insert lookup has_prefix split_n
add_key key value m =
    if has_prefix (codes "route_") key then add_parts (split_n 3 b'_' key) value m else m

unfoldable pub collect : Dict Text → Dict (Dict Text) → Dict (Dict Text)
unfolding add_key
collect [] m = m
collect ((key, value) ∷ meta) m = collect meta (add_key key value m)

-- `if v, ok := routeConfig[field]; ok` leaves the field's first value where the key is missing.
unfoldable pub route_pattern : Text → Text → Dict Text → RoutePattern
unfolding lookup
route_pattern svc num config = record {
  name = svc ++ codes "-route-" ++ num;
  match_type = or_zero (codes "path") (lookup (codes "match_type") config);
  path_prefix = or_zero [] (lookup (codes "path_prefix") config);
  header_name = or_zero [] (lookup (codes "header_name") config);
  header_value = or_zero [] (lookup (codes "header_value") config);
  prefix_rewrite = or_zero [] (lookup (codes "prefix_rewrite") config);
  regex_rewrite = or_zero [] (lookup (codes "regex_rewrite") config);
  regex_replacement = or_zero [] (lookup (codes "regex_replacement") config);
  hosts = any_host;
}

abbrev with_route : Text → Text → Option (Dict Text) → List RoutePattern → List RoutePattern
with_route svc num none routes = routes
with_route svc num (some config) routes = route_pattern svc num config ∷ routes

-- The loop over route numbers, with the rounds left and the next number.
unfoldable pub build_routes : Text → Dict (Dict Text) → ℕ → ℕ → List RoutePattern
unfolding route_pattern lookup itoa
build_routes svc m zero num = []
build_routes svc m (suc left) num =
    with_route svc (itoa num) (lookup (itoa num) m) (build_routes svc m left (num + 1))

abbrev pub max_routes : ℕ
max_routes = 10

abbrev from_map : Text → Dict (Dict Text) → List RoutePattern
from_map svc [] = []
from_map svc (e ∷ m) = build_routes svc (e ∷ m) max_routes 1

unfoldable pub parse_service_routes : Text → Dict Text → List RoutePattern
unfolding collect build_routes
parse_service_routes svc meta = from_map svc (collect meta [])
