-- ===== src/Discovery/Consul/RouteParser/Tests.antt =====
-- ParseServiceRoutes on the metadata of README.md.
use flexds.Prelude.{◌≡◌, refl, List, [], ◌∷◌, map, arith}
use flexds.Strings.{Text, codes, ◌==◌, itoa}
use flexds.Dict.{Dict, lookup, IsMap}
use flexds.Dict.Laws.{SameMap-swap}
use flexds.Common.ServiceModel.{RoutePattern}
use flexds.Discovery.Consul.RouteParser.{parse_service_routes}
use flexds.Discovery.Consul.RouteParser.Spec.{described_routes, parse_service_routes-described}
use flexds.Common.ServiceModel.{any_host}
use flexds.Discovery.Consul.RouteParser.Written.{written, parse_service_routes-written}
use flexds.Discovery.Consul.RouteParser.Order.{parse_service_routes-SameMap}

abbrev hello : Dict Text
hello =
    (codes "route_1_match_type", codes "path")
    ∷ (codes "route_1_path_prefix", codes "/hello")
    ∷ (codes "http2", codes "true")
    ∷ (codes "route_2_header_name", codes "X-Service")
    ∷ (codes "route_02_header_name", codes "ignored")
    ∷ []

hello-IsMap : IsMap hello
unfolding lookup ◌==◌
hello-IsMap = (refl, (refl, (refl, (refl, (refl, tt)))))

two_routes :
    map {B = Text × Text × Text}
      (λ (r : RoutePattern). (r.name, r.path_prefix, r.header_name))
      (parse_service_routes (codes "svc") hello)
    ≡ (codes "svc-route-1", codes "/hello", []) ∷ (codes "svc-route-2", [], codes "X-Service") ∷ []
unfolding parse_service_routes ◌==◌
two_routes = refl

parse_service_routes-described_example :
    parse_service_routes (codes "svc") hello ≡ described_routes (codes "svc") hello 10 1
parse_service_routes-described_example =
    parse_service_routes-described (codes "svc") hello hello-IsMap

abbrev prefix_first : Dict Text
prefix_first =
    (codes "route_1_path_prefix", codes "/a") ∷ (codes "route_1_regex_rewrite", codes "^/a") ∷ []

abbrev regex_first : Dict Text
regex_first =
    (codes "route_1_regex_rewrite", codes "^/a") ∷ (codes "route_1_path_prefix", codes "/a") ∷ []

parse_service_routes-SameMap_example :
    parse_service_routes (codes "svc") prefix_first ≡ parse_service_routes (codes "svc") regex_first
unfolding lookup ◌==◌
parse_service_routes-SameMap_example =
    parse_service_routes-SameMap (codes "svc") prefix_first regex_first (refl, (refl, tt))
      (refl, (refl, tt))
      (SameMap-swap (codes "route_1_path_prefix") (codes "route_1_regex_rewrite") (codes "/a")
        (codes "^/a") [] refl)

abbrev rewriting : RoutePattern
rewriting = record {
  name = codes "svc-route-1";
  match_type = codes "path";
  path_prefix = codes "/api";
  header_name = [];
  header_value = [];
  prefix_rewrite = codes "/";
  regex_rewrite = [];
  regex_replacement = [];
  hosts = any_host;
}

abbrev by_header : RoutePattern
by_header = record {
  name = codes "svc-route-2";
  match_type = codes "header";
  path_prefix = [];
  header_name = codes "X-Service";
  header_value = codes "py-web";
  prefix_rewrite = [];
  regex_rewrite = [];
  regex_replacement = [];
  hosts = any_host;
}

abbrev two_patterns : List RoutePattern
two_patterns = rewriting ∷ by_header ∷ []

abbrev behind_two : Dict Text → Dict Text
behind_two (a ∷ b ∷ m) = m
behind_two m = m

-- The written keys, with the first two in the other order.
abbrev shuffled : Dict Text
shuffled =
    (codes "route_1_path_prefix", codes "/api")
    ∷ (codes "route_1_match_type", codes "path")
    ∷ behind_two (written 1 two_patterns)

parse_service_routes-written_example : parse_service_routes (codes "svc") shuffled ≡ two_patterns
unfolding lookup ◌==◌ itoa
parse_service_routes-written_example =
    parse_service_routes-written (codes "svc") two_patterns shuffled (omega arith)
      (refl, refl, (refl, refl, tt))
      (
        refl,
        (
          refl,
          (
            refl,
            (
              refl,
              (refl, (refl, (refl, (refl, (refl, (refl, (refl, (refl, (refl, (refl, tt)))))))))),
            ),
          ),
        ),
      )
      (SameMap-swap (codes "route_1_path_prefix") (codes "route_1_match_type") (codes "/api")
        (codes "path") (behind_two (written 1 two_patterns)) refl)
