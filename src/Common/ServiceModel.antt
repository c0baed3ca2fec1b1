-- ===== src/Common/ServiceModel.antt =====
-- internal/common/types/service_model.go
use flexds.Prelude.{ℤ, Bool, List, [], ◌∷◌}
use flexds.Strings.{Text, codes}

pub record ServiceInstance : Type 0 where
  pub address : Text
  pub port : ℤ

pub record RoutePattern : Type 0 where
  pub name : Text
  pub match_type : Text
  pub path_prefix : Text
  pub header_name : Text
  pub header_value : Text
  pub prefix_rewrite : Text
  pub regex_rewrite : Text
  pub regex_replacement : Text
  pub hosts : List Text

-- `dns_refresh_rate` is a time.Duration, in nanoseconds.
pub record DiscoveredService : Type 0 where
  pub name : Text
  pub enable_http2 : Bool
  pub enable_tls : Bool
  pub dns_refresh_rate : ℤ
  pub instances : List ServiceInstance
  pub routes : List RoutePattern

-- `[]string{"*"}`
abbrev pub any_host : List Text
any_host = codes "*" ∷ []
