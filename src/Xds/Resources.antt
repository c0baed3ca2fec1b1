-- ===== src/Xds/Resources.antt =====
-- The messages of go-control-plane that internal/xds/snapshot_manager.go fills in: of each, the
-- fields that it sets, under their names. An `Any` is kept as the message that it was made from.
use flexds.Prelude.{ℕ, ℤ, Bool, Option, List}
use flexds.Strings.{Text}
use flexds.Dict.{Dict}

pub record SocketAddress : Type 0 where
  pub address : Text
  pub port_value : ℕ

pub record LbEndpoint : Type 0 where
  pub address : SocketAddress

-- `endpoints` is a list of localities.
pub record ClusterLoadAssignment : Type 0 where
  pub cluster_name : Text
  pub endpoints : List (List LbEndpoint)

pub data DnsLookupFamily : Type 0 where
  v4_only : DnsLookupFamily

pub record DnsCluster : Type 0 where
  pub dns_lookup_family : DnsLookupFamily
  pub dns_refresh_rate : Option ℤ
  pub respect_dns_ttl : Bool
  pub all_addresses_in_single_endpoint : Bool

pub data TrustChainVerification : Type 0 where
  accept_untrusted : TrustChainVerification

pub record UpstreamTlsContext : Type 0 where
  pub alpn_protocols : List Text
  pub trust_chain_verification : TrustChainVerification

pub data CodecType : Type 0 where
  auto : CodecType

-- The Http2ProtocolOptions are set, and empty; the routes come from the ADS stream.
pub record HttpConnectionManager : Type 0 where
  pub stat_prefix : Text
  pub codec_type : CodecType
  pub route_config_name : Text
  pub http_filter_name : Text
  pub http_filter_type_url : Text

-- `explicit_http2` is HttpProtocolOptions with an explicit, empty Http2ProtocolOptions.
pub data Message : Type 0 where
  dns_cluster : DnsCluster → Message
  explicit_http2 : Message
  tls_context : UpstreamTlsContext → Message
  connection_manager : HttpConnectionManager → Message

pub record TransportSocket : Type 0 where
  pub name : Text
  pub typed_config : Message

pub data LbPolicy : Type 0 where
  round_robin : LbPolicy

-- `connect_timeout` is in nanoseconds.
pub record Cluster : Type 0 where
  pub name : Text
  pub connect_timeout : ℤ
  pub cluster_type_name : Text
  pub cluster_type_config : Message
  pub load_assignment : ClusterLoadAssignment
  pub lb_policy : LbPolicy
  pub typed_extension_protocol_options : Dict Message
  pub transport_socket : Option TransportSocket

pub record RegexMatchAndSubstitute : Type 0 where
  pub regex : Text
  pub substitution : Text

pub record RouteAction : Type 0 where
  pub cluster : Text
  pub regex_rewrite : Option RegexMatchAndSubstitute
  pub prefix_rewrite : Text

pub record HeaderMatcher : Type 0 where
  pub name : Text
  pub exact : Text

pub record RouteMatch : Type 0 where
  pub prefix : Text
  pub headers : List HeaderMatcher

pub record Route : Type 0 where
  pub match : RouteMatch
  pub action : RouteAction

pub record VirtualHost : Type 0 where
  pub name : Text
  pub domains : List Text
  pub routes : List Route

pub record RouteConfiguration : Type 0 where
  pub name : Text
  pub virtual_hosts : List VirtualHost

-- The library's constant wellknown.HTTPConnectionManager, by its name.
pub data FilterName : Type 0 where
  http_connection_manager : FilterName

-- One filter chain with one filter.
pub record Listener : Type 0 where
  pub name : Text
  pub address : SocketAddress
  pub filter_name : FilterName
  pub filter_config : Message

-- The map from resource types to resources that NewSnapshot is given.
pub record Resources : Type 0 where
  pub clusters : List Cluster
  pub endpoints : List ClusterLoadAssignment
  pub routes : List RouteConfiguration
  pub listeners : List Listener

pub record Snapshot : Type 0 where
  pub version : Text
  pub resources : Resources
