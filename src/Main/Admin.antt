-- ===== src/Main/Admin.antt =====
-- cmd/flexds/main.go: the admin server's address and handlers. (That the server calls the handler of a
-- request's path is net/http's part.)
use flexds.Prelude.{ℤ, [], ◌∷◌}
use flexds.Strings.{Text, codes}
use flexds.Dict.{Dict}
use flexds.Xds.Server.Setup.{port_address}

-- promhttp.Handler(), or a function that writes a body.
pub data Handler : Type 0 where
  prometheus : Handler
  writes : Text → Handler

-- The mux, as its entries by path.
abbrev pub mux : Dict Handler
mux = (codes "/metrics", Handler.prometheus) ∷ (codes "/healthz", Handler.writes (codes "ok")) ∷ []

pub record HttpServer : Type 0 where
  pub addr : Text
  pub handler : Dict Handler

abbrev pub admin : ℤ → HttpServer
admin admin_port = record { addr = port_address admin_port; handler = mux }
