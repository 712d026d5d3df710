-- ===== src/Webhook/Lifecycle.antt =====
-- pkg/webhook/server.go: the life of the server. A configuration of TLS is of a type that is a
-- parameter; a listener stands for its address. The sections under the mutex are one step each, and
-- `run` is in two parts: what it does to the server, and what it then serves.
pub mod Reach
use observability.Base.{◌≡◌, List, [], ◌∷◌, Option, none, some, Text, codes}
use observability.GoMap.{GoMap}

pub data Handler : Type 0 where
  health_handler metric_sink_handler log_sink_handler : Handler

-- `http.Server`, with the patterns of its handlers.
pub record HttpServer (Tls : Type 0) : Type 0 where
  pub tls_config : Option Tls
  pub patterns : GoMap Handler

pub record Server (Tls : Type 0) : Type 0 where
  pub lis : Option Text
  pub srv : Option (HttpServer Tls)
  pub addr : Text
  pub tls_config : Option Tls

-- What `run` calls at its end.
pub data Serve : Type 0 where
  serve_tls : Text → Serve
  serve : Text → Serve

-- What `Close` comes to: its error, with `none` for `nil`, or the panic on a nil listener.
pub data Closed : Type 0 where
  returns : Option Text → Closed
  panics : Closed

abbrev pub mux : GoMap Handler
mux =
    (codes "/health", health_handler)
    ∷ (codes "/metricsink", metric_sink_handler)
    ∷ (codes "/logsink", log_sink_handler)
    ∷ []

module _ {Tls : Type 0} where
  unfoldable pub apply_options : List (Server Tls → Server Tls) → Server Tls → Server Tls
  apply_options [] s = s
  apply_options (o ∷ os) s = apply_options os (o s)

  unfoldable pub new_server : Text → List (Server Tls → Server Tls) → Server Tls
  unfolding apply_options
  new_server addr options =
      apply_options options (record { lis = none; srv = none; addr = addr; tls_config = none })

  unfoldable pub with_tls_config : Tls → Server Tls → Server Tls
  with_tls_config t s = record s { tls_config = some t }

  -- `run`, with a listener at the given address.
  unfoldable pub start : Text → Server Tls → Server Tls
  start address s = record s {
    lis = some address;
    srv = some (record { tls_config = s.tls_config; patterns = mux });
  }

  -- What is served; without TLS no certificate is needed.
  unfoldable pub serve_on : Text → Server Tls → Serve
  serve_on address s = elim s.tls_config [ none ↦ serve address | some t ↦ serve_tls address ]

  -- `Close`; the arguments are the errors of `Shutdown` and of the listener's `Close`.
  unfoldable pub close : Option Text → Option Text → Server Tls → Closed
  close shutdown closed s = elim s.srv [
    | none ↦ returns none
    | some srv ↦ elim shutdown [
      | some e ↦ returns (some e)
      | none ↦ elim s.lis [ none ↦ panics | some address ↦ returns closed ]
    ]
  ]

  -- `Addr`.
  unfoldable pub address_of : Server Tls → Text
  address_of s = elim s.lis [ none ↦ [] | some address ↦ address ]
