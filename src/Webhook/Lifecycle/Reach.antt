-- ===== src/Webhook/Lifecycle/Reach.antt =====
-- The states that a server can be in: it is made with options for TLS alone, and then started any
-- number of times.
use observability.Base.{
  ◌≡◌, ◌⊎◌, refl, List, [], ◌∷◌, Option, none, some, arith, Text, map, inl, inr,
}
use observability.Webhook.Lifecycle.{
  Server, returns, apply_options, new_server, with_tls_config, mux, start, close, address_of,
}

module _ {Tls : Type 0} where
  pub data Reachable : Server Tls → Type 0 where
    made : (addr : Text) (ts : List Tls) → Reachable (new_server addr (map with_tls_config ts))
    started : {s : Server Tls} (address : Text) → Reachable s → Reachable (start address s)

  -- The listener and the HTTP server are there together, and agree on TLS with the server.
  data Together (s : Server Tls) : Type 0 where
    idle : s.lis ≡ none → s.srv ≡ none → Together s
    running :
        (address : Text)
        → s.lis ≡ some address
        → s.srv ≡ some (record { tls_config = s.tls_config; patterns = mux })
        → Together s

  options-Together :
      (ts : List Tls) (s : Server Tls)
      → s.lis ≡ none
      → s.srv ≡ none
      → Together (apply_options (map with_tls_config ts) s)
  unfolding apply_options with_tls_config
  options-Together [] s h k = idle h k
  options-Together (t ∷ ts) s h k = options-Together ts (with_tls_config t s) h k

  Reachable-Together : (s : Server Tls) → Reachable s → Together s
  unfolding new_server start
  Reachable-Together s (made addr ts) = options-Together ts _ refl refl
  Reachable-Together s (started address h) = running address refl refl

  -- A server that was made with options for TLS and started any number of times has no listener, an
  -- empty address, and a `Close` that returns no error, or it has a listener with the address that
  -- `Addr` gives and an HTTP server with the TLS of the server and the three handlers, and `Close`
  -- returns the error of `Shutdown`, or else that of the listener: no `Close` meets a nil listener.
  pub close-Reachable :
      (shutdown closed : Option Text) (s : Server Tls)
      → Reachable s
      → ((s.lis ≡ none) × (address_of s ≡ []) × (close shutdown closed s ≡ returns none))
        ⊎ ((address : Text) × (s.lis ≡ some address)
            × (address_of s ≡ address)
            × (s.srv ≡ some (record { tls_config = s.tls_config; patterns = mux }))
            × (close shutdown closed s
                ≡ returns (elim shutdown [ none ↦ closed | some e ↦ some e ])))
  unfolding close address_of
  close-Reachable shutdown closed s h = elim (Reachable-Together s h) [
    | idle l k ↦ inl (l, ground arith, ground arith)
    | running address l k ↦ inr (address, l, ground arith, k, ground arith)
  ]
