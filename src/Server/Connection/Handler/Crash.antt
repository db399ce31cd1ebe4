-- ===== src/Server/Connection/Handler/Crash.antt =====
-- When a stream takes the server down.
use cftun.Common.{ℕ, ◌≡◌, ◌≢◌, ◌↔◌, none, String, List, Bytes, length, Result, ok, err, arith}
use cftun.Server.Proxy.{DialError}
use cftun.Server.Stream.Wrappers.{NopCloserReadWriter, nop_read}
use cftun.Server.Stream.Request.{StreamError}
use cftun.Server.Websocket.{Conn}
use cftun.Server.Connection.{Round}
use cftun.Server.Connection.Handler.{crashed, handle_accepted, handle_quic_stream}

module _ {C : Type 0} (ip_string : Bytes → String) (itoa : ℕ → String)
    (attempt : String → String → ℕ → Result DialError C) (size : ℕ) (first : Round)
    (rounds : List Round) (ws : Conn) where
  accepted_is_safe :
      (accepted : Result StreamError (String × String))
      → handle_accepted ip_string itoa attempt size accepted first rounds ws ≢ crashed
  unfolding handle_accepted
  accepted_is_safe (err e) h = cc
  accepted_is_safe (ok (network, address)) h = ground (arith, h)

  -- A stream crashes the server exactly when its first read returns no error and not six bytes.
  pub handle_quic_stream-crashed :
      (np : NopCloserReadWriter) (accepted : Result StreamError (String × String))
      → (handle_quic_stream ip_string itoa attempt size np accepted first rounds ws ≡ crashed)
        ↔ (((nop_read np).1.error ≡ none) × (length (nop_read np).1.bytes ≢ 6))
  unfolding handle_quic_stream
  handle_quic_stream-crashed np accepted =
      (λ h. ground (arith, accepted_is_safe accepted), λ h. ground (arith, h.0, h.1))
