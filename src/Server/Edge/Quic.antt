-- ===== src/Server/Edge/Quic.antt =====
-- `DialQuic` and wrapConn of server/cfd/quic.go: a QUIC connection over a socket of its own. quic-go is
-- a parameter: what its dial over a socket answers.
use cftun.Common.{
  ℕ, ◌≡◌, refl, inl, inr, Bool, Option, none, some, String, List, [], ◌∷◌, ◌++◌, Result, ok, err,
  Result-cases,
}
use cftun.Server.Edge.{PortMap, ListenNetwork, create_udp_conn}

-- What is closed.
pub data Event (C Q : Type 0) : Type 0 where
  udp_closed : C → Event C Q
  quic_closed : Q → Event C Q

pub record WrapConn (C Q : Type 0) : Type 0 where
  pub connection : Q
  pub udp_conn : C

abbrev pub to_list : {C : Type 0} → Option C → List C
to_list none = []
to_list (some c) = c ∷ []

module _ {C Q : Type 0} where
  unfoldable pub close_with_error : WrapConn C Q → List (Event C Q)
  close_with_error w = quic_closed w.connection ∷ udp_closed w.udp_conn ∷ []

  unfoldable pub over_socket : C → Result String Q → List (Event C Q) × Result String (WrapConn C Q)
  over_socket udp (err e) = (udp_closed udp ∷ [], err e)
  over_socket udp (ok conn) = ([], ok (record { connection = conn; udp_conn = udp }))

  -- What follows the socket; the text of its error is left out.
  unfoldable pub with_socket :
      (C → Result String Q) → Option C → List (Event C Q) × Result String (WrapConn C Q)
  unfolding over_socket
  with_socket dial none = ([], err "failed to listen")
  with_socket dial (some udp) = over_socket udp (dial udp)

  unfoldable pub dial_quic :
      (ListenNetwork → ℕ → Option C)
      → (C → Option ℕ)
      → (C → Result String Q)
      → Bool
      → Bool
      → ℕ
      → PortMap
      → PortMap × (List (Event C Q) × Result String (WrapConn C Q))
  unfolding with_socket
  dial_quic listen local_port dial darwin is4 index m =
      let (m', udp) = create_udp_conn listen local_port darwin is4 index m in
      (m', with_socket dial udp)

  -- What is closed over the life of a connection that was dialed, and then closed if there is one.
  abbrev pub life : List (Event C Q) × Result String (WrapConn C Q) → List (Event C Q)
  life (events, err e) = events
  life (events, ok w) = events ++ close_with_error w

  -- The sockets that are closed.
  pub sockets : List (Event C Q) → List C
  sockets [] = []
  sockets (udp_closed c ∷ rest) = c ∷ sockets rest
  sockets (quic_closed q ∷ rest) = sockets rest

  with_socket-life :
      (dial : C → Result String Q) (udp : Option C)
      → sockets (life (with_socket dial udp)) ≡ to_list udp
  unfolding with_socket over_socket sockets close_with_error
  with_socket-life dial none = refl
  with_socket-life dial (some udp) = elim (Result-cases (dial udp)) [
    | inl (q, e) ↦ rw e
    | inr (e', e) ↦ rw e
  ]

  -- The socket that is made for a connection is closed exactly once: by DialQuic where the dial over
  -- it fails, and else when the connection is closed. Where there is no socket, none is closed.
  pub dial_quic-closes :
      (listen : ListenNetwork → ℕ → Option C) (local_port : C → Option ℕ)
      (dial : C → Result String Q) (darwin is4 : Bool) (index : ℕ) (m : PortMap)
      → sockets (life (dial_quic listen local_port dial darwin is4 index m).1)
        ≡ to_list (create_udp_conn listen local_port darwin is4 index m).1
  unfolding dial_quic
  dial_quic-closes listen local_port dial darwin is4 index m =
      with_socket-life dial (create_udp_conn listen local_port darwin is4 index m).1
