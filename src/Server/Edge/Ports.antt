-- ===== src/Server/Edge/Ports.antt =====
-- Which address and which port a connection gets.
use mathlib.Core.Path.{subst}
use cftun.Common.{
  ℕ, ◌≡◌, ◌≢◌, refl, ap, sym, ◌∙◌, ◌⊎◌, inl, inr, Bool, true, false, Option, none, some, String,
  List, [], ◌∷◌, arith, ◌==◌, Option-cases,
}
use cftun.Server.Edge.{
  EdgeTunnelServer, resolve, edge_address, get_edge_ip, PortMap, set_port, listen_any,
  create_udp_conn, ListenNetwork, listen_network,
}

resolve_known :
    (later : String → Option (List String)) (ips : List String) → ips ≢ [] → resolve later ips ≡ ips
resolve_known later [] h = absurd (h refl)
resolve_known later (ip ∷ ips) h = refl

module _ {A : Type 0} (itoa : ℕ → String) (parse : String → A) where
  empty_queue :
      (lookup_host : String → Option (List String)) (e : EdgeTunnelServer A) (index : ℕ)
      → e.edge_ips ≡ []
      → get_edge_ip itoa parse lookup_host e index ≡ (
        record e { ns_result = resolve lookup_host e.ns_result },
        parse (edge_address itoa (resolve lookup_host e.ns_result) index),
      )
  unfolding get_edge_ip
  empty_queue lookup_host e index empty = rw empty refl

  known_queue :
      (later : String → Option (List String)) (e : EdgeTunnelServer A) (ips : List String)
      (index : ℕ)
      → e.edge_ips ≡ []
      → ips ≢ []
      → get_edge_ip itoa parse later (record e { ns_result = ips }) index
        ≡ (record e { ns_result = ips }, parse (edge_address itoa ips index))
  known_queue later e ips index empty known =
      empty_queue later (record e { ns_result = ips }) index empty
      ∙ ap (λ (l : List String). (record e { ns_result = l }, parse (edge_address itoa l index)))
          (resolve_known later ips known)

  -- Once addresses are known, the resolver is not asked again: whatever it would answer, an index
  -- gets the same address at every later call, and no call changes the state, while the queue is
  -- empty.
  pub get_edge_ip-again :
      (lookup_host later : String → Option (List String)) (e : EdgeTunnelServer A) (index other : ℕ)
      → e.edge_ips ≡ []
      → resolve lookup_host e.ns_result ≢ []
      → let now = get_edge_ip itoa parse lookup_host e index in
        (get_edge_ip itoa parse later now.0 index ≡ now)
        × ((get_edge_ip itoa parse later now.0 other).0 ≡ now.0)
  get_edge_ip-again lookup_host later e index other empty known =
      let ips = resolve lookup_host e.ns_result in
      rw (empty_queue lookup_host e index empty) (
        known_queue later e ips index empty known,
        ap (λ (r : EdgeTunnelServer A × A). r.0) (known_queue later e ips other empty known),
      )

module _ {C : Type 0} (listen : ListenNetwork → ℕ → Option C) (local_port : C → Option ℕ)
    (network : ListenNetwork) (index : ℕ) (m : PortMap) where
  -- What a call leaves remembered: the port that it opened again, or the port of the socket that it
  -- opened anew; and where it returns nothing, no port for the index or what there was.
  abbrev pub Remembers : PortMap × Option C → Type 0
  Remembers (m', none) = (m' index ≡ none) ⊎ (m' ≡ m)
  Remembers (m', some c) =
      ((port : ℕ) × (m index ≡ some port) × (listen network port ≡ some c) × (m' ≡ m))
      ⊎ ((listen network 0 ≡ some c) × (m' index ≡ local_port c))

  set_port_at : (o : Option ℕ) → set_port index o m index ≡ o
  set_port_at o = let at : (index == index) ≡ true = ground arith in rw at refl

  set_port_off : (o : Option ℕ) (k : ℕ) → k ≢ index → set_port index o m k ≡ m k
  set_port_off o k h = let off : (k == index) ≡ false = ground (arith, h) in rw off refl

  any_none :
      listen network 0 ≡ none
      → listen_any listen local_port network index m ≡ (set_port index none m, none)
  unfolding listen_any
  any_none e = rw (e, listen_any) refl

  any_lost :
      (c : C)
      → listen network 0 ≡ some c
      → local_port c ≡ none
      → listen_any listen local_port network index m ≡ (m, none)
  unfolding listen_any
  any_lost c e f = rw (e, f, listen_any) refl

  any_some :
      (c : C) (port : ℕ)
      → listen network 0 ≡ some c
      → local_port c ≡ some port
      → listen_any listen local_port network index m ≡ (set_port index (some port) m, some c)
  unfolding listen_any
  any_some c port e f = rw (e, f, listen_any) refl

  -- A result keeps the entry of another index.
  abbrev Keeps : ℕ → PortMap × Option C → Type 0
  Keeps k r = Remembers r × (r.0 k ≡ m k)

  any-Keeps : (k : ℕ) → k ≢ index → Keeps k (listen_any listen local_port network index m)
  any-Keeps k h = elim (Option-cases (listen network 0)) [
    | inl e ↦ subst (Keeps k) (sym (any_none e)) (inl (set_port_at none), set_port_off none k h)
    | inr (c, e) ↦ elim (Option-cases (local_port c)) [
      | inl bad ↦ subst (Keeps k) (sym (any_lost c e bad)) (inr refl, refl)
      | inr (port, good) ↦
          subst (Keeps k) (sym (any_some c port e good))
            (inr (e, (set_port_at (some port) ∙ sym good)), set_port_off (some port) k h)
    ]
  ]

module _ {C : Type 0} (listen : ListenNetwork → ℕ → Option C) (local_port : C → Option ℕ) where
  remembered_fails :
      (darwin is4 : Bool) (index port : ℕ) (m : PortMap)
      → m index ≡ some port
      → listen (listen_network darwin is4) port ≡ none
      → create_udp_conn listen local_port darwin is4 index m
        ≡ listen_any listen local_port (listen_network darwin is4) index m
  unfolding create_udp_conn
  remembered_fails darwin is4 index port m e f = rw (e, f, create_udp_conn) refl

  remembered_opens :
      (darwin is4 : Bool) (index port : ℕ) (m : PortMap) (c : C)
      → m index ≡ some port
      → listen (listen_network darwin is4) port ≡ some c
      → create_udp_conn listen local_port darwin is4 index m ≡ (m, some c)
  unfolding create_udp_conn
  remembered_opens darwin is4 index port m c e f = rw (e, f, create_udp_conn) refl

  not_remembered :
      (darwin is4 : Bool) (index : ℕ) (m : PortMap)
      → m index ≡ none
      → create_udp_conn listen local_port darwin is4 index m
        ≡ listen_any listen local_port (listen_network darwin is4) index m
  unfolding create_udp_conn
  not_remembered darwin is4 index m e = rw (e, create_udp_conn) refl

  -- The connection that is returned has the port that is remembered for its index: the one of
  -- before, which was opened again, or that of a new socket. Where none is returned, none is
  -- remembered or nothing changes. No other index is touched.
  pub create_udp_conn-Remembers :
      (darwin is4 : Bool) (index k : ℕ) (m : PortMap)
      → k ≢ index
      → let r = create_udp_conn listen local_port darwin is4 index m in
        Remembers listen local_port (listen_network darwin is4) index m r × (r.0 k ≡ m k)
  create_udp_conn-Remembers darwin is4 index k m h =
      let network = listen_network darwin is4 in
      let any = any-Keeps listen local_port network index m k h in
      let keeps = Keeps listen local_port network index m k in
      elim (Option-cases (m index)) [
        | inl e ↦ subst keeps (sym (not_remembered darwin is4 index m e)) any
        | inr (port, e) ↦ elim (Option-cases (listen network port)) [
          | inl bad ↦ subst keeps (sym (remembered_fails darwin is4 index port m e bad)) any
          | inr (c, good) ↦
              subst keeps (sym (remembered_opens darwin is4 index port m c e good))
                (inl (port, e, good, refl), refl)
        ]
      ]
