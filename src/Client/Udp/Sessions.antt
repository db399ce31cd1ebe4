-- ===== src/Client/Udp/Sessions.antt =====
-- What holds of the table of sessions, and what keeps it.
use cftun.Common.{
  ℕ, ◌≤◌, ◌<◌, ◌≡◌, refl, sym, ◌∙◌, ◌⊎◌, inl, inr, true, false, not, ◌||◌, Option, none, some,
  String, List, [], ◌∷◌, ◌++◌, All, arith, ◌==◌, str_eq, eq_iff, Bool-cases,
}
use mathlib.Core.Bool.{true≢false}
use cftun.Client.Udp.{
  InboundData, Connector, Starter, dialing, created, stored, Listening, waits, loaded, locked,
  sending, holds_mu, Table, set_conn, store,
}

-- All that a connector has to send or has sent came from its source, and a closed queue has a
-- closed connector.
pub record IsOwn (c : Connector) : Type 0 where
  pub queued : All (λ (d : InboundData). d.src ≡ c.src_addr) c.inbound_queue
  pub sent : All (λ (d : InboundData). d.src ≡ c.src_addr) c.written
  pub flagged : not c.queue_closed || c.closed ≡ true

-- A connector that is known under an address is one that was made for it.
abbrev pub Serves : Table → String → ℕ → Type 0
Serves t src id = (id < t.count) × ((t.conn id).src_addr ≡ src)

abbrev pub Keyed : Table → String → Option ℕ → Type 0
Keyed t src none = Unit
Keyed t src (some id) = Serves t src id

abbrev pub Begun : Table → Starter → Type 0
Begun t (dialing d) = Unit
Begun t (created id d) = Serves t d.src id
Begun t (stored id d) = Serves t d.src id

-- The read loop has found a connector of the datagram's source, and sends to it while its queue is
-- open.
abbrev pub Looked : Table → Listening → Type 0
Looked t waits = Unit
Looked t (loaded d id) = Serves t d.src id
Looked t (locked d id) = Serves t d.src id
Looked t (sending d id) = Serves t d.src id × ((t.conn id).queue_closed ≡ false)

pub record IsIsolated (t : Table) : Type 0 where
  pub own : (id : ℕ) → IsOwn (t.conn id)
  pub keyed : (src : String) → Keyed t src (t.udp_conns src)
  pub begun : All (Begun t) t.starters
  pub looked : Looked t t.listening
  pub listening : t.listener_panicked ≡ false

pub All-middle :
    {A : Type 0} (P : A → Type 0) (xs : List A) (x : A) (ys : List A)
    → All P (xs ++ x ∷ ys)
    → All P xs × P x × All P ys
All-middle P [] x ys h = (tt, h.0, h.1)
All-middle P (y ∷ xs) x ys h = let (a, b, c) = All-middle P xs x ys h.1 in ((h.0, a), b, c)

pub All-map :
    {A : Type 0} (P Q : A → Type 0) (xs : List A) → ((x : A) → P x → Q x) → All P xs → All Q xs
All-map P Q [] f h = tt
All-map P Q (x ∷ xs) f h = (f x h.0, All-map P Q xs f h.1)

-- The connectors of a table are those of a later one, with their sources.
abbrev pub Extends : Table → Table → Type 0
Extends t u =
    (t.count ≤ u.count) × ((k : ℕ) → k < t.count → (u.conn k).src_addr ≡ (t.conn k).src_addr)

Serves-Extends :
    (t u : Table) (src : String) (id : ℕ) → Extends t u → Serves t src id → Serves u src id
Serves-Extends t u src id e h = (omega (arith, e.0, h.0), e.1 id h.0 ∙ h.1)

pub Keyed-Extends :
    (t u : Table) (src : String) (o : Option ℕ) → Extends t u → Keyed t src o → Keyed u src o
Keyed-Extends t u src none e h = tt
Keyed-Extends t u src (some id) e h = Serves-Extends t u src id e h

pub Begun-Extends : (t u : Table) (b : Starter) → Extends t u → Begun t b → Begun u b
Begun-Extends t u (dialing d) e h = tt
Begun-Extends t u (created id d) e h = Serves-Extends t u d.src id e h
Begun-Extends t u (stored id d) e h = Serves-Extends t u d.src id e h

-- No queue of a connector whose lock the read loop holds is closed or opened.
abbrev pub Keeps : Table → Table → Type 0
Keeps t u =
    (k : ℕ)
    → k < t.count
    → holds_mu t.listening k ≡ true
    → (u.conn k).queue_closed ≡ (t.conn k).queue_closed

pub Looked-Extends :
    (t u : Table) → Extends t u → Keeps t u → Looked t t.listening → Looked u t.listening
Looked-Extends t u e q h = go t.listening q h
  where
    go :
        (l : Listening)
        → ((k : ℕ)
            → k < t.count
            → holds_mu l k ≡ true
            → (u.conn k).queue_closed ≡ (t.conn k).queue_closed)
        → Looked t l
        → Looked u l
    go waits q h = tt
    go (loaded d id) q h = Serves-Extends t u d.src id e h
    go (locked d id) q h = Serves-Extends t u d.src id e h
    go (sending d id) q h = (Serves-Extends t u d.src id e h.0, q id (h.0).0 (ground arith) ∙ h.1)

-- Replacing a connector by one of the same source.
set_conn-Extends :
    (id : ℕ) (c : Connector) (t : Table)
    → c.src_addr ≡ (t.conn id).src_addr
    → Extends t (set_conn id c t)
set_conn-Extends id c t same = (
  omega arith,
  λ k lt. elim (Bool-cases (k == id)) [
    | inl at ↦ let e : k ≡ id = ground arith in rw (at, e) same
    | inr off ↦ rw off refl
  ],
)

pub set_conn-IsOwn :
    (id : ℕ) (c : Connector) (t : Table)
    → ((k : ℕ) → IsOwn (t.conn k))
    → IsOwn c
    → (k : ℕ) → IsOwn ((set_conn id c t).conn k)
set_conn-IsOwn id c t h own k = elim (Bool-cases (k == id)) [
  | inl at ↦ rw at own
  | inr off ↦ rw off (h k)
]

set_conn-Keeps :
    (id : ℕ) (c : Connector) (t : Table)
    → (c.queue_closed ≡ (t.conn id).queue_closed) ⊎ (holds_mu t.listening id ≡ false)
    → Keeps t (set_conn id c t)
set_conn-Keeps id c t shut k lt held = elim (Bool-cases (k == id)) [
  | inr off ↦ rw off refl
  | inl at ↦
      let e : k ≡ id = ground arith in
      elim shut [
        | inl same ↦ rw (at, e) same
        | inr free ↦ absurd (true≢false (sym held ∙ rw e free))
      ]
]

pub set_conn-IsIsolated :
    (id : ℕ) (c : Connector) (t : Table)
    → IsIsolated t
    → IsOwn c
    → c.src_addr ≡ (t.conn id).src_addr
    → (c.queue_closed ≡ (t.conn id).queue_closed) ⊎ (holds_mu t.listening id ≡ false)
    → IsIsolated (set_conn id c t)
set_conn-IsIsolated id c t h own same shut =
    let u = set_conn id c t in
    let e = set_conn-Extends id c t same in
    record {
      own = set_conn-IsOwn id c t h.own own;
      keyed = λ s. Keyed-Extends t u s (t.udp_conns s) e (h.keyed s);
      begun = All-map (Begun t) (Begun u) t.starters (λ b. Begun-Extends t u b e) h.begun;
      looked = Looked-Extends t u e (set_conn-Keeps id c t shut) h.looked;
      listening = h.listening;
    }

-- Naming a connector that serves the source, or none.
pub store-IsIsolated :
    (src : String) (o : Option ℕ) (t : Table)
    → IsIsolated t
    → Keyed t src o
    → IsIsolated (store src o t)
store-IsIsolated src o t h k = record {
  own = h.own;
  keyed = λ s. elim (Bool-cases (str_eq s src)) [
    | inl at ↦
        let e : s ≡ src = (eq_iff s src).0 at in
        rw (at, e) (Keyed-Extends t (store src o t) src o (omega arith, λ k lt. refl) k)
    | inr off ↦
        rw off (
          Keyed-Extends t (store src o t) s (t.udp_conns s) (omega arith, λ k lt. refl) (h.keyed s))
  ];
  begun =
      All-map (Begun t) (Begun (store src o t)) t.starters
        (λ b. Begun-Extends t (store src o t) b (omega arith, λ k lt. refl)) h.begun;
  looked =
      Looked-Extends t (store src o t) (omega arith, λ k lt. refl) (λ k lt held. refl) h.looked;
  listening = h.listening;
}

-- Other goroutines of starters.
pub starters-IsIsolated :
    (bs : List Starter) (t : Table)
    → IsIsolated t
    → All (Begun t) bs
    → IsIsolated (record t { starters = bs })
starters-IsIsolated bs t h k = record {
  own = h.own;
  keyed = λ s.
      Keyed-Extends t (record t { starters = bs }) s (t.udp_conns s) (omega arith, λ k lt. refl)
        (h.keyed s);
  begun =
      All-map (Begun t) (Begun (record t { starters = bs })) bs
        (λ b. Begun-Extends t (record t { starters = bs }) b (omega arith, λ k lt. refl)) k;
  looked =
      Looked-Extends t (record t { starters = bs }) (omega arith, λ k lt. refl) (λ k lt held. refl)
        h.looked;
  listening = h.listening;
}

-- Another place of the read loop.
pub listening-IsIsolated :
    (l : Listening) (t : Table)
    → IsIsolated t
    → Looked t l
    → IsIsolated (record t { listening = l })
listening-IsIsolated l t h k =
    let u : Table = record t { listening = l } in
    let e : Extends t u = (omega arith, λ k lt. refl) in
    record {
      own = h.own;
      keyed = λ s. Keyed-Extends t u s (t.udp_conns s) e (h.keyed s);
      begun = All-map (Begun t) (Begun u) t.starters (λ b. Begun-Extends t u b e) h.begun;
      looked =
          Looked-Extends (record t { listening = l }) u (omega arith, λ k lt. refl)
            (λ k lt held. refl) (again l k);
      listening = h.listening;
    }
  where
    again : (l' : Listening) → Looked t l' → Looked (record t { listening = l }) l'
    again waits k = tt
    again (loaded d id) k = k
    again (locked d id) k = k
    again (sending d id) k = k
