-- ===== src/Client/Udp.antt =====
-- client/udp.go: the sessions of a UDP listener as a step relation. The read loop of `UdpListen`,
-- the goroutines that it starts for new sources, and the three goroutines of each connector
-- interleave. The sockets and the clock are the environment: a step may happen whenever its guard
-- holds.
pub mod Idle
pub mod Sessions
pub mod Isolation
pub mod Replies
use cftun.Common.{
  ℕ, ◌+◌, ◌*◌, ◌<◌, ◌≡◌, Bool, true, false, Option, none, some, String, List, [], ◌∷◌, ◌++◌, Bytes,
  length, ◌==◌, str_eq, if◌then◌else◌,
}

-- InboundQueueSize
abbrev pub inbound_queue_size : ℕ
inbound_queue_size = 1024

-- OutboundQueueSize
abbrev pub outbound_queue_size : ℕ
outbound_queue_size = 65536

-- A datagram with the address that it came from, as `srcAddr.String()` prints it.
pub record InboundData : Type 0 where
  pub src : String
  pub buf : Bytes

-- Where `healthCheck` stands: it closes the queue under the lock, and then deletes the session.
pub data Health : Type 0 where
  waiting deleting over : Health

-- Where `handleRemote` stands.
pub data Remote : Type 0 where
  reading failing ended : Remote

pub record Connector : Type 0 where
  pub src_addr : String
  pub closed : Bool
  pub inbound_queue : List InboundData
  pub queue_closed : Bool
  -- what was written to the remote, and what it sent
  pub written : List InboundData
  pub received : List Bytes
  pub health : Health
  pub remote : Remote

-- `NewConn`
abbrev pub new_conn : String → Connector
new_conn src = record {
  src_addr = src;
  closed = false;
  inbound_queue = [];
  queue_closed = false;
  written = [];
  received = [];
  health = waiting;
  remote = reading;
}

-- A goroutine that opens a session for a datagram: before `NewConn`, before `Store`, before the
-- send.
pub data Starter : Type 0 where
  dialing : InboundData → Starter
  created stored : ℕ → InboundData → Starter

-- Where the read loop of `UdpListen` stands, with the datagram and the connector that `Load` found: at
-- the next datagram, before `Lock`, at the test of `closed` and at the send, both with the lock held.
-- `healthCheck` takes the lock too, and holds it within one step only.
pub data Listening : Type 0 where
  waits : Listening
  loaded locked sending : InboundData → ℕ → Listening

-- Whether the loop holds the lock of a connector.
abbrev pub holds_mu : Listening → ℕ → Bool
holds_mu (locked d id) k = id == k
holds_mu (sending d id) k = id == k
holds_mu l k = false

pub record Table : Type 0 where
  pub count : ℕ
  pub conn : ℕ → Connector
  pub udp_conns : String → Option ℕ
  pub starters : List Starter
  -- replies with the address that they go to: in the queue, received from it by a goroutine of
  -- processOutboundQueue, and written to the listener
  pub outbound_queue : List (String × Bytes)
  pub sending : List (String × Bytes)
  pub replies : List (String × Bytes)
  pub listening : Listening
  pub listener_panicked : Bool
  pub starter_panicked : Bool

abbrev pub new_table : Table
new_table = record {
  count = 0;
  conn = λ k. new_conn "";
  udp_conns = λ s. none;
  starters = [];
  outbound_queue = [];
  sending = [];
  replies = [];
  listening = waits;
  listener_panicked = false;
  starter_panicked = false;
}

abbrev pub set_conn : ℕ → Connector → Table → Table
set_conn id c t = record t { conn = λ k. if k == id then c else t.conn k }

abbrev pub store : String → Option ℕ → Table → Table
store src entry t = record t { udp_conns = λ s. if str_eq s src then entry else t.udp_conns s }

abbrev pub enqueue : InboundData → Connector → Connector
enqueue d c = record c { inbound_queue = c.inbound_queue ++ d ∷ [] }

pub data Step (t : Table) : Table → Type 0 where
  -- the loop of UdpListen
  listen_load :
      (d : InboundData) (id : ℕ)
      → t.listening ≡ waits
      → t.udp_conns d.src ≡ some id
      → Step t (record t { listening = loaded d id })
  listen_lock :
      (d : InboundData) (id : ℕ)
      → t.listening ≡ loaded d id
      → Step t (record t { listening = locked d id })
  listen_drop :
      (d : InboundData) (id : ℕ)
      → t.listening ≡ locked d id
      → (t.conn id).closed ≡ true
      → Step t (record t { listening = waits })
  listen_pass :
      (d : InboundData) (id : ℕ)
      → t.listening ≡ locked d id
      → (t.conn id).closed ≡ false
      → Step t (record t { listening = sending d id })
  listen_queue :
      (d : InboundData) (id : ℕ)
      → t.listening ≡ sending d id
      → (t.conn id).queue_closed ≡ false
      → length (t.conn id).inbound_queue < inbound_queue_size
      → Step t (set_conn id (enqueue d (t.conn id)) (record t { listening = waits }))
  listen_panic :
      (d : InboundData) (id : ℕ)
      → t.listening ≡ sending d id
      → (t.conn id).queue_closed ≡ true
      → Step t (record t { listener_panicked = true })
  listen_new :
      (d : InboundData)
      → t.listening ≡ waits
      → t.udp_conns d.src ≡ none
      → Step t (record t { starters = dialing d ∷ t.starters })
  -- a starter
  start_failed :
      (d : InboundData) (before after : List Starter)
      → t.starters ≡ before ++ dialing d ∷ after
      → Step t (record t { starters = before ++ after })
  start_conn :
      (d : InboundData) (before after : List Starter)
      → t.starters ≡ before ++ dialing d ∷ after
      → Step t (
          set_conn t.count
            (new_conn d.src)
            (record t { count = t.count + 1; starters = before ++ created t.count d ∷ after }))
  start_store :
      (id : ℕ) (d : InboundData) (before after : List Starter)
      → t.starters ≡ before ++ created id d ∷ after
      → Step t (store d.src (some id) (record t { starters = before ++ stored id d ∷ after }))
  start_send :
      (id : ℕ) (d : InboundData) (before after : List Starter)
      → t.starters ≡ before ++ stored id d ∷ after
      → (t.conn id).queue_closed ≡ false
      → length (t.conn id).inbound_queue < inbound_queue_size
      → Step t (set_conn id (enqueue d (t.conn id)) (record t { starters = before ++ after }))
  start_panic :
      (id : ℕ) (d : InboundData) (before after : List Starter)
      → t.starters ≡ before ++ stored id d ∷ after
      → (t.conn id).queue_closed ≡ true
      → Step t (record t { starter_panicked = true })
  -- processInboundQueue: the result of the write is ignored
  inbound_write :
      (id : ℕ) (d : InboundData) (rest : List InboundData)
      → (t.conn id).inbound_queue ≡ d ∷ rest
      → Step t (
          set_conn id
            (record (t.conn id) { inbound_queue = rest; written = (t.conn id).written ++ d ∷ [] })
            t)
  -- healthCheck
  health_close :
      (id : ℕ)
      → id < t.count
      → holds_mu t.listening id ≡ false
      → (t.conn id).health ≡ waiting
      → Step t (
          set_conn id
            (record (t.conn id) { closed = true; queue_closed = true; health = deleting })
            t)
  health_delete :
      (id : ℕ)
      → (t.conn id).health ≡ deleting
      → Step t
          (store (t.conn id).src_addr none (set_conn id (record (t.conn id) { health = over }) t))
  -- handleRemote
  remote_read :
      (id : ℕ) (buf : Bytes)
      → id < t.count
      → (t.conn id).remote ≡ reading
      → length t.outbound_queue < outbound_queue_size
      → Step t (
          set_conn id
            (record (t.conn id) { received = (t.conn id).received ++ buf ∷ [] })
            (record t { outbound_queue = t.outbound_queue ++ ((t.conn id).src_addr, buf) ∷ [] }))
  remote_fail :
      (id : ℕ)
      → id < t.count
      → (t.conn id).remote ≡ reading
      → Step t (set_conn id (record (t.conn id) { closed = true; remote = failing }) t)
  remote_delete :
      (id : ℕ)
      → (t.conn id).remote ≡ failing
      → Step t
          (store (t.conn id).src_addr none (set_conn id (record (t.conn id) { remote = ended }) t))
  remote_exit :
      (id : ℕ)
      → (t.conn id).closed ≡ true
      → (t.conn id).remote ≡ reading
      → Step t (set_conn id (record (t.conn id) { remote = ended }) t)
  -- processOutboundQueue, which runs in several goroutines: the result of the write is only logged
  outbound_take :
      (reply : String × Bytes) (rest : List (String × Bytes))
      → t.outbound_queue ≡ reply ∷ rest
      → Step t (record t { outbound_queue = rest; sending = t.sending ++ reply ∷ [] })
  outbound_write :
      (reply : String × Bytes) (before after : List (String × Bytes))
      → t.sending ≡ before ++ reply ∷ after
      → Step t (record t { sending = before ++ after; replies = t.replies ++ reply ∷ [] })

pub data Reach (t : Table) : Table → Type 0 where
  here : Reach t t
  next : {u v : Table} → Reach t u → Step u v → Reach t v
