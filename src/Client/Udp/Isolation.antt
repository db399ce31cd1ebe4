-- ===== src/Client/Udp/Isolation.antt =====
-- A session carries the datagrams of its own source, and the listener outlives it.
use cftun.Common.{
  All-append, ℕ, ◌+◌, ◌≡◌, refl, sym, ◌∙◌, inl, inr, true, false, none, some, String, List, [], ◌∷◌,
  ◌++◌, All, Bytes, arith, ◌==◌,
}
use mathlib.Core.Bool.{true≢false}
use cftun.Client.Udp.{
  InboundData, Connector, new_conn, Starter, dialing, created, stored, Table, waits, loaded, locked,
  sending, new_table, set_conn, enqueue, Step, listen_load, listen_lock, listen_drop, listen_pass,
  listen_queue, listen_panic, listen_new, start_failed, start_conn, start_store, start_send,
  start_panic, inbound_write, health_close, health_delete, remote_read, remote_fail, remote_delete,
  remote_exit, outbound_take, outbound_write, Reach, here, next,
}
use cftun.Client.Udp.Sessions.{
  IsOwn, Keyed, Begun, IsIsolated, All-middle, All-map, Extends, Begun-Extends, Keyed-Extends,
  set_conn-IsOwn, set_conn-IsIsolated, store-IsIsolated, starters-IsIsolated, listening-IsIsolated,
  Looked-Extends, Serves,
}

IsOwn-enqueue :
    (d : InboundData) (c : Connector) → IsOwn c → d.src ≡ c.src_addr → IsOwn (enqueue d c)
IsOwn-enqueue d c h e = record {
  queued =
      All-append (λ (x : InboundData). x.src ≡ c.src_addr) c.inbound_queue (d ∷ []) h.queued
        (e, tt);
  sent = h.sent;
  flagged = h.flagged;
}

IsOwn-new_conn : (src : String) → IsOwn (new_conn src)
IsOwn-new_conn src = record { queued = tt; sent = tt; flagged = refl }

IsOwn-write :
    (c : Connector) (d : InboundData) (rest : List InboundData)
    → IsOwn c
    → c.inbound_queue ≡ d ∷ rest
    → IsOwn (record c { inbound_queue = rest; written = c.written ++ d ∷ [] })
IsOwn-write c d rest h e =
    let all : All (λ (x : InboundData). x.src ≡ c.src_addr) (d ∷ rest) = rw e at h.queued in
    record {
      queued = all.1;
      sent =
          All-append (λ (x : InboundData). x.src ≡ c.src_addr) c.written (d ∷ []) h.sent
            (all.0, tt);
      flagged = h.flagged;
    }

-- The table with a new connector.
start_conn-IsIsolated :
    (d : InboundData) (before after : List Starter) (t : Table)
    → IsIsolated t
    → All (Begun t) before
    → All (Begun t) after
    → IsIsolated (
        set_conn t.count
          (new_conn d.src)
          (record t { count = t.count + 1; starters = before ++ created t.count d ∷ after }))
start_conn-IsIsolated d before after t h b a =
    let u =
      set_conn t.count (new_conn d.src)
        (record t { count = t.count + 1; starters = before ++ created t.count d ∷ after }) in
    let e : Extends t u =
      (omega arith, λ k lt. let off : (k == t.count) ≡ false = ground arith in rw off refl) in
    let kept = λ (bs : List Starter). All-map (Begun t) (Begun u) bs (λ b. Begun-Extends t u b e) in
    record {
      own = set_conn-IsOwn t.count (new_conn d.src) t h.own (IsOwn-new_conn d.src);
      keyed = λ s. Keyed-Extends t u s (t.udp_conns s) e (h.keyed s);
      begun = All-append (Begun u) before (created t.count d ∷ after) (kept before b) (
        (omega arith, (let at : (t.count == t.count) ≡ true = ground arith in rw at refl)),
        kept after a,
      );
      looked =
          Looked-Extends t u e
            (λ k lt held. let off : (k == t.count) ≡ false = ground arith in rw off refl) h.looked;
      listening = h.listening;
    }

-- Other replies.
queue-IsIsolated :
    (q g r : List (String × Bytes)) (t : Table)
    → IsIsolated t
    → IsIsolated (record t { outbound_queue = q; sending = g; replies = r })
queue-IsIsolated q g r t h = record {
  own = h.own;
  keyed = λ s.
      Keyed-Extends t (record t { outbound_queue = q; sending = g; replies = r }) s (t.udp_conns s)
        (omega arith, λ k lt. refl) (h.keyed s);
  begun =
      All-map (Begun t) (Begun (record t { outbound_queue = q; sending = g; replies = r }))
        t.starters
        (λ b.
          Begun-Extends t (record t { outbound_queue = q; sending = g; replies = r }) b
            (omega arith, λ k lt. refl))
        h.begun;
  looked =
      Looked-Extends t (record t { outbound_queue = q; sending = g; replies = r })
        (omega arith, λ k lt. refl) (λ k lt held. refl) h.looked;
  listening = h.listening;
}

Step-IsIsolated : {t u : Table} → Step t u → IsIsolated t → IsIsolated u
Step-IsIsolated {t} (listen_load d id l e) h =
    listening-IsIsolated (loaded d id) t h (rw e at (h.keyed d.src))
Step-IsIsolated {t} (listen_lock d id e) h =
    listening-IsIsolated (locked d id) t h (rw e at h.looked)
Step-IsIsolated {t} (listen_drop d id e c) h = listening-IsIsolated waits t h tt
Step-IsIsolated {t} (listen_pass d id e c) h =
    listening-IsIsolated (sending d id) t h
      (rw e at h.looked, ground (arith, (h.own id).flagged, c))
Step-IsIsolated {t} (listen_queue d id e q room) h =
    let found : Serves t d.src id × ((t.conn id).queue_closed ≡ false) = rw e at h.looked in
    set_conn-IsIsolated id (enqueue d (t.conn id)) (record t { listening = waits })
      (listening-IsIsolated waits t h tt) (IsOwn-enqueue d (t.conn id) (h.own id) (sym (found.0).1))
      refl (inl refl)
Step-IsIsolated {t} (listen_panic d id e q) h =
    let found : Serves t d.src id × ((t.conn id).queue_closed ≡ false) = rw e at h.looked in
    absurd (true≢false (sym q ∙ found.1))
Step-IsIsolated {t} (listen_new d l e) h =
    starters-IsIsolated (dialing d ∷ t.starters) t h (tt, h.begun)
Step-IsIsolated {t} (start_failed d before after e) h =
    let (b, x, a) = All-middle (Begun t) before (dialing d) after (rw e at h.begun) in
    starters-IsIsolated (before ++ after) t h (All-append (Begun t) before after b a)
Step-IsIsolated {t} (start_conn d before after e) h =
    let (b, x, a) = All-middle (Begun t) before (dialing d) after (rw e at h.begun) in
    start_conn-IsIsolated d before after t h b a
Step-IsIsolated {t} (start_store id d before after e) h =
    let (b, x, a) = All-middle (Begun t) before (created id d) after (rw e at h.begun) in
    let bs = before ++ stored id d ∷ after in
    store-IsIsolated d.src (some id) (record t { starters = bs })
      (starters-IsIsolated bs t h (All-append (Begun t) before (stored id d ∷ after) b (x, a))) x
Step-IsIsolated {t} (start_send id d before after e q room) h =
    let (b, x, a) = All-middle (Begun t) before (stored id d) after (rw e at h.begun) in
    set_conn-IsIsolated id (enqueue d (t.conn id)) (record t { starters = before ++ after })
      (starters-IsIsolated (before ++ after) t h (All-append (Begun t) before after b a))
      (IsOwn-enqueue d (t.conn id) (h.own id) (sym x.1)) refl (inl refl)
Step-IsIsolated (start_panic id d before after e q) h = record {
  own = h.own;
  keyed = h.keyed;
  begun = h.begun;
  looked = h.looked;
  listening = h.listening;
}
Step-IsIsolated {t} (inbound_write id d rest e) h =
    set_conn-IsIsolated id _ t h (IsOwn-write (t.conn id) d rest (h.own id) e) refl (inl refl)
Step-IsIsolated {t} (health_close id lt mu e) h =
    set_conn-IsIsolated id _ t h
      (record { queued = (h.own id).queued; sent = (h.own id).sent; flagged = refl }) refl (inr mu)
Step-IsIsolated {t} (health_delete id e) h =
    store-IsIsolated (t.conn id).src_addr none _
      (set_conn-IsIsolated id _ t h
        (record {
          queued = (h.own id).queued;
          sent = (h.own id).sent;
          flagged = (h.own id).flagged;
        })
        refl (inl refl))
      tt
Step-IsIsolated {t} (remote_read id buf lt e room) h =
    set_conn-IsIsolated id _ _
      (queue-IsIsolated (t.outbound_queue ++ ((t.conn id).src_addr, buf) ∷ []) t.sending t.replies t
        h)
      (record { queued = (h.own id).queued; sent = (h.own id).sent; flagged = (h.own id).flagged })
      refl (inl refl)
Step-IsIsolated {t} (remote_fail id lt e) h =
    set_conn-IsIsolated id _ t h
      (record { queued = (h.own id).queued; sent = (h.own id).sent; flagged = ground arith }) refl
      (inl refl)
Step-IsIsolated {t} (remote_delete id e) h =
    store-IsIsolated (t.conn id).src_addr none _
      (set_conn-IsIsolated id _ t h
        (record {
          queued = (h.own id).queued;
          sent = (h.own id).sent;
          flagged = (h.own id).flagged;
        })
        refl (inl refl))
      tt
Step-IsIsolated {t} (remote_exit id c e) h =
    set_conn-IsIsolated id _ t h
      (record { queued = (h.own id).queued; sent = (h.own id).sent; flagged = (h.own id).flagged })
      refl (inl refl)
Step-IsIsolated {t} (outbound_take reply rest e) h =
    queue-IsIsolated rest (t.sending ++ reply ∷ []) t.replies t h
Step-IsIsolated {t} (outbound_write reply before after e) h =
    queue-IsIsolated t.outbound_queue (before ++ after) (t.replies ++ reply ∷ []) t h

new_table-IsIsolated : IsIsolated new_table
new_table-IsIsolated = record {
  own = λ id. IsOwn-new_conn "";
  keyed = λ s. tt;
  begun = tt;
  looked = tt;
  listening = refl;
}

Reach-IsIsolated : {t u : Table} → IsIsolated t → Reach t u → IsIsolated u
Reach-IsIsolated h here = h
Reach-IsIsolated h (next r step) = Step-IsIsolated step (Reach-IsIsolated h r)

-- However the goroutines interleave, what a connector has queued or written to the remote came from
-- the one source that it was made for, and that is the source under which the listener finds it.
pub sessions_isolated :
    {t : Table}
    → Reach new_table t
    → (id : ℕ) (src : String)
    → All
        (λ (d : InboundData). d.src ≡ (t.conn id).src_addr)
        ((t.conn id).written ++ (t.conn id).inbound_queue)
      × Keyed t src (t.udp_conns src)
sessions_isolated {t} r id src =
    let h = Reach-IsIsolated new_table-IsIsolated r in
    (
      All-append (λ (d : InboundData). d.src ≡ (t.conn id).src_addr) (t.conn id).written
          (t.conn id).inbound_queue (h.own id).sent (h.own id).queued,
      h.keyed src,
    )

-- The read loop of the listener never sends on a closed queue.
pub listener_never_panics : {t : Table} → Reach new_table t → t.listener_panicked ≡ false
listener_never_panics r = (Reach-IsIsolated new_table-IsIsolated r).listening
