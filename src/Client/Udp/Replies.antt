-- ===== src/Client/Udp/Replies.antt =====
-- Replies go back to the source whose session they came from.
use cftun.Common.{
  ℕ, ◌+◌, ◌<◌, ◌≤◌, ◌≡◌, refl, sym, ◌∙◌, true, false, Bool-cases, inl, inr, String, List, [], ◌∷◌,
  ◌++◌, append-nil, append_assoc, All, All-append, Bytes, arith, ◌==◌,
}
use cftun.Client.Udp.{
  Connector, new_conn, Table, new_table, set_conn, Step, listen_load, listen_lock, listen_drop,
  listen_pass, listen_queue, listen_panic, listen_new, start_failed, start_conn, start_store,
  start_send, start_panic, inbound_write, health_close, health_delete, remote_read, remote_fail,
  remote_delete, remote_exit, outbound_take, outbound_write, Reach, here, next,
}
use cftun.Client.Udp.Sessions.{All-map, All-middle}

-- A datagram that the remote of a connector for this source has sent.
pub record Answers (t : Table) (reply : String × Bytes) : Type 0 where
  pub id : ℕ
  pub made : id < t.count
  pub source : (t.conn id).src_addr ≡ reply.0
  pub before : List Bytes
  pub behind : List Bytes
  pub sent : (t.conn id).received ≡ before ++ reply.1 ∷ behind

-- The connectors stay, with their sources, and have received more.
record Grows (t u : Table) : Type 0 where
  counted : t.count ≤ u.count
  sources : (k : ℕ) → k < t.count → (u.conn k).src_addr ≡ (t.conn k).src_addr
  more :
      (k : ℕ)
      → k < t.count
      → (new : List Bytes) × ((u.conn k).received ≡ (t.conn k).received ++ new)

Answers-Grows : (t u : Table) → Grows t u → (r : String × Bytes) → Answers t r → Answers u r
Answers-Grows t u g r a =
    let (new, e) = g.more a.id a.made in
    record {
      id = a.id;
      made = omega (arith, a.made, g.counted);
      source = g.sources a.id a.made ∙ a.source;
      before = a.before;
      behind = a.behind ++ new;
      sent = e ∙ rw a.sent (append_assoc a.before (r.1 ∷ a.behind) new);
    }

-- A step that changes a connector, but for its source, and lets it receive some datagrams.
set_conn-Grows :
    (id : ℕ) (c : Connector) (t u : Table) (new : List Bytes)
    → u.count ≡ t.count
    → u.conn ≡ (set_conn id c t).conn
    → c.src_addr ≡ (t.conn id).src_addr
    → c.received ≡ (t.conn id).received ++ new
    → Grows t u
set_conn-Grows id c t u new n e same got = record {
  counted = omega arith;
  sources = λ k lt. rw e (elim (Bool-cases (k == id)) [
    | inl at ↦ let q : k ≡ id = ground arith in rw (at, q) same
    | inr off ↦ rw off refl
  ]);
  more = λ k lt. rw e (elim (Bool-cases (k == id)) [
    | inl at ↦ let q : k ≡ id = ground arith in rw (at, q) (new, got)
    | inr off ↦ rw off ([], sym (append-nil (t.conn k).received))
  ]);
}

same-Grows : (t u : Table) → u.count ≡ t.count → u.conn ≡ t.conn → Grows t u
same-Grows t u n e = record {
  counted = omega arith;
  sources = λ k lt. rw e refl;
  more = λ k lt. rw e ([], sym (append-nil (t.conn k).received));
}

abbrev pub IsAnswered : Table → Type 0
IsAnswered t =
    All (Answers t) t.outbound_queue × All (Answers t) t.sending × All (Answers t) t.replies

start_conn-Grows :
    (c : Connector) (t u : Table)
    → u.count ≡ t.count + 1
    → u.conn ≡ (set_conn t.count c t).conn
    → Grows t u
start_conn-Grows c t u n e = record {
  counted = omega arith;
  sources = λ k lt. rw e (let off : (k == t.count) ≡ false = ground arith in rw off refl);
  more = λ k lt. rw e (
      let off : (k == t.count) ≡ false = ground arith in
      rw off ([], sym (append-nil (t.conn k).received)));
}

-- A connector that a step changes otherwise.
changed-Grows :
    (id : ℕ) (c : Connector) (t u : Table)
    → u.count ≡ t.count
    → u.conn ≡ (set_conn id c t).conn
    → c.src_addr ≡ (t.conn id).src_addr
    → c.received ≡ (t.conn id).received
    → Grows t u
changed-Grows id c t u n e same got =
    set_conn-Grows id c t u [] n e same (got ∙ sym (append-nil (t.conn id).received))

Step-Grows : {t u : Table} → Step t u → Grows t u
Step-Grows {t} {u} (listen_queue d id e q room) = changed-Grows id _ t u refl refl refl refl
Step-Grows {t} {u} (listen_load d id l e) = same-Grows t u refl refl
Step-Grows {t} {u} (listen_lock d id e) = same-Grows t u refl refl
Step-Grows {t} {u} (listen_pass d id e c) = same-Grows t u refl refl
Step-Grows {t} {u} (listen_drop d id e c) = same-Grows t u refl refl
Step-Grows {t} {u} (listen_panic d id e q) = same-Grows t u refl refl
Step-Grows {t} {u} (listen_new d l e) = same-Grows t u refl refl
Step-Grows {t} {u} (start_failed d before after e) = same-Grows t u refl refl
Step-Grows {t} {u} (start_conn d before after e) = start_conn-Grows (new_conn d.src) t u refl refl
Step-Grows {t} {u} (start_store id d before after e) = same-Grows t u refl refl
Step-Grows {t} {u} (start_send id d before after e q room) =
    changed-Grows id _ t u refl refl refl refl
Step-Grows {t} {u} (start_panic id d before after e q) = same-Grows t u refl refl
Step-Grows {t} {u} (inbound_write id d rest e) = changed-Grows id _ t u refl refl refl refl
Step-Grows {t} {u} (health_close id lt mu e) = changed-Grows id _ t u refl refl refl refl
Step-Grows {t} {u} (health_delete id e) = changed-Grows id _ t u refl refl refl refl
Step-Grows {t} {u} (remote_read id buf lt e room) =
    set_conn-Grows id _ t u (buf ∷ []) refl refl refl refl
Step-Grows {t} {u} (remote_fail id lt e) = changed-Grows id _ t u refl refl refl refl
Step-Grows {t} {u} (remote_delete id e) = changed-Grows id _ t u refl refl refl refl
Step-Grows {t} {u} (remote_exit id c e) = changed-Grows id _ t u refl refl refl refl
Step-Grows {t} {u} (outbound_take reply rest e) = same-Grows t u refl refl
Step-Grows {t} {u} (outbound_write reply before after e) = same-Grows t u refl refl

-- The replies of before.
kept :
    {t u : Table}
    → Step t u
    → IsAnswered t
    → All (Answers u) t.outbound_queue × All (Answers u) t.sending × All (Answers u) t.replies
kept {t} {u} s (q, g, w) =
    let grown = λ (xs : List (String × Bytes)).
      All-map (Answers t) (Answers u) xs (Answers-Grows t u (Step-Grows s)) in
    (grown t.outbound_queue q, grown t.sending g, grown t.replies w)

-- The reply that is queued.
read-Answers :
    (id : ℕ) (buf : Bytes) (q : List (String × Bytes)) (t : Table)
    → id < t.count
    → Answers
        (set_conn id
          (record (t.conn id) { received = (t.conn id).received ++ buf ∷ [] })
          (record t { outbound_queue = q }))
        ((t.conn id).src_addr, buf)
read-Answers id buf q t lt =
    let at : (id == id) ≡ true = ground arith in
    record {
      id = id;
      made = lt;
      source = rw at refl;
      before = (t.conn id).received;
      behind = [];
      sent = rw at refl;
    }

Step-IsAnswered : {t u : Table} → Step t u → IsAnswered t → IsAnswered u
Step-IsAnswered {t} {u} (remote_read id buf lt e room) h =
    let reply : String × Bytes = ((t.conn id).src_addr, buf) in
    let (q, g, w) = kept (remote_read id buf lt e room) h in
    (
      All-append (Answers u) t.outbound_queue (reply ∷ []) q
          (read-Answers id buf (t.outbound_queue ++ reply ∷ []) t lt, tt),
      g,
      w,
    )
Step-IsAnswered {t} {u} (outbound_take reply rest e) h =
    let (q, g, w) = kept (outbound_take reply rest e) h in
    let all : All (Answers u) (reply ∷ rest) = rw e at q in
    (all.1, All-append (Answers u) t.sending (reply ∷ []) g (all.0, tt), w)
Step-IsAnswered {t} {u} (outbound_write reply before after e) h =
    let (q, g, w) = kept (outbound_write reply before after e) h in
    let (b, x, a) = All-middle (Answers u) before reply after (rw e at g) in
    (
      q,
      All-append (Answers u) before after b a,
      All-append (Answers u) t.replies (reply ∷ []) w (x, tt),
    )
Step-IsAnswered s h = kept s h

-- However the goroutines interleave, every reply in the queue, received from it or written to the
-- listener goes to the source of a connector whose remote has sent it.
pub replies_isolated : {t : Table} → Reach new_table t → IsAnswered t
replies_isolated here = (tt, tt, tt)
replies_isolated (next r s) = Step-IsAnswered s (replies_isolated r)
