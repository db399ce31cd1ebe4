-- ===== src/Client/Tunnel/Queues/Served.antt =====
-- What becomes of the connections that the stack hands over.
use mathlib.Core.Bool.{true≢false}
use cftun.Common.{
  ℕ, ◌+◌, ◌≡◌, ◌≢◌, ap, refl, sym, ◌∙◌, append-nil, length, length-append, append_assoc, Bool, true,
  false, ◌||◌, if◌then◌else◌, Option, none, some, List, [], ◌∷◌, ◌++◌, count, count-append, arith,
}
use cftun.Client.Tunnel.Queues.{
  Call, Process, unstarted, selecting, returned, Tunnel, new_tunnel, Event, handled, processed,
  closed, dialer_set, Step, handle, receive, context_done, process_first, process_again, close_nop,
  close, set_dialer, set_udp_timeout, dial, Reach, here, next, event,
}

-- What the calls come to, the last one first: the connections, whether the loop was started, and
-- whether it was closed behind its start.
pub offered : List Event → List Call
offered [] = []
offered (handled c ∷ h) = c ∷ offered h
offered (processed ∷ h) = offered h
offered (closed ∷ h) = offered h
offered (dialer_set d ∷ h) = offered h

pub ran : List Event → Bool
ran [] = false
ran (processed ∷ h) = true
ran (handled c ∷ h) = ran h
ran (closed ∷ h) = ran h
ran (dialer_set d ∷ h) = ran h

pub stopped : List Event → Bool
unfolding ran
stopped [] = false
stopped (closed ∷ h) = ran h || stopped h
stopped (handled c ∷ h) = stopped h
stopped (processed ∷ h) = stopped h
stopped (dialer_set d ∷ h) = stopped h

-- How many of the connections that a tunnel has to do with pass a test.
abbrev pub held : (Call → Bool) → Tunnel → ℕ
held f s = count f s.waiting + (count f s.started + count (λ d. f d.0) s.dialed)

-- Where the loop may stand.
abbrev pub Stands : Process → Bool → Bool → Type 0
Stands unstarted once cancelled = once ≡ false
Stands selecting once cancelled = once ≡ true
Stands returned once cancelled = (once ≡ true) × (cancelled ≡ true)

record IsServed (h : List Event) (s : Tunnel) : Type 0 where
  pub kept : (f : Call → Bool) → held f s ≡ count f (offered h)
  pub once : s.proc_once ≡ ran h
  pub cancel : s.proc_cancel ≡ ran h
  pub cancelled : s.cancelled ≡ stopped h
  pub stands : Stands s.process s.proc_once s.cancelled

count-middle :
    (f : Call → Bool) (front : List Call) (c : Call) (back : List Call)
    → count f (front ++ c ∷ back) ≡ count f (front ++ back) + (if f c then 1 else 0)
count-middle f front c back =
    omega (arith, count-append f front (c ∷ back), count-append f front back)

selecting-once :
    (p : Process) (once cancelled : Bool) → p ≡ selecting → Stands p once cancelled → once ≡ true
selecting-once unstarted once cancelled e h = cc
selecting-once selecting once cancelled e h = h
selecting-once returned once cancelled e h = h.0

Stands-cancel : (p : Process) (once cancelled : Bool) → Stands p once cancelled → Stands p once true
Stands-cancel unstarted once cancelled h = h
Stands-cancel selecting once cancelled h = h
Stands-cancel returned once cancelled h = (h.0, refl)

Stands-runs :
    (p : Process) (once cancelled : Bool)
    → Stands p once cancelled
    → once ≡ true
    → cancelled ≡ false
    → p ≡ selecting
Stands-runs unstarted once cancelled h o c = cc
Stands-runs selecting once cancelled h o c = refl
Stands-runs returned once cancelled h o c = cc

Stands-returned :
    (p : Process) (once cancelled : Bool)
    → Stands p once cancelled
    → p ≡ returned
    → (once ≡ true) × (cancelled ≡ true)
Stands-returned unstarted once cancelled h e = cc
Stands-returned selecting once cancelled h e = cc
Stands-returned returned once cancelled h e = h

Step-IsServed : {h : List Event} {s t : Tunnel} → Step s none t → IsServed h s → IsServed h t
Step-IsServed {s} (receive front c back e w) i = record {
  kept =
      λ f. ground (arith, i.kept f, count-middle f front c back, count-append f s.started (c ∷ []));
  once = i.once;
  cancel = i.cancel;
  cancelled = i.cancelled;
  stands = i.stands;
}
Step-IsServed {s} (context_done e d) i = record {
  kept = i.kept;
  once = i.once;
  cancel = i.cancel;
  cancelled = i.cancelled;
  stands = (selecting-once s.process s.proc_once s.cancelled e i.stands, d);
}
Step-IsServed (set_udp_timeout d) i = record {
  kept = i.kept;
  once = i.once;
  cancel = i.cancel;
  cancelled = i.cancelled;
  stands = i.stands;
}
Step-IsServed {s} (dial front c back e) i = record {
  kept = λ f. ground (
    arith,
    i.kept f,
    count-middle f front c back,
    count-append (λ (d : Call × ℕ). f d.0) s.dialed ((c, s.dialer) ∷ []),
  );
  once = i.once;
  cancel = i.cancel;
  cancelled = i.cancelled;
  stands = i.stands;
}

event-IsServed :
    {h : List Event} {s t : Tunnel} {e : Event}
    → Step s (some e) t
    → IsServed h s
    → IsServed (e ∷ h) t
unfolding offered ran stopped
event-IsServed {s} (handle c) i = record {
  kept = λ f. ground (arith, i.kept f, count-append f s.waiting (c ∷ []));
  once = i.once;
  cancel = i.cancel;
  cancelled = i.cancelled;
  stands = i.stands;
}
event-IsServed (process_first e) i = record {
  kept = i.kept;
  once = refl;
  cancel = refl;
  cancelled = i.cancelled;
  stands = refl;
}
event-IsServed (process_again e) i = record {
  kept = i.kept;
  once = e;
  cancel = ground (arith, i.cancel, i.once);
  cancelled = i.cancelled;
  stands = i.stands;
}
event-IsServed (close_nop e) i = record {
  kept = i.kept;
  once = i.once;
  cancel = i.cancel;
  cancelled = ground (arith, i.cancel, i.cancelled);
  stands = i.stands;
}
event-IsServed {s} (close e) i = record {
  kept = i.kept;
  once = i.once;
  cancel = i.cancel;
  cancelled = ground (arith, i.cancel);
  stands = Stands-cancel s.process s.proc_once s.cancelled i.stands;
}
event-IsServed (set_dialer d) i = record {
  kept = i.kept;
  once = i.once;
  cancel = i.cancel;
  cancelled = i.cancelled;
  stands = i.stands;
}

Reach-IsServed :
    (dialer : ℕ) {h : List Event} {s : Tunnel} → Reach (new_tunnel dialer) h s → IsServed h s
unfolding new_tunnel offered ran stopped
Reach-IsServed dialer here = record {
  kept = λ f. refl;
  once = refl;
  cancel = refl;
  cancelled = refl;
  stands = refl;
}
Reach-IsServed dialer (next r st) = Step-IsServed st (Reach-IsServed dialer r)
Reach-IsServed dialer (event r st) = event-IsServed st (Reach-IsServed dialer r)

-- In every interleaving: each connection that was handed to the tunnel waits in its call, is with a
-- handler that was started, or was dialed for, and as often as it was handed over. The loop runs
-- from the first call of ProcessAsync on, until a call of Close behind it, and has returned only
-- after both.
pub Reach-served :
    (dialer : ℕ) {h : List Event} {s : Tunnel} (f : Call → Bool)
    → Reach (new_tunnel dialer) h s
    → (held f s ≡ count f (offered h))
      × (ran h ≡ true → stopped h ≡ false → s.process ≡ selecting)
      × (s.process ≡ returned → (ran h ≡ true) × (stopped h ≡ true))
Reach-served dialer {s = s} f r =
    let i = Reach-IsServed dialer r in
    (
      i.kept f,
      λ e c. Stands-runs s.process s.proc_once s.cancelled i.stands (i.once ∙ e) (i.cancelled ∙ c),
      λ e.
          let (o, c) = Stands-returned s.process s.proc_once s.cancelled i.stands e in
          (sym i.once ∙ o, sym i.cancelled ∙ c),
    )

returned≢selecting : returned ≢ selecting
returned≢selecting h = cc

-- What holds from a state on in which the loop has returned.
pub record IsBehind (s t : Tunnel) : Type 0 where
  pub over : t.process ≡ returned
  pub once : t.proc_once ≡ true
  pub queue : (later : List Call) × (t.waiting ≡ s.waiting ++ later)
  pub handlers : length t.started + length t.dialed ≡ length s.started + length s.dialed

Step-IsBehind : {s t u : Tunnel} {e : Option Event} → Step t e u → IsBehind s t → IsBehind s u
Step-IsBehind {s} {t} (handle c) b =
    let (later, q) = b.queue in
    record {
      over = b.over;
      once = b.once;
      queue = (later ++ c ∷ [], rw q (append_assoc s.waiting later (c ∷ [])));
      handlers = b.handlers;
    }
Step-IsBehind (receive front c back e w) b = absurd (returned≢selecting (sym b.over ∙ e))
Step-IsBehind (context_done e d) b = absurd (returned≢selecting (sym b.over ∙ e))
Step-IsBehind (process_first e) b = absurd (true≢false (sym b.once ∙ e))
Step-IsBehind (process_again e) b = b
Step-IsBehind (close_nop e) b = b
Step-IsBehind (close e) b = record {
  over = b.over;
  once = b.once;
  queue = b.queue;
  handlers = b.handlers;
}
Step-IsBehind (set_dialer d) b = record {
  over = b.over;
  once = b.once;
  queue = b.queue;
  handlers = b.handlers;
}
Step-IsBehind (set_udp_timeout d) b = record {
  over = b.over;
  once = b.once;
  queue = b.queue;
  handlers = b.handlers;
}
Step-IsBehind {t = t} (dial front c back e) b = record {
  over = b.over;
  once = b.once;
  queue = b.queue;
  handlers = omega (
    arith,
    b.handlers,
    ap length e,
    length-append front (c ∷ back),
    length-append front back,
    length-append t.dialed ((c, t.dialer) ∷ []),
  );
}

-- Once the loop has returned it never runs again, whatever is called: no handler is started any
-- more, and the calls of HandleTCP and HandleUDP that wait never return, nor do later ones.
pub Reach-IsBehind :
    {s : Tunnel} {h : List Event} {t : Tunnel}
    → s.process ≡ returned
    → s.proc_once ≡ true
    → Reach s h t
    → IsBehind s t
Reach-IsBehind {s} e o here = record {
  over = e;
  once = o;
  queue = ([], sym (append-nil s.waiting));
  handlers = refl;
}
Reach-IsBehind e o (next r st) = Step-IsBehind st (Reach-IsBehind e o r)
Reach-IsBehind e o (event r st) = Step-IsBehind st (Reach-IsBehind e o r)
