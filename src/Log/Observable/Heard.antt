-- ===== src/Log/Observable/Heard.antt =====
-- Each subscriber gets what was published while it was subscribed, and nothing panics.
use mathlib.Core.Bool.{true≢false}
use cftun.Common.{
  ℕ, ◌≤◌, ◌≡◌, refl, sym, ◌∙◌, Bool, true, false, ◌≢◌, not, ◌&&◌, ◌||◌, ◌==◌, if◌then◌else◌, none,
  some, List, [], ◌∷◌, ◌++◌, append-nil, append_assoc, arith,
}
use cftun.Log.Observable.{
  Process, returned, panicked, emitting, holds_mux, Observable, new_observable, Event, took,
  subscribed, unsubscribed, Step, receive_item, take, emit, emit_closed, emitted, range_ends, close,
  refuse, subscribe, ignore, unsubscribe, receive, Reach, here, next, event,
}

module _ {T : Type 0} where
  -- Whether a channel is subscribed after the events, of which the last one comes first.
  pub listening : ℕ → List (Event T) → Bool
  listening k [] = false
  listening k (took x ∷ h) = listening k h
  listening k (subscribed j ∷ h) = j == k || listening k h
  listening k (unsubscribed j ∷ h) = not (j == k) && listening k h

  -- The items for which `process` got the mutex while the channel was subscribed.
  pub heard : ℕ → List (Event T) → List T
  unfolding listening
  heard k [] = []
  heard k (took x ∷ h) = if listening k h then heard k h ++ x ∷ [] else heard k h
  heard k (subscribed j ∷ h) = heard k h
  heard k (unsubscribed j ∷ h) = heard k h

  -- What `process` has still to send to a channel.
  pub in_flight : Process T → Bool → List T
  in_flight (emitting x) true = x ∷ []
  in_flight _ _ = []

  abbrev has_returned : Process T → Bool
  has_returned returned = true
  has_returned _ = false

  record IsSound (h : List (Event T)) (s : Observable T) : Type 0 where
    pub settled : s.done ≡ has_returned s.process
    pub calm : s.process ≢ panicked
    pub fresh : (k : ℕ) → s.made ≤ k → (s.is_closed k ≡ false) × (s.listener k ≡ false)
    pub opened : (k : ℕ) → s.listener k ≡ true → s.done ≡ false → s.is_closed k ≡ false
    pub idle : holds_mux s.process ≡ false → (k : ℕ) → s.pending k ≡ false
    pub waits : (k : ℕ) → s.pending k ≡ true → s.listener k ≡ true
    pub listens : (k : ℕ) → s.listener k ≡ listening k h
    pub hears :
        (k : ℕ) → s.received k ++ (s.buffer k ++ in_flight s.process (s.pending k)) ≡ heard k h

  Step-IsSound :
      {h : List (Event T)} {s t : Observable T} → Step s none t → IsSound h s → IsSound h t
  unfolding in_flight
  Step-IsSound {s} (receive_item x e) i = record {
    settled = ground (arith, i.settled);
    calm = λ q. cc;
    fresh = i.fresh;
    opened = i.opened;
    idle = λ q. i.idle (ground arith);
    waits = i.waits;
    listens = i.listens;
    hears = λ k. ground (arith, i.hears k);
  }
  Step-IsSound {s} (emit x k e p o l) i = record {
    settled = i.settled;
    calm = i.calm;
    fresh = i.fresh;
    opened = i.opened;
    idle = λ q. cc;
    waits = λ j. ground (arith, i.waits j);
    listens = i.listens;
    hears = λ j. ground (arith, i.hears j, append-nil (s.buffer k ++ x ∷ []));
  }
  Step-IsSound {s} (emit_closed x k e p o) i =
      absurd (true≢false (sym o ∙ i.opened k (i.waits k p) (ground (arith, i.settled))))
  Step-IsSound {s} (emitted x e p) i = record {
    settled = ground (arith, i.settled);
    calm = λ q. cc;
    fresh = i.fresh;
    opened = i.opened;
    idle = λ q. p;
    waits = i.waits;
    listens = i.listens;
    hears = λ k. ground (arith, i.hears k, p k);
  }
  Step-IsSound {s} (range_ends e) i = record {
    settled = ground (arith, i.settled);
    calm = λ q. cc;
    fresh = i.fresh;
    opened = i.opened;
    idle = λ q. i.idle (ground arith);
    waits = i.waits;
    listens = i.listens;
    hears = λ k. ground (arith, i.hears k);
  }
  Step-IsSound {s} (close e) i = record {
    settled = refl;
    calm = λ q. cc;
    fresh = λ k l. ground (arith, i.fresh k l);
    opened = λ k l d. cc;
    idle = λ q. i.idle (ground arith);
    waits = i.waits;
    listens = i.listens;
    hears = λ k. ground (arith, i.hears k);
  }
  Step-IsSound (refuse f d) i = i
  Step-IsSound (ignore k f l) i = i
  Step-IsSound {s} (receive k x rest e) i = record {
    settled = i.settled;
    calm = i.calm;
    fresh = i.fresh;
    opened = i.opened;
    idle = i.idle;
    waits = i.waits;
    listens = i.listens;
    hears = λ j. ground (
      arith,
      i.hears j,
      append_assoc (s.received k) (x ∷ []) (rest ++ in_flight s.process (s.pending k)),
    );
  }

  event-IsSound :
      {h : List (Event T)} {s t : Observable T} {e : Event T}
      → Step s (some e) t
      → IsSound h s
      → IsSound (e ∷ h) t
  unfolding listening heard in_flight
  event-IsSound {h} {s} (take x e) i = record {
    settled = ground (arith, i.settled);
    calm = λ q. cc;
    fresh = i.fresh;
    opened = i.opened;
    idle = λ q. cc;
    waits = λ k l. l;
    listens = i.listens;
    hears = λ k. ground (
      arith,
      i.hears k,
      i.listens k,
      append-nil (s.buffer k),
      append_assoc (s.received k) (s.buffer k) (x ∷ []),
    );
  }
  event-IsSound {h} {s} (subscribe f d) i = record {
    settled = i.settled;
    calm = i.calm;
    fresh = λ k l. ground (arith, i.fresh k);
    opened = λ k. ground (arith, i.opened k, i.fresh k);
    idle = i.idle;
    waits = λ k. ground (arith, i.idle f k);
    listens = λ k. ground (arith, i.listens k);
    hears = i.hears;
  }
  event-IsSound {h} {s} (unsubscribe k f l) i = record {
    settled = i.settled;
    calm = i.calm;
    fresh = λ j b. ground (arith, i.fresh j b);
    opened = λ j. ground (arith, i.opened j);
    idle = i.idle;
    waits = λ j. ground (arith, i.idle f j);
    listens = λ j. ground (arith, i.listens j);
    hears = i.hears;
  }

  new_observable-IsSound : IsSound [] (new_observable {T = T})
  unfolding new_observable listening heard in_flight
  new_observable-IsSound = record {
    settled = refl;
    calm = λ q. cc;
    fresh = λ k l. (refl, refl);
    opened = λ k l d. refl;
    idle = λ q k. refl;
    waits = λ k p. cc;
    listens = λ k. refl;
    hears = λ k. refl;
  }

  Reach-IsSound :
      {h : List (Event T)} {s : Observable T} → Reach (new_observable {T = T}) h s → IsSound h s
  Reach-IsSound here = new_observable-IsSound
  Reach-IsSound (next r st) = Step-IsSound st (Reach-IsSound r)
  Reach-IsSound (event r st) = event-IsSound st (Reach-IsSound r)

-- In every interleaving: what was read from the channel of a subscription, what lies in it, and the
-- item that `process` has still to send to it are exactly the items for which `process` got the mutex
-- while it was subscribed, in their order; an item that was received before and waits for the mutex
-- is not among them yet. `process` never sends on a closed channel, and no subscription is
-- closed before it ends.
pub Reach-heard :
    {T : Type 0} {h : List (Event T)} {s : Observable T} (k : ℕ)
    → Reach (new_observable {T = T}) h s
    → (s.received k ++ (s.buffer k ++ in_flight s.process (s.pending k)) ≡ heard k h)
      × (s.process ≢ panicked)
      × (listening k h ≡ true → s.done ≡ false → s.is_closed k ≡ false)
Reach-heard k r =
    let i = Reach-IsSound r in (i.hears k, i.calm, λ l d. i.opened k (i.listens k ∙ l) d)
