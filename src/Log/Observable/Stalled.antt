-- ===== src/Log/Observable/Stalled.antt =====
-- What a subscriber stops that does not read: the loop of `process` waits for room in its channel
-- with the mutex held.
use cftun.Common.{
  ℕ, ◌≡◌, ◌≢◌, refl, true, false, Option, none, List, [], ◌∷◌, ◌++◌, length, length-append, ◌≤◌,
  arith,
}
use cftun.Log.Observable.Heard.{Reach-heard}
use cftun.Log.Observable.{
  buffer_size, panicked, emitting, new_observable, Observable, Event, Step, receive_item, take,
  emit, emit_closed, emitted, range_ends, close, refuse, subscribe, ignore, unsubscribe, receive,
  Reach, here, next, event,
}

-- The loop is to send an item to an open channel that is full.
pub record IsStuck {T : Type 0} (x : T) (k : ℕ) (s : Observable T) : Type 0 where
  pub sending : s.process ≡ emitting x
  pub due : s.pending k ≡ true
  pub open_channel : s.is_closed k ≡ false
  pub full : length (s.buffer k) ≡ buffer_size

module _ {T : Type 0} (k : ℕ) where
  -- How much was received from the channel.
  abbrev pub reads : Observable T → ℕ
  reads s = length (s.received k)

  Step-reads : {s t : Observable T} {e : Option (Event T)} → Step s e t → reads s ≤ reads t
  Step-reads (receive_item x e) = omega arith
  Step-reads (take x e) = omega arith
  Step-reads (emit x j e p o l) = omega arith
  Step-reads (emit_closed x j e p o) = omega arith
  Step-reads (emitted x e p) = omega arith
  Step-reads (range_ends e) = omega arith
  Step-reads (close e) = omega arith
  Step-reads (refuse f d) = omega arith
  Step-reads (subscribe f d) = omega arith
  Step-reads (ignore j f l) = omega arith
  Step-reads (unsubscribe j f l) = omega arith
  Step-reads {s} (receive j x rest e) = ground (arith, length-append (s.received j) (x ∷ []))

  Reach-reads :
      {s : Observable T} {h : List (Event T)} {t : Observable T} → Reach s h t → reads s ≤ reads t
  Reach-reads here = omega arith
  Reach-reads (next r st) = omega (arith, Reach-reads r, Step-reads st)
  Reach-reads (event r st) = omega (arith, Reach-reads r, Step-reads st)

  Step-IsStuck :
      {x : T} {s t : Observable T} {e : Option (Event T)}
      → Step s e t
      → IsStuck x k s
      → reads t ≡ reads s
      → t.process ≢ panicked
      → IsStuck x k t × (e ≡ none)
  Step-IsStuck (receive_item y e) i n c = ground arith
  Step-IsStuck (take y e) i n c = ground arith
  Step-IsStuck (emit y j e p o l) i n c = ground arith
  Step-IsStuck (emit_closed y j e p o) i n c = absurd (c refl)
  Step-IsStuck (emitted y e p) i n c = ground (arith, p k)
  Step-IsStuck (range_ends e) i n c = ground arith
  Step-IsStuck (close e) i n c = ground arith
  Step-IsStuck (refuse f d) i n c = (i, refl)
  Step-IsStuck (subscribe f d) i n c = ground arith
  Step-IsStuck (ignore j f l) i n c = (i, refl)
  Step-IsStuck (unsubscribe j f l) i n c = ground arith
  Step-IsStuck {s} (receive j y rest e) i n c =
      ground (arith, length-append (s.received j) (y ∷ []))

  Reach-append :
      {s t : Observable T} {h : List (Event T)} {l : List (Event T)} {u : Observable T}
      → Reach s h t
      → Reach t l u
      → Reach s (l ++ h) u
  Reach-append r here = r
  Reach-append r (next q st) = next (Reach-append r q) st
  Reach-append r (event q st) = event (Reach-append r q) st

-- Where `process` is to send an item to a channel that is full, as it is when 200 items were not
-- read: until something is received from this channel, it stays so in every interleaving, and
-- meanwhile no item is taken, so that no call that logs returns, and no call of Subscribe or
-- UnSubscribe does more than to wait for the mutex.
pub Reach-IsStuck :
    {T : Type 0} {h : List (Event T)} {s : Observable T} (x : T) (k : ℕ) {l : List (Event T)}
    {t : Observable T}
    → Reach new_observable h s
    → IsStuck x k s
    → Reach s l t
    → reads k t ≡ reads k s
    → IsStuck x k t × (l ≡ [])
Reach-IsStuck x k r i here n = (i, refl)
Reach-IsStuck x k r i (next q st) n =
    let m = Reach-reads k q in
    let grows = Step-reads k st in
    let ih = Reach-IsStuck x k r i q (omega arith) in
    (
      (Step-IsStuck k st ih.0 (omega arith) (Reach-heard k (next (Reach-append k r q) st)).1).0,
      ih.1,
    )
Reach-IsStuck x k r i (event q st) n =
    let m = Reach-reads k q in
    let grows = Step-reads k st in
    let ih = Reach-IsStuck x k r i q (omega arith) in
    let moved =
      (Step-IsStuck k st ih.0 (omega arith) (Reach-heard k (event (Reach-append k r q) st)).1).1 in
    cc
