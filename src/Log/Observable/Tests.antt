-- ===== src/Log/Observable/Tests.antt =====
-- Runs of the observable.
use cftun.Common.{
  ℕ, ◌≡◌, ◌≢◌, refl, true, false, [], ◌∷◌, ◌++◌, List, length, update, length-append, arith, ◌+◌,
  ◌≤◌, zero, suc,
}
use cftun.Log.Observable.{
  waiting, emitting, panicked, Observable, new_observable, Event, took, subscribed, receive_item,
  take, emit, emitted, subscribe, Reach, here, next, event,
}
use cftun.Log.Observable.Heard.{listening, heard, in_flight, Reach-heard}
use cftun.Log.Observable.Stalled.{IsStuck, Reach-IsStuck}

-- One subscriber, and an item that is sent to it.
abbrev o1 : Observable ℕ
o1 = record {
  made = 1;
  buffer = λ k. [];
  received = λ k. [];
  is_closed = λ k. false;
  listener = update (λ k. false) 0 true;
  pending = λ k. false;
  process = waiting;
  done = false;
}

abbrev o2 : Observable ℕ
o2 = record o1 { process = emitting 7; pending = o1.listener }

abbrev o3 : Observable ℕ
o3 = record o2 { buffer = update o2.buffer 0 (7 ∷ []); pending = update o2.pending 0 false }

published : Reach new_observable (took 7 ∷ subscribed 0 ∷ []) o3
unfolding new_observable
published =
    next (event (next (event here (subscribe refl refl)) (receive_item 7 refl)) (take 7 refl))
      (emit 7 0 refl refl refl (omega arith))

Reach-heard_example :
    (o3.received 0 ++ (o3.buffer 0 ++ in_flight o3.process (o3.pending 0))
      ≡ heard 0 (took 7 ∷ subscribed 0 ∷ []))
    × (o3.process ≢ panicked)
    × (listening {T = ℕ} 0 (took 7 ∷ subscribed 0 ∷ []) ≡ true
        → o3.done ≡ false
        → o3.is_closed 0 ≡ false)
Reach-heard_example = Reach-heard 0 published

-- A subscriber that has n items to read.
record Filled (n : ℕ) : Type 0 where
  state : Observable ℕ
  events : List (Event ℕ)
  reach : Reach new_observable events state
  made : state.made ≡ 1
  done : state.done ≡ false
  process : state.process ≡ waiting
  listener : state.listener ≡ update (λ k. false) 0 true
  is_closed : (k : ℕ) → state.is_closed k ≡ false
  items : length (state.buffer 0) ≡ n
  others : state.buffer 1 ≡ []

fill : (n : ℕ) → n ≤ 200 → Filled n
unfolding new_observable
fill zero h = record {
  state = o1;
  events = subscribed 0 ∷ [];
  reach = event here (subscribe refl refl);
  made = refl;
  done = refl;
  process = refl;
  listener = refl;
  is_closed = λ k. refl;
  items = refl;
  others = refl;
}
fill (suc n) h =
    let f = fill n (omega arith) in
    let s = f.state in
    let due : s.listener 0 ≡ true = rw f.listener in
    record {
      state = record s {
        buffer = update s.buffer 0 (s.buffer 0 ++ 7 ∷ []);
        pending = update s.listener 0 false;
        process = waiting;
      };
      events = took 7 ∷ f.events;
      reach =
          next
            (next (event (next f.reach (receive_item 7 f.process)) (take 7 refl))
              (emit 7 0 refl due (f.is_closed 0) (omega (arith, f.items))))
            (emitted 7 refl (λ k. rw f.listener (ground arith)));
      made = f.made;
      done = f.done;
      process = refl;
      listener = f.listener;
      is_closed = f.is_closed;
      items = omega (arith, length-append (s.buffer 0) (7 ∷ []), f.items);
      others = f.others;
    }

abbrev full : Filled 200
full = fill 200 (omega arith)

-- A second subscriber comes, and an item that there is no room for.
abbrev stuck : Observable ℕ
stuck = record full.state {
  made = full.state.made + 1;
  listener = update full.state.listener full.state.made true;
  process = emitting 7;
  pending = update full.state.listener full.state.made true;
}

abbrev next_sent : Observable ℕ
next_sent = record stuck {
  buffer = update stuck.buffer 1 (stuck.buffer 1 ++ 7 ∷ []);
  pending = update stuck.pending 1 false;
}

due0 : stuck.pending 0 ≡ true
due0 = rw (full.made, full.listener)

due1 : stuck.pending 1 ≡ true
due1 = rw full.made

Reach-IsStuck_example : IsStuck 7 0 next_sent × (◌≡◌ {A = List (Event ℕ)} [] [])
Reach-IsStuck_example =
    Reach-IsStuck 7 0
      (event
        (next (event full.reach (subscribe (rw full.process) full.done))
          (receive_item 7 full.process))
        (take 7 refl))
      (record { sending = refl; due = due0; open_channel = full.is_closed 0; full = full.items })
      (next here (emit 7 1 refl due1 (full.is_closed 1) (rw full.others (omega arith)))) refl
