-- ===== src/Log/Observable.antt =====
-- log/observable.go, log/subscriber.go and log/iterable.go: the observable with its subscribers as a
-- step relation over every interleaving of `process`, of the calls of Subscribe and UnSubscribe and
-- of the receivers. A subscription is the number of its channel; a channel that was not made yet is
-- empty.
pub mod Heard
pub mod Stalled
mod Tests
use cftun.Common.{
  ℕ, ◌+◌, ◌≤◌, ◌<◌, ◌≡◌, Bool, true, false, ◌||◌, ◌==◌, if◌then◌else◌, Option, none, some, List, [],
  ◌∷◌, ◌++◌, length, update,
}

-- The room of a subscriber's channel.
abbrev pub buffer_size : ℕ
buffer_size = 200

-- Where the goroutine of `process` stands: at the range over the iterable, before `Lock` with an item
-- that it has received, in the loop over the listeners with the mutex held, behind the range, behind `close`. A send on a closed channel
-- panics.
pub data Process (T : Type 0) : Type 0 where
  waiting leaving returned panicked : Process T
  locking emitting : T → Process T

abbrev pub holds_mux : {T : Type 0} → Process T → Bool
holds_mux (emitting x) = true
holds_mux _ = false

-- `listener` is the set of the map's keys, and `pending` of those that the loop has still to visit,
-- in any order. `received` is what was read from a channel.
pub record Observable (T : Type 0) : Type 0 where
  pub made : ℕ
  pub buffer : ℕ → List T
  pub received : ℕ → List T
  pub is_closed : ℕ → Bool
  pub listener : ℕ → Bool
  pub pending : ℕ → Bool
  pub process : Process T
  pub done : Bool

unfoldable pub new_observable : {T : Type 0} → Observable T
new_observable = record {
  made = 0;
  buffer = λ k. [];
  received = λ k. [];
  is_closed = λ k. false;
  listener = λ k. false;
  pending = λ k. false;
  process = waiting;
  done = false;
}

-- What happens to the map: `process` locks it for an item, or it is changed.
pub data Event (T : Type 0) : Type 0 where
  took : T → Event T
  subscribed unsubscribed : ℕ → Event T

pub data Step {T : Type 0} (s : Observable T) : Option (Event T) → Observable T → Type 0 where
  -- process
  receive_item : (x : T) → s.process ≡ waiting → Step s none (record s { process = locking x })
  take :
      (x : T)
      → s.process ≡ locking x
      → Step s (some (took x)) (record s { process = emitting x; pending = s.listener })
  emit :
      (x : T) (k : ℕ)
      → s.process ≡ emitting x
      → s.pending k ≡ true
      → s.is_closed k ≡ false
      → length (s.buffer k) < buffer_size
      → Step s none (record s {
        buffer = update s.buffer k (s.buffer k ++ x ∷ []);
        pending = update s.pending k false;
      })
  emit_closed :
      (x : T) (k : ℕ)
      → s.process ≡ emitting x
      → s.pending k ≡ true
      → s.is_closed k ≡ true
      → Step s none (record s { process = panicked })
  emitted :
      (x : T)
      → s.process ≡ emitting x
      → ((k : ℕ) → s.pending k ≡ false)
      → Step s none (record s { process = waiting })
  range_ends : s.process ≡ waiting → Step s none (record s { process = leaving })
  close :
      s.process ≡ leaving
      → Step s none (record s {
        done = true;
        is_closed = λ k. s.is_closed k || s.listener k;
        process = returned;
      })
  -- Subscribe and UnSubscribe
  refuse : holds_mux s.process ≡ false → s.done ≡ true → Step s none s
  subscribe :
      holds_mux s.process ≡ false
      → s.done ≡ false
      → Step s
          (some (subscribed s.made))
          (record s { made = s.made + 1; listener = update s.listener s.made true })
  ignore : (k : ℕ) → holds_mux s.process ≡ false → s.listener k ≡ false → Step s none s
  unsubscribe :
      (k : ℕ)
      → holds_mux s.process ≡ false
      → s.listener k ≡ true
      → Step s
          (some (unsubscribed k))
          (record s { listener = update s.listener k false; is_closed = update s.is_closed k true })
  -- a receiver
  receive :
      (k : ℕ) (x : T) (rest : List T)
      → s.buffer k ≡ x ∷ rest
      → Step s none (record s {
        buffer = update s.buffer k rest;
        received = update s.received k (s.received k ++ x ∷ []);
      })

-- The states that are reached, with the events before them, the last one first.
pub data Reach {T : Type 0} (s : Observable T) : List (Event T) → Observable T → Type 0 where
  here : Reach s [] s
  next : {h : List (Event T)} {t u : Observable T} → Reach s h t → Step t none u → Reach s h u
  event :
      {h : List (Event T)} {t u : Observable T} {e : Event T}
      → Reach s h t
      → Step t (some e) u
      → Reach s (e ∷ h) u
