-- ===== src/Client/Argo/Pool.antt =====
-- The pool of client/tun/transport/argo/dialer.go as a step relation: `preDial` under its mutex,
-- any number of calls of `Dial`, and `Close`. Each atomic operation on the channel or the counter
-- is a step of its own, so that the steps of different goroutines interleave as they do in Go.
pub mod Counting
pub mod Closing
use cftun.Common.{
  ℕ, zero, suc, ◌+◌, ◌≤◌, ◌<◌, ◌≡◌, Bool, true, false, not, Option, none, some, List, [], ◌∷◌, ◌++◌,
  length,
}
use cftun.Common.Int.{ℤ, pos, negsuc, ◌+ℤ◌, ◌≤ℤ◌}
use cftun.Client.Metadata.{Metadata}

-- A WebSocket connection, known by what its handshake named: `none` where no destination was known.
pub record Link : Type 0 where
  pub opened_for : Option Metadata

-- Where the goroutine that holds `mu` stands in `preDial`.
pub data PreDial : Type 0 where
  idle checked pushed : PreDial
  connected : Link → PreDial

-- Where `Close` stands; `returned` is its end.
pub data Closer : Type 0 where
  running draining returned : Closer

pub record Pool : Type 0 where
  pub size : ℕ
  pub count : ℤ
  pub conns : List Link
  pub pre : PreDial
  -- calls of `Dial` that have taken a connection and not yet counted it
  pub takers : ℕ
  pub stopped : Bool
  pub closer : Closer
  -- `close(connPool)`, which the program never calls
  pub channel_closed : Bool
  pub drained : ℕ

abbrev pub new_pool : ℕ → Pool
new_pool size = record {
  size = size;
  count = pos 0;
  conns = [];
  pre = idle;
  takers = 0;
  stopped = false;
  closer = running;
  channel_closed = false;
  drained = 0;
}

-- What a call of `Dial` answers: a connection with `headerSent`, or an error.
pub data Answer : Type 0 where
  answered : Link → Bool → Answer
  refused : Answer

-- The steps; a step of `Dial` that ends the call carries its answer.
pub data Step (s : Pool) : Option Answer → Pool → Type 0 where
  -- preDial
  pre_full : s.pre ≡ idle → pos s.size ≤ℤ s.count → Step s none s
  pre_enter :
      s.pre ≡ idle → s.count +ℤ pos 1 ≤ℤ pos s.size → Step s none (record s { pre = checked })
  pre_stopped : s.pre ≡ checked → s.stopped ≡ true → Step s none (record s { pre = idle })
  pre_failed : s.pre ≡ checked → s.stopped ≡ false → Step s none (record s { pre = idle })
  pre_connect :
      s.pre ≡ checked
      → s.stopped ≡ false
      → Step s none (record s { pre = connected (record { opened_for = none }) })
  pre_push :
      (c : Link)
      → s.pre ≡ connected c
      → length s.conns < s.size
      → Step s none (record s { pre = pushed; conns = s.conns ++ c ∷ [] })
  pre_drop :
      (c : Link)
      → s.pre ≡ connected c
      → s.size ≤ length s.conns
      → Step s none (record s { pre = idle })
  pre_count : s.pre ≡ pushed → Step s none (record s { pre = idle; count = s.count +ℤ pos 1 })
  -- Dial
  dial_stopped : s.stopped ≡ true → Step s (some refused) s
  dial_take :
      (c : Link) (rest : List Link)
      → s.conns ≡ c ∷ rest
      → Step s (some (answered c false)) (record s { conns = rest; takers = s.takers + 1 })
  dial_count :
      (n : ℕ)
      → s.takers ≡ suc n
      → Step s none (record s { takers = n; count = s.count +ℤ negsuc 0 })
  dial_connect :
      (m : Metadata)
      → s.stopped ≡ false
      → s.conns ≡ []
      → Step s (some (answered (record { opened_for = some m }) true)) s
  dial_failed : s.stopped ≡ false → s.conns ≡ [] → Step s (some refused) s
  -- Close
  close_stop : s.closer ≡ running → Step s none (record s { stopped = true; closer = draining })
  close_drain :
      (c : Link) (rest : List Link)
      → s.closer ≡ draining
      → s.conns ≡ c ∷ rest
      → Step s none (record s { conns = rest; drained = s.drained + 1 })
  close_return :
      s.closer ≡ draining
      → s.conns ≡ []
      → s.channel_closed ≡ true
      → Step s none (record s { closer = returned })

pub data Reach (s : Pool) : Pool → Type 0 where
  here : Reach s s
  next : {t u : Pool} {a : Option Answer} → Reach s t → Step t a u → Reach s u
