-- ===== src/Client/Tunnel.antt =====
-- client/tun/tunnel: the handlers of a connection, and the pipe between it and the tunnel as a step
-- relation over the interleavings of its two goroutines.
pub mod Pipe
pub mod Queues
mod Tests
use cftun.Common.{ℕ, ◌≡◌, Bool, true, false, if◌then◌else◌, List, [], ◌∷◌, ◌++◌, Bytes}
use cftun.Client.Metadata.{Metadata}

-- The two connections of a pipe.
pub data Side : Type 0 where
  origin remote : Side

abbrev pub other : Side → Side
other origin = remote
other remote = origin

abbrev pub same : Side → Side → Bool
same origin origin = true
same remote remote = true
same a b = false

abbrev pub set_side {ℓ} : {A : Type ℓ} → Side → A → (Side → A) → Side → A
set_side a v f b = if same b a then v else f b

-- Where a goroutine of `unidirectionalStream` stands: it waits for `src.Read`, it has a chunk for
-- `dst.Write`, `io.CopyBuffer` has returned, it has closed `src`, it has closed `dst`.
pub data Stage : Type 0 where
  reading copied half_closed finished : Stage
  writing : Bytes → Stage

-- Stages and chunks go by the side that the goroutine reads from.
pub record Piping : Type 0 where
  pub is_open : Side → Bool
  pub stage : Side → Stage
  pub sent : Side → List Bytes

unfoldable pub pipe : Piping
pipe = record { is_open = λ a. true; stage = λ a. reading; sent = λ a. [] }

-- A step of the goroutine that reads from a side. A call on a connection that is closed here fails,
-- but for a read of the remote one that finds bytes in its buffer; any call may fail, and a read may find the end.
pub data Step : Piping → Piping → Type 0 where
  read :
      {p : Piping} (a : Side) (chunk : Bytes)
      → p.stage a ≡ reading
      → p.is_open a ≡ true
      → Step p (record p { stage = set_side a (writing chunk) p.stage })
  read_buffered :
      {p : Piping} (chunk : Bytes)
      → p.stage remote ≡ reading
      → Step p (record p { stage = set_side remote (writing chunk) p.stage })
  write :
      {p : Piping} (a : Side) (chunk : Bytes)
      → p.stage a ≡ writing chunk
      → p.is_open (other a) ≡ true
      → Step p (record p {
        stage = set_side a reading p.stage;
        sent = set_side a (p.sent a ++ chunk ∷ []) p.sent;
      })
  read_ends :
      {p : Piping} (a : Side)
      → p.stage a ≡ reading
      → Step p (record p { stage = set_side a copied p.stage })
  write_fails :
      {p : Piping} (a : Side) (chunk : Bytes)
      → p.stage a ≡ writing chunk
      → Step p (record p { stage = set_side a copied p.stage })
  close_src :
      {p : Piping} (a : Side)
      → p.stage a ≡ copied
      → Step p (record p {
        is_open = set_side a false p.is_open;
        stage = set_side a half_closed p.stage;
      })
  close_dst :
      {p : Piping} (a : Side)
      → p.stage a ≡ half_closed
      → Step p (record p {
        is_open = set_side (other a) false p.is_open;
        stage = set_side a finished p.stage;
      })

pub data Reach : Piping → Type 0 where
  here : Reach pipe
  next : {p q : Piping} → Reach p → Step p q → Reach q

-- What a handler does, in its order; `dialed` is whether the dial succeeds.
pub data Event : Type 0 where
  dial : Metadata → Event
  run_pipe close_origin close_remote : Event

unfoldable pub handle_tcp_conn : Bool → Metadata → List Event
handle_tcp_conn dialed m = if dialed then dial m ∷ run_pipe ∷ close_remote ∷ [] else dial m ∷ []

unfoldable pub handle_udp_conn : Bool → Metadata → List Event
handle_udp_conn dialed m =
    if dialed then dial m ∷ run_pipe ∷ close_origin ∷ [] else dial m ∷ close_origin ∷ []
