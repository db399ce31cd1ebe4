-- ===== src/Server/Serving.antt =====
-- server/cfd/connection.go, `Serve` and `acceptStream`, and the result of `RegisterConnection` in
-- server/cfd/register.go. The remote call and the QUIC connection are parameters: what they answer.
pub mod Details
pub mod Streams
use cftun.Common.{
  ℕ, suc, Bool, true, false, Option, none, some, String, List, [], ◌∷◌, ◌==◌, if◌then◌else◌, Result,
  ok, err, Bytes,
}

pub record ConnectionDetails : Type 0 where
  pub uuid : Bytes
  pub location : String
  pub tunnel_is_remotely_managed : Bool

pub data RegisterError : Type 0 where
  call_failed pointer_failed details_failed : RegisterError
  refused : String → RegisterError
  unknown_tag : ℕ → RegisterError

-- The struct of a response: its tag, whether its pointer can be read, the text under the pointer,
-- and the details that `UnmarshalCapnproto` finds there.
pub record Response : Type 0 where
  pub tag : ℕ
  pub readable : Bool
  pub text : String
  pub details : Option ConnectionDetails

-- What follows the call; `none` is a call that failed.
unfoldable pub register_connection : Option Response → Result RegisterError ConnectionDetails
register_connection none = err call_failed
register_connection (some r) =
    if r.readable
    then (if r.tag == 1
        then elim r.details [ none ↦ err details_failed | some d ↦ ok d ]
        else if r.tag == 0
        then err (refused r.text)
        else err (unknown_tag r.tag))
    else err pointer_failed

abbrev pub is_managed : Result RegisterError ConnectionDetails → Bool
is_managed (ok d) = d.tunnel_is_remotely_managed
is_managed (err e) = false

-- What `AcceptStream` returns: a stream, or an error that is a cancelled context or another.
pub data Accepted (S : Type 0) : Type 0 where
  stream : S → Accepted S
  cancelled failed : Accepted S

pub data ServeError : Type 0 where
  no_control_stream accept_failed : ServeError

-- `running` is a loop that the answers have not ended.
pub data Outcome : Type 0 where
  running : Outcome
  returned : Option ServeError → Outcome

-- The streams that were handed to a handler, in order, and whether the connection was closed.
pub record Serving (S : Type 0) : Type 0 where
  pub handled : List S
  pub closed : Bool
  pub outcome : Outcome

module _ {S : Type 0} where
  abbrev pub hand : S → Serving S → Serving S
  hand s v = record v { handled = s ∷ v.handled }

  -- `Close`; `acceptStream` defers it.
  abbrev pub close : Serving S → Serving S
  close v = record v { closed = true }

  unfoldable pub accept_stream : List (Accepted S) → Serving S
  accept_stream [] = record { handled = []; closed = false; outcome = running }
  accept_stream (stream s ∷ rest) = hand s (accept_stream rest)
  accept_stream (cancelled ∷ rest) =
      close (record { handled = []; closed = false; outcome = returned none })
  accept_stream (failed ∷ rest) =
      close (record { handled = []; closed = false; outcome = returned (some accept_failed) })

  -- The registration loop, and the streams behind it. Each round asks the edge again.
  unfoldable pub register : List (Option Response) → List (Accepted S) → Serving S
  unfolding register_connection
  register [] streams = record { handled = []; closed = false; outcome = running }
  register (r ∷ rest) streams =
      let again = register rest streams in
      if is_managed (register_connection r) then accept_stream streams else again

  -- `opened` is whether the control stream can be opened.
  unfoldable pub serve : Bool → List (Option Response) → List (Accepted S) → Serving S
  serve opened responses streams =
      if opened
      then register responses streams
      else record { handled = []; closed = false; outcome = returned (some no_control_stream) }
