-- ===== src/Client/Udp/Idle.antt =====
-- client/udp.go, `healthCheck` and `ReadFromRemote`: when a session ends that the remote sends nothing
-- to. Times are nanoseconds and do not overflow; a `time.Duration` is 64 bits.
use cftun.Common.{
  ℕ, zero, suc, ◌+◌, ◌-◌, ◌*◌, ◌%◌, ◌^◌, ◌<◌, ◌≤◌, ◌≡◌, Bool, ltb, leb, if◌then◌else◌, Option, none,
  some, List, [], ◌∷◌,
}

-- The timeout of a connector, `NewConn`, in seconds.
unfoldable pub idle_timeout : ℕ → ℕ
idle_timeout udp_timeout = if ltb udp_timeout 1 then 30 else udp_timeout

-- `c.idleTimeout * time.Second`, which wraps around.
unfoldable pub idle_duration : ℕ → ℕ
unfolding idle_timeout
idle_duration udp_timeout = idle_timeout udp_timeout * 10 ^ 9 % 2 ^ 64

-- What a session does with its remote: it begins a read, or it writes what the local side has sent.
pub data Activity : Type 0 where
  read_from_remote write_to_remote : Activity

-- What an activity makes of `lastRecvTime`.
unfoldable pub stamp : Activity → ℕ → ℕ → ℕ
stamp read_from_remote now last = now
stamp write_to_remote now last = last

-- `lastRecvTime` at the time t, of a connector that was made at a time, by what the session does and
-- when, in order.
unfoldable pub last_recv_time : ℕ → List (ℕ × Activity) → ℕ → ℕ
unfolding stamp
last_recv_time made [] t = made
last_recv_time made ((at, a) ∷ rest) t =
    last_recv_time (if leb at t then stamp a at made else made) rest t

-- `time.Now().After(c.lastRecvTime.Add(d))`; from 2 ^ 63 on a duration is negative.
unfoldable pub expired : ℕ → ℕ → ℕ → Bool
expired d last now = if ltb d (2 ^ 63) then ltb (last + d) now else ltb last (now + (2 ^ 64 - d))

-- How long `time.Sleep(d)` waits at least.
unfoldable pub sleep : ℕ → ℕ
sleep d = if ltb d (2 ^ 63) then d else 0

-- `late t` is by how much a sleep that begins at the time t exceeds its length. The answer is the time
-- at which the session is closed; none means that the fuel ran out.
module _ (d made : ℕ) (does : List (ℕ × Activity)) (late : ℕ → ℕ) where
  unfoldable pub health_check : ℕ → ℕ → Option ℕ
  unfolding expired sleep last_recv_time
  health_check zero now = none
  health_check (suc fuel) now =
      let rest = health_check fuel (now + sleep d + late now) in
      if expired d (last_recv_time made does now) now then some now else rest

  -- How a check ends: the session was idle for longer than its timeout, and not after the bound.
  pub record Closes (bound : ℕ) (r : Option ℕ) : Type 0 where
    pub at : ℕ
    pub closed : r ≡ some at
    pub idled : last_recv_time made does at + d < at
    pub in_time : at ≤ bound

-- Every read that a session begins, begins at this time at most.
abbrev pub BeginsBy : ℕ → ℕ × Activity → Type 0
BeginsBy from (at, read_from_remote) = at ≤ from
BeginsBy from (at, write_to_remote) = Unit
