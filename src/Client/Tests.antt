-- ===== src/Client/Tests.antt =====
-- Runs of the client half.
use cftun.Common.Int.{ℤ, pos, ◌+ℤ◌}
use cftun.Common.Text.{fields, split, contains_text}
use cftun.Common.Text.{contains}
use cftun.Common.{◌^◌}
use cftun.Client.Config.{Config}
use cftun.Client.Buffer.{Buffer, new_allocator, get}
use cftun.Client.Buffer.Waste.{IsStocked, FitsInt, get-Fits}
use cftun.Client.Route.{Command, lines_of}
use cftun.Client.Route.Darwin as Darwin
use cftun.Client.Route.Linux as Linux
use cftun.Client.Route.Windows as Windows
use cftun.Client.Route.Targets.{
  Among, NotBelow, get_default_gateway-Among, slashes, slashes_of, slashes_of-commands,
}
use cftun.Client.Udp.{
  InboundData, Table, new_table, set_conn, store, enqueue, dialing, created, stored,
  new_conn as new_udp, listen_new, listen_load, listen_lock, listen_pass, listen_queue, start_conn,
  start_store, start_send, remote_read, outbound_take, outbound_write, Reach as Reach_udp,
  here as here_udp, next as next_udp,
}
use cftun.Client.Udp.Idle.{Activity, read_from_remote, write_to_remote}
use cftun.Client.Udp.Sessions.{Keyed}
use cftun.Client.Udp.Isolation.{sessions_isolated}
use cftun.Client.Udp.Replies.{IsAnswered, replies_isolated}
use cftun.Common.{
  ℕ, Option, String, ◌++◌, ◌⊎◌, ◌*◌, if◌then◌else◌, str_eq, ◌+◌, ◌≤◌, ◌<◌, ◌≡◌, refl, true, false,
  none, some, List, [], ◌∷◌, flatten, All, length, arith,
}
use cftun.Client.Argo.Gorilla.{GorillaConn}
use cftun.Client.Argo.Gorilla.Stream.{pending, read_all, read_all-pending}
use cftun.Client.Argo.Pool.{
  Pool, Reach, here, next, pre_enter, pre_connect, pre_push, pre_count, new_pool, idle, checked,
  pushed, connected, Link,
}
use cftun.Client.Argo.Pool.Counting.{IsBalanced, IsAtRest, Reach-IsBalanced}
use cftun.Client.Tcp.{Receiving}
use cftun.Client.Tcp.Copying.{IsSmooth}

-- Two messages, of which the first is longer than the buffers below.
abbrev incoming : GorillaConn
incoming = record { read_buf = []; inbox = (1 ∷ 2 ∷ 3 ∷ []) ∷ (4 ∷ []) ∷ []; outbox = [] }

pending_incoming : pending incoming ≡ 1 ∷ 2 ∷ 3 ∷ 4 ∷ []
unfolding flatten
pending_incoming = refl

enough_fuel : length (pending incoming) + length incoming.inbox < 7
unfolding flatten
enough_fuel = omega arith

read_all-pending_example : read_all 7 2 incoming ≡ some (pending incoming)
read_all-pending_example = read_all-pending 7 2 incoming (omega arith) enough_fuel

abbrev receiving : Receiving
receiving = record { closed = false; taken = λ n. n; failed = false }

receiving-IsSmooth : IsSmooth receiving
receiving-IsSmooth = record { live = refl; whole = λ n. refl; fine = refl }

abbrev seven : List Receiving
seven = receiving ∷ receiving ∷ receiving ∷ receiving ∷ receiving ∷ receiving ∷ receiving ∷ []

seven-IsSmooth : All IsSmooth seven
seven-IsSmooth = (
  receiving-IsSmooth,
  (
    receiving-IsSmooth,
    (
      receiving-IsSmooth,
      (receiving-IsSmooth, (receiving-IsSmooth, (receiving-IsSmooth, (receiving-IsSmooth, tt)))),
    ),
  ),
)

-- A pool of one, which `preDial` fills.
abbrev plain : Link
plain = record { opened_for = none }

abbrev entered : Pool
entered = record (new_pool 1) { pre = checked }

abbrev linked : Pool
linked = record (new_pool 1) { pre = connected plain }

abbrev pooled : Pool
pooled = record (new_pool 1) { pre = pushed; conns = plain ∷ [] }

abbrev filled : Pool
filled = record (new_pool 1) { pre = idle; conns = plain ∷ []; count = pos 1 }

filling : Reach (new_pool 1) filled
unfolding ◌+ℤ◌
filling =
    next
      (next (next (next here (pre_enter refl (omega arith))) (pre_connect refl refl))
        (pre_push plain refl (omega arith)))
      (pre_count refl)

Reach-IsBalanced_example : IsBalanced 1 filled
Reach-IsBalanced_example = Reach-IsBalanced filling

filled-IsAtRest : IsAtRest filled
filled-IsAtRest = record { pre = refl; takers = refl; drained = refl }

-- The allocator as it starts.
new-IsStocked : IsStocked new_allocator
new-IsStocked k = (refl, tt)

get-Fits_example :
    IsStocked (get true (pos 3000) new_allocator).0
    × FitsInt (pos 3000) (get true (pos 3000) new_allocator).1
get-Fits_example = get-Fits true (pos 3000) new_allocator new-IsStocked

abbrev page : Buffer
page = record { len = 3000; cap = 4096 }

-- A system that prints two default routes, and a parser for their metrics.
abbrev printed : Command → Option String
printed _ = some "No Manual 25 0.0.0.0/0 12 192.168.0.1\nNo Manual 5 0.0.0.0/0 7 10.0.0.1"

abbrev metrics : String → Option ℤ
metrics s = if str_eq s "25" then some (pos 25) else if str_eq s "5" then some (pos 5) else none

get_default_gateway-Among_example :
    let best = Windows.get_default_gateway metrics printed false in
    let lines = lines_of (printed (Windows.query false)) in
    ((best ≡ Windows.nothing_found) ⊎ Among metrics "0.0.0.0/0" best lines)
    × All
        (λ line. NotBelow metrics "0.0.0.0/0" best.metric (Windows.row metrics "0.0.0.0/0" line))
        lines
get_default_gateway-Among_example = get_default_gateway-Among metrics printed false

gateway_of_least : (Windows.get_default_gateway metrics printed false).gateway ≡ "10.0.0.1"
unfolding Windows.get_default_gateway Windows.scan Windows.row fields split contains_text
gateway_of_least = refl

one_prefix : slashes "10.0.0.0/8" ≤ 1
unfolding slashes
one_prefix = omega arith

bare_words : slashes_of ("10.0.0.1" ∷ "eth0" ∷ "fd00::1" ∷ "eth1" ∷ []) ≡ 0
unfolding slashes_of slashes
bare_words = refl

slashes_of-commands_example :
    (slashes_of (Linux.add_route "10.0.0.1" "10.0.0.0/8") ≡ slashes "10.0.0.0/8")
    × (slashes_of (Linux.exclude_route ("10.0.0.1", "eth0") ("fd00::1", "eth1") "10.0.0.0/8")
        ≡ slashes "10.0.0.0/8")
    × (slashes_of (Windows.add_route ("10.0.0.1", "eth0") ("fd00::1", "eth1") "10.0.0.0/8") ≡ 1)
    × (slashes_of (Darwin.exclude_route "10.0.0.1" "eth0" "10.0.0.0/8") ≡ 1)
    × (slashes_of (Darwin.add_route "10.0.0.1" "eth0" "10.0.0.0/8")
        ≡ (if contains b':' "10.0.0.0/8" then 1 else 2 * slashes "10.0.0.0/8"))
slashes_of-commands_example =
    slashes_of-commands "10.0.0.0/8" "10.0.0.1" "eth0" "fd00::1" "eth1" one_prefix bare_words

-- One datagram, up to its session.
abbrev datagram : InboundData
datagram = record { src = "10.0.0.2:5000"; buf = 7 ∷ [] }

abbrev opening : Table
opening = record new_table { starters = dialing datagram ∷ [] }

abbrev opened : Table
opened =
    set_conn 0 (new_udp "10.0.0.2:5000")
      (record opening { count = 1; starters = created 0 datagram ∷ [] })

abbrev known : Table
known = store "10.0.0.2:5000" (some 0) (record opened { starters = stored 0 datagram ∷ [] })

abbrev queued : Table
queued = set_conn 0 (enqueue datagram (new_udp "10.0.0.2:5000")) (record known { starters = [] })

session_opens : Reach_udp new_table queued
session_opens =
    next_udp
      (next_udp
        (next_udp (next_udp here_udp (listen_new datagram refl refl))
          (start_conn datagram [] [] refl))
        (start_store 0 datagram [] [] refl))
      (start_send 0 datagram [] [] refl refl (omega arith))

-- A second datagram, up to the queue.
abbrev second : InboundData
second = record { src = "10.0.0.2:5000"; buf = 8 ∷ [] }

abbrev twice : Table
twice = set_conn 0 (enqueue second (queued.conn 0)) queued

session_known : Reach_udp new_table twice
session_known =
    next_udp
      (next_udp
        (next_udp (next_udp session_opens (listen_load second 0 refl refl))
          (listen_lock second 0 refl))
        (listen_pass second 0 refl refl))
      (listen_queue second 0 refl refl (omega arith))

sessions_isolated_example :
    All
      (λ (d : InboundData). d.src ≡ (twice.conn 0).src_addr)
      ((twice.conn 0).written ++ (twice.conn 0).inbound_queue)
    × Keyed twice "10.0.0.2:5000" (twice.udp_conns "10.0.0.2:5000")
sessions_isolated_example = sessions_isolated session_known 0 "10.0.0.2:5000"

-- The remote answers, and the answer is written to the listener.
abbrev reply : String × List ℕ
reply = ("10.0.0.2:5000", 5 ∷ [])

abbrev replied : Table
replied =
    set_conn 0 (record (queued.conn 0) { received = (5 ∷ []) ∷ [] })
      (record queued { outbound_queue = reply ∷ [] })

abbrev answered : Table
answered = record replied { outbound_queue = []; replies = reply ∷ [] }

session_answers : Reach_udp new_table answered
session_answers =
    next_udp
      (next_udp (next_udp session_opens (remote_read 0 (5 ∷ []) (omega arith) refl (omega arith)))
        (outbound_take reply [] refl))
      (outbound_write reply [] [] refl)

replies_isolated_example : IsAnswered answered
replies_isolated_example = replies_isolated session_answers

-- A configuration with an edge address and two tunnels.
abbrev config : Config
config = record {
  cdn_ip = "2606:4700::1";
  cdn_port = 0;
  pool_size = 0;
  global_url = "a.example/x";
  scheme = "";
  tunnels =
      record {
        listen = "0.0.0.0:53";
        remote = "1.1.1.1:53";
        url = "";
        protocol = "udp";
        timeout = 0;
      }
      ∷ [];
  enable = some true;
}

abbrev https : ℕ → String
https _ = "443"

config_plain : (contains b'[' config.cdn_ip ≡ false) × (contains b'%' config.cdn_ip ≡ false)
unfolding contains
config_plain = (refl, refl)

-- A session of which the remote is silent from the 5th second on, while the local side sends, with
-- sleeps that are a second late.
abbrev second_ns : ℕ
second_ns = 10 ^ 9

abbrev activities : List (ℕ × Activity)
activities =
    (0, read_from_remote)
    ∷ (5 * second_ns, read_from_remote)
    ∷ (20 * second_ns, write_to_remote)
    ∷ (40 * second_ns, write_to_remote)
    ∷ []
