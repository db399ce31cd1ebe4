-- ===== src/Client/Dialer/Tests.antt =====
-- Runs of the options of a socket.
use cftun.Common.{refl, true, none, some}
use cftun.Client.Dialer.{System}
use cftun.Client.Dialer.Linux as Linux
use cftun.Client.Dialer.Darwin as Darwin
use cftun.Client.Dialer.Windows as Windows
use cftun.Client.Dialer.Bound.{Known, Same, set_socket_options-Same}

-- A system with one interface, which accepts every call.
abbrev system : System
system = record {
  global = λ a. some true;
  by_name = λ n. some 3;
  by_index = λ i. some "eth0";
  control = none;
  accepts = λ c. none;
}

eth0 : Known system "eth0" 3
eth0 = record { named = refl; numbered = refl; by_name = refl; by_index = refl }

set_socket_options-Same_example :
    Same (Linux.set_socket_options system "tcp4" "1.1.1.1:443") "eth0" 3 7
    × Same (Darwin.set_socket_options system "tcp4" "1.1.1.1:443") "eth0" 3 7
    × Same (Windows.set_socket_options system "tcp4" "1.1.1.1:443") "eth0" 3 7
set_socket_options-Same_example =
    set_socket_options-Same system "tcp4" "1.1.1.1:443" "eth0" 3 7 eth0
