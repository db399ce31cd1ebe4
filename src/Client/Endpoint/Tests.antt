-- ===== src/Client/Endpoint/Tests.antt =====
-- Runs of an endpoint.
use cftun.Common.{◌≡◌, refl, List, [], ◌∷◌, All, Bytes, length, ◌+◌}
use cftun.Client.Endpoint.{Endpoint, Reading, Protocol, ipv4, write_packet}
use cftun.Client.Endpoint.Packets.{echo}

abbrev endpoint : Endpoint
endpoint = record { mtu = 4; offset = 2 }

abbrev packet4 : Bytes
packet4 = 69 ∷ 1 ∷ []

abbrev padding : Bytes → Bytes
padding _ = 0 ∷ 0 ∷ []

abbrev one_packet : List (Protocol × Bytes)
one_packet = (ipv4, packet4) ∷ []

abbrev readings : List Reading
readings = echo endpoint packet4 (0 ∷ 0 ∷ []) ∷ []

readings_fill : All (λ (r : Reading). length r.buf ≡ endpoint.offset + endpoint.mtu) readings
unfolding write_packet
readings_fill = (refl, tt)
