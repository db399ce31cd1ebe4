-- ===== src/Server/Quick/Saved.antt =====
-- What the file of a quick tunnel keeps from one run to the next, and what an application gives.
use cftun.Common.{ℕ, ◌≡◌, refl, ◌+◌, ◌≤◌, ◌↔◌, none, some, String, Bytes, Result, ok, err, arith}
use cftun.Common.Codec.{Json, IsJson}
use cftun.Server.Quick.{QuickData, lifetime, check_age, unmarshalled, load, written, save}

check_age-none :
    (now : ℕ) (qd : QuickData) → (check_age now qd ≡ none) ↔ (now ≤ qd.last_active + lifetime)
unfolding check_age
check_age-none now qd = (λ h. ground arith, λ h. ground arith)

written-some : (r : Result String Bytes) (buf : Bytes) → written r ≡ some buf → r ≡ ok buf
unfolding written
written-some (err e) buf h = cc
written-some (ok b) buf h = cc

-- Where encoding/json reads back what it writes, a file that Save has written is loaded to the
-- token, the domain and the time that were saved, whatever the struct held; and without an error
-- exactly where it is not older than ten minutes.
pub load-save :
    (json : Json QuickData)
    → IsJson json
    → (qd other : QuickData) (saved later : ℕ) (buf : Bytes) → (save json saved qd).1 ≡ some buf
    → ((load json (ok buf) later other).0 ≡ record qd { last_active = saved })
      × (((load json (ok buf) later other).1 ≡ none) ↔ (later ≤ saved + lifetime))
unfolding load save unmarshalled
load-save json j qd other saved later buf h =
    let e : json.unmarshal buf other ≡ (record qd { last_active = saved }, none) =
      j.unmarshal-marshal _ other buf (written-some _ buf h) in
    rw e (refl, check_age-none later (record qd { last_active = saved }))
