-- ===== src/Server/Start/Restart.antt =====
-- A quick tunnel from one run of the program to the next: what `Run` takes, what is saved at the
-- end, and what the next `Run` finds.
use cftun.Common.{ℕ, ◌+◌, ◌≤◌, ◌≡◌, refl, ap, ◌∙◌, Option, none, some, String, Bytes, Result, ok}
use cftun.Common.Codec.{IsJson}
use cftun.Server.Quick.{QuickData, lifetime, load, save}
use cftun.Server.Quick.Saved.{load-save}
use cftun.Server.Start.{QuickOutside, loaded, quick}

loaded-none : (q : QuickOutside) (r : QuickData × Option String) → r.1 ≡ none → loaded q r ≡ ok r.0
unfolding loaded
loaded-none q (qd, none) h = refl
loaded-none q (qd, some m) h = cc

-- Where encoding/json reads back what it writes: data that Save has written, and that a later run
-- finds not more than ten minutes old, is used again as it was saved; the service is not asked.
pub quick-save :
    (q : QuickOutside)
    → IsJson q.json
    → (qd zero' : QuickData) (saved : ℕ) (buf : Bytes) → (save q.json saved qd).1 ≡ some buf
    → q.file ≡ ok buf
    → q.now ≤ saved + lifetime
    → quick q zero' ≡ ok (record qd { last_active = saved })
unfolding quick
quick-save q j qd fresh saved buf h file young =
    let (same, iff) = load-save q.json j qd fresh saved q.now buf h in
    ap (λ (f : Result String Bytes). loaded q (load q.json f q.now fresh)) file
    ∙ loaded-none q _ (iff.1 young)
    ∙ ap (λ (v : QuickData). ok v) same
