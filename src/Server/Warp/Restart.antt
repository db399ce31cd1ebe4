-- ===== src/Server/Warp/Restart.antt =====
-- A run that finds the file of an earlier one.
use cftun.Common.{
  ℕ, ◌≡◌, refl, ap, ◌∙◌, Bool, true, Option, none, some, String, List, ◌∷◌, Bytes, Result, ok, err,
  ok-injective,
}
use cftun.Common.Codec.{IsJson}
use cftun.Server.Warp.{
  Warp, Stop, Registration, Outside, apply, written, save, saved, load, strip, Device,
  local_addresses, device, with_tun, created, finish, start, started, run,
}

written-some :
    (o : Outside) (r : Result String Bytes) (b : ℕ) (bs : Bytes)
    → written o r ≡ b ∷ bs
    → r ≡ ok (b ∷ bs)
unfolding written
written-some o (err e) b bs h = cc
written-some o (ok buf) b bs h = ap (λ (v : Bytes). ok v) h

module _ {A : Type 0} (parse : String → Option A) (create_tun : List A → Option String)
    (dialed : String → Option String) where
  made_of : Warp → Result Stop (Device A)
  made_of w =
      created parse create_tun dialed (strip w) (local_addresses parse create_tun dialed (strip w))

  -- The proxy flags do not matter to the device.
  made_of-flags :
      (w : Warp) (p4 p6 : Bool) → made_of (record w { proxy4 = p4; proxy6 = p6 }) ≡ made_of w
  unfolding made_of strip created with_tun device local_addresses
  made_of-flags w p4 p6 = refl

  finish-ok :
      (w w' : Warp) (file f : Option Bytes) (r : Result Stop (Device A)) (d : Device A)
      → finish parse create_tun dialed w file r ≡ ok (w', f, d)
      → (r ≡ ok d) × (file ≡ f)
  unfolding finish
  finish-ok w w' file f (err s) d h = cc
  finish-ok w w' file f (ok d') d h =
      let e : (w, file, d') ≡ (w', f, d) = ok-injective {E = Stop} _ _ h in
      (
        ap (λ (v : Warp × Option Bytes × Device A). ok v.2) e,
        ap (λ (v : Warp × Option Bytes × Device A). v.1) e,
      )

  run_auto :
      (o : Outside) (file : Result String Bytes) (w : Warp)
      → w.auto ≡ true
      → run parse create_tun dialed o file w ≡ started parse create_tun dialed (load o file w)
  unfolding run
  run_auto o file w auto = cc

  -- What the first run registered.
  first_run :
      (o : Outside) (e : String) (w w1 : Warp) (buf : Bytes) (d : Device A)
      → w.auto ≡ true
      → run parse create_tun dialed o (err e) w ≡ ok (w1, some buf, d)
      → (wa : Warp) × (save o wa ≡ buf) × (made_of wa ≡ ok d)
  unfolding run started load saved made_of start
  first_run o e w w1 buf d auto h = from_apply (apply o w) cc
    where
      from_apply :
          (a : Result Stop Warp)
          → started parse create_tun dialed (saved o a) ≡ ok (w1, some buf, d)
          → (wa : Warp) × (save o wa ≡ buf) × (made_of wa ≡ ok d)
      from_apply (err s) k = cc
      from_apply (ok wa) k =
          let (m, f) = finish-ok (strip wa) w1 (some (save o wa)) (some buf) (made_of wa) d k in
          (wa, cc, m)

  -- Where encoding/json reads back what it writes, and the parsers, the driver of devices and the
  -- dial that finds out an endpoint's address answer the same call alike in both runs: when an
  -- automatic run that found no file has registered, written a file that is not empty and made a
  -- device, then a later automatic run that reads the file makes the same device, whatever its own
  -- configuration has in the other fields, the port included, and whatever the service would answer;
  -- and it writes no file.
  pub run-again :
      (o : Outside)
      → IsJson o.json
      → (e : String) (w w1 : Warp) (b : ℕ) (bs : Bytes) (d : Device A) → w.auto ≡ true
      → run parse create_tun dialed o (err e) w ≡ ok (w1, some (b ∷ bs), d)
      → (w2 : Warp) (random : Option Bytes) (register : Bytes → Result String Registration)
      → w2.auto ≡ true
      → (w3 : Warp) × (run parse create_tun dialed
            (record o { random = random; register = register })
            (ok (b ∷ bs))
            w2
          ≡ ok (w3, none, d))
  unfolding run started load start made_of save
  run-again o j e w w1 b bs d auto h w2 random register auto2 =
      let (wa, same, m) = first_run o e w w1 (b ∷ bs) d auto h in
      let decoded : o.json.unmarshal (b ∷ bs) w2 ≡ (wa, none) =
        j.unmarshal-marshal wa w2 (b ∷ bs) (written-some o (o.json.marshal wa) b bs same) in
      let kept : Warp = record wa { proxy4 = w2.proxy4; proxy6 = w2.proxy6 } in
      (
        strip kept,
        run_auto (record o { random = random; register = register }) (ok (b ∷ bs)) w2 auto2
            ∙ ap
                (λ (v : Warp × Option String).
                  start parse create_tun dialed
                    (record v.0 { proxy4 = w2.proxy4; proxy6 = w2.proxy6 }, none))
                decoded
            ∙ ap (finish parse create_tun dialed (strip kept) none)
                (made_of-flags wa w2.proxy4 w2.proxy6 ∙ m),
      )
