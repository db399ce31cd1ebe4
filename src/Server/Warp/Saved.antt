-- ===== src/Server/Warp/Saved.antt =====
-- What a run keeps of the configuration, and what the file keeps from one run to the next.
use Prim.Native.String.{[], ◌∷◌}
use Prim.Native.Char.{code}
use cftun.Common.{
  ℕ, ◌≡◌, refl, ap, sym, ◌∙◌, false, Bool-cases, ◌==◌, Option, none, some, String, List, Bytes,
  Result, ok-injective, ok, err, inl, inr,
}
use cftun.Common.Text.{contains, before, is_empty}
use cftun.Server.Key.{new_private_key}
use cftun.Server.Warp.{
  Warp, Stop, verify, Registration, Outside, fill, registered, with_key, apply, saved, load,
  without_length, strip, Device, local_addresses, device, with_tun, created, finish, start, started,
  run,
}

contains-before : (c : ℕ) (s : String) → contains c (before c s) ≡ false
unfolding contains before
contains-before c [] = refl
contains-before c (ch ∷ s) = elim (Bool-cases (code ch == c)) [
  | inl t ↦ rw (t, before) refl
  | inr f ↦ rw (f, before, contains, f) (contains-before c s)
]

contains-without_length : (s : String) → contains b'/' (without_length s) ≡ false
unfolding without_length
contains-without_length s = elim (Bool-cases (contains b'/' s)) [
  | inl t ↦ rw t (contains-before b'/' s)
  | inr f ↦ rw f f
]

-- The proxy flags and whether the registration is automatic, as they were configured.
unfoldable pub SameFlags : Warp → Warp → Type 0
SameFlags w w' = (w'.proxy4 ≡ w.proxy4) × (w'.proxy6 ≡ w.proxy6)

same_flags : (w w1 w' : Warp) → SameFlags w w1 → w1 ≡ w' → SameFlags w w'
unfolding SameFlags
same_flags w w1 w' (e4, e6) h =
    (ap (λ (v : Warp). v.proxy4) (sym h) ∙ e4, ap (λ (v : Warp). v.proxy6) (sym h) ∙ e6)

module _ (o : Outside) where
  registered-SameFlags :
      (key : Bytes) (r : Result String Registration) (w w' : Warp)
      → registered o key r w ≡ ok w'
      → SameFlags w w'
  unfolding registered fill SameFlags
  registered-SameFlags key (err e) w w' h = cc
  registered-SameFlags key (ok r) w w' h = elim (Bool-cases (is_empty r.v6)) [
    | inl t ↦ cc
    | inr f ↦
        let same : fill o key r w ≡ w' = cc in same_flags w (fill o key r w) w' (refl, refl) same
  ]

  apply-SameFlags : (w w' : Warp) → apply o w ≡ ok w' → SameFlags w w'
  unfolding apply with_key
  apply-SameFlags w w' h = from_key (new_private_key o.random) h
    where
      from_key : (k : Option Bytes) → with_key o k w ≡ ok w' → SameFlags w w'
      from_key none e = cc
      from_key (some key) e = registered-SameFlags key (o.register key) w w' e

  load-SameFlags :
      (file : Result String Bytes) (w : Warp) (r : Warp × Option Bytes)
      → load o file w ≡ ok r
      → SameFlags w (r.0)
  unfolding load saved SameFlags
  load-SameFlags (ok buf) w r h =
      same_flags w _ (r.0) (refl, refl)
        (ap (λ (v : Warp × Option Bytes). v.0) (ok-injective {E = Stop} _ r h))
  load-SameFlags (err e) w r h = from_apply (apply o w) refl h
    where
      from_apply : (a : Result Stop Warp) → apply o w ≡ a → saved o a ≡ ok r → SameFlags w (r.0)
      from_apply (err s) e k = cc
      from_apply (ok w1) e k =
          same_flags w w1 (r.0) (apply-SameFlags w w1 e)
            (ap (λ (v : Warp × Option Bytes). v.0) (ok-injective {E = Stop} _ r k))

module _ {A : Type 0} (parse : String → Option A) (create_tun : List A → Option String)
    (dialed : String → Option String) where
  -- How a run leaves the struct, and the device that it makes.
  pub record Runs (w w' : Warp) (d : Device A) : Type 0 where
    pub flags : SameFlags w w'
    pub bare4 : contains b'/' w'.ipv4 ≡ false
    pub bare6 : contains b'/' w'.ipv6 ≡ false
    pub addresses : List A
    pub parsed : local_addresses parse create_tun dialed w' ≡ ok addresses
    pub made : d ≡ device parse create_tun dialed w' addresses

  with_tun-device :
      (w : Warp) (addresses : List A) (e : Option String) (d : Device A)
      → with_tun parse create_tun dialed w addresses e ≡ ok d
      → d ≡ device parse create_tun dialed w addresses
  unfolding with_tun
  with_tun-device w addresses (some e) d h = cc
  with_tun-device w addresses none d h = sym (ok-injective {E = Stop} _ d h)

  start-Runs :
      (w w1 w' : Warp) (file f : Option Bytes) (d : Device A)
      → SameFlags w w1
      → start parse create_tun dialed (w1, file) ≡ ok (w', f, d)
      → Runs w w' d
  unfolding start created strip SameFlags
  start-Runs w w1 w' file f d flags h =
      from_addresses (local_addresses parse create_tun dialed (strip w1)) refl h
    where
      from_device :
          (addresses : List A) (r : Result Stop (Device A))
          → local_addresses parse create_tun dialed (strip w1) ≡ ok addresses
          → with_tun parse create_tun dialed (strip w1) addresses (create_tun addresses) ≡ r
          → finish parse create_tun dialed (strip w1) file r ≡ ok (w', f, d)
          → Runs w w' d
      from_device addresses (err s) e e2 k = cc
      from_device addresses (ok d') e e2 k =
          let same : strip w1 ≡ w' =
            ap (λ (v : Warp × Option Bytes × Device A). v.0) (ok-injective {E = Stop} _ _ k) in
          let same_d : d' ≡ d =
            ap (λ (v : Warp × Option Bytes × Device A). v.2) (ok-injective {E = Stop} _ _ k) in
          record {
            flags = same_flags w (strip w1) w' flags same;
            bare4 =
                ap (λ (v : Warp). contains b'/' v.ipv4) (sym same)
                ∙ contains-without_length w1.ipv4;
            bare6 =
                ap (λ (v : Warp). contains b'/' v.ipv6) (sym same)
                ∙ contains-without_length w1.ipv6;
            addresses = addresses;
            parsed = ap (local_addresses parse create_tun dialed) (sym same) ∙ e;
            made =
                sym same_d
                ∙ with_tun-device (strip w1) addresses (create_tun addresses) d' e2
                ∙ ap (λ v. device parse create_tun dialed v addresses) same;
          }

      from_addresses :
          (l : Result Stop (List A))
          → local_addresses parse create_tun dialed (strip w1) ≡ l
          → finish parse create_tun dialed
              (strip w1)
              file
              (created parse create_tun dialed (strip w1) l)
            ≡ ok (w', f, d)
          → Runs w w' d
      from_addresses (err s) e k = cc
      from_addresses (ok addresses) e k = from_device addresses _ e refl k

  -- Whatever the file and the service say, when Run returns: the proxy flags are those of the
  -- configuration; neither address has a prefix length any more; and the device has the addresses
  -- that the struct's texts parse to, and the struct's port, keys, reserved bytes and resolved
  -- endpoint.
  pub run-Runs :
      (o : Outside) (file : Result String Bytes) (w w' : Warp) (f : Option Bytes) (d : Device A)
      → run parse create_tun dialed o file w ≡ ok (w', f, d)
      → Runs w w' d
  unfolding run started SameFlags
  run-Runs o file w w' f d h = elim (Bool-cases w.auto) [
    | inl t ↦ from_load (load o file w) refl cc
    | inr u ↦ elim (Bool-cases (verify w)) [
      | inl v ↦ start-Runs w w w' none f d (refl, refl) cc
      | inr v ↦ cc
    ]
  ]
    where
      from_load :
          (r : Result Stop (Warp × Option Bytes))
          → load o file w ≡ r
          → started parse create_tun dialed r ≡ ok (w', f, d)
          → Runs w w' d
      from_load (err s) e k = cc
      from_load (ok (w1, f1)) e k = start-Runs w w1 w' f1 f d (load-SameFlags o file w (w1, f1) e) k
