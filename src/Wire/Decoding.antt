-- ===== src/Wire/Decoding.antt =====
-- `decode` against the format: what it accepts, and what it refuses.
use cftun.Common.{
  ℕ, ◌+◌, ◌*◌, ◌/◌, ◌%◌, ◌<◌, ◌≤◌, ◌≡◌, refl, ap, sym, ◌∙◌, ◌⊎◌, [], ◌++◌, All, All-drop, take,
  drop, take-append-drop, length-drop, length-take, Bool-cases, inl, inr, ◌∷◌, arith, Bytes, length,
  get_or, ltb, ok, err, length-append, take-append_at, get_or-append_at, drop-append_at,
  if◌then◌else◌,
}
use cftun.Server.Packet.{Packet, missing_port_fields, decode, decode_rest}
use cftun.Wire.{encode}

-- The address has the length that the version asks for.
abbrev pub IsSized : Packet → Type 0
IsSized p =
    (p.ip_version ≡ 4) × (length p.dest_ip ≡ 4) ⊎ (p.ip_version ≡ 6) × (length p.dest_ip ≡ 16)

abbrev tail_of : Packet → Bytes
tail_of p = (p.dest_port / 256 % 256) ∷ (p.dest_port % 256) ∷ p.payload

length-encode :
    (p : Packet) (n : ℕ) → length p.dest_ip ≡ n → length (encode p) ≡ n + length p.payload + 4
length-encode p n h = omega (arith, length-append p.dest_ip (tail_of p))

port_bytes : (v : ℕ) → v < 65536 → v / 256 % 256 * 256 + v % 256 ≡ v
port_bytes v h = omega arith

-- What `decode_rest` makes of an encoded packet whose address has `n` bytes.
abbrev Reads : ℕ → Packet → Type 0
Reads n p =
    decode_rest n (encode p) ≡ (if ltb (length p.payload) 2 then err missing_port_fields else ok p)

module _ (p : Packet) (port : p.dest_port < 65536) where
  decode_rest_four : length p.dest_ip ≡ 4 → Reads 4 p
  unfolding decode_rest
  decode_rest_four size =
      rw
        (
          take-append_at 4 p.dest_ip (tail_of p) size,
          drop-append_at 4 2 p.dest_ip (tail_of p) size,
          get_or-append_at 4 0 p.dest_ip (tail_of p) 0 size,
          get_or-append_at 4 1 p.dest_ip (tail_of p) 0 size,
          length-append p.dest_ip (tail_of p),
          size,
          port_bytes p.dest_port port,
        )
        (ground arith)

  decode_rest_sixteen : length p.dest_ip ≡ 16 → Reads 16 p
  unfolding decode_rest
  decode_rest_sixteen size =
      rw
        (
          take-append_at 16 p.dest_ip (tail_of p) size,
          drop-append_at 16 2 p.dest_ip (tail_of p) size,
          get_or-append_at 16 0 p.dest_ip (tail_of p) 0 size,
          get_or-append_at 16 1 p.dest_ip (tail_of p) 0 size,
          length-append p.dest_ip (tail_of p),
          size,
          port_bytes p.dest_port port,
        )
        (ground arith)

  -- For an address of the version's length and a 16-bit port, decoding an encoded packet gives the
  -- packet back exactly when its payload has two bytes or more; a shorter payload is refused as a
  -- missing port.
  pub decode-encode :
      IsSized p
      → decode (encode p) ≡ (if ltb (length p.payload) 2 then err missing_port_fields else ok p)
  unfolding decode
  decode-encode (inl (v, size)) = ground (arith, decode_rest_four size, length-encode p 4 size)
  decode-encode (inr (v, size)) = ground (arith, decode_rest_sixteen size, length-encode p 16 size)

big_endian_high : (hi lo : ℕ) → hi < 256 → lo < 256 → (hi * 256 + lo) / 256 % 256 ≡ hi
big_endian_high hi lo h l = omega arith

big_endian_low : (hi lo : ℕ) → lo < 256 → (hi * 256 + lo) % 256 ≡ lo
big_endian_low hi lo l = omega arith

-- A packet with two or more bytes behind its address is encoded from some packet.
record Framed (v q : ℕ) (ip rest : Bytes) : Type 0 where
  packet : Packet
  same : encode packet ≡ v ∷ q ∷ (ip ++ rest)
  version : packet.ip_version ≡ v
  address : packet.dest_ip ≡ ip
  port : packet.dest_port < 65536

frame : (v q : ℕ) (ip rest : Bytes) → 2 ≤ length rest → All (λ b. b < 256) rest → Framed v q ip rest
frame v q ip (hi ∷ lo ∷ payload) h b = record {
  packet = record {
    ip_version = v;
    protocol = q;
    dest_ip = ip;
    dest_port = hi * 256 + lo;
    payload = payload;
  };
  same = rw (big_endian_high hi lo b.0 b.1.0, big_endian_low hi lo b.1.0);
  version = refl;
  address = refl;
  port = omega arith;
}
frame v q ip (hi ∷ []) h b = absurd (omega arith)
frame v q ip [] h b = absurd (omega arith)

-- What the tests of `decode` establish before the address is read.
decode_guards :
    (buf : Bytes) {p : Packet}
    → decode buf ≡ ok p
    → (get_or buf 0 0 ≡ 4) × (10 ≤ length buf) ⊎ (get_or buf 0 0 ≡ 6) × (22 ≤ length buf)
unfolding decode
decode_guards buf h = ground arith

-- What is decoded from bytes that encode some packet is that packet.
module _ (buf : Bytes) (p : Packet) (h : decode buf ≡ ok p) where
  abbrev Sound : Type 0
  Sound = (encode p ≡ buf) × IsSized p × (2 ≤ length p.payload)

  sound_of_encode : (k : Packet) → encode k ≡ buf → IsSized k → k.dest_port < 65536 → Sound
  sound_of_encode k same sized port =
      let e : ok p ≡ (if ltb (length k.payload) 2 then err missing_port_fields else ok k) =
        sym h ∙ ap decode (sym same) ∙ decode-encode k port sized in
      elim (Bool-cases (ltb (length k.payload) 2)) [
        | inl short ↦ absurd (ground (arith, e))
        | inr enough ↦ let q : p ≡ k = ground (arith, e) in rw q (same, sized, ground arith)
      ]

  sound_of_frame :
      (v q : ℕ) (rest : Bytes) (n : ℕ)
      → buf ≡ v ∷ q ∷ rest
      → (v ≡ 4) × (n ≡ 4) ⊎ (v ≡ 6) × (n ≡ 16)
      → n + 2 ≤ length rest
      → All (λ b. b < 256) rest
      → Sound
  sound_of_frame v q rest n e size enough b =
      let f =
        frame v q (take n rest) (drop n rest) (omega (arith, length-drop n rest))
          (All-drop _ n rest b) in
      sound_of_encode f.packet (f.same ∙ rw (take-append-drop n rest) (sym e))
        (rw (f.version, f.address, length-take n rest)
          (elim size [ inl s ↦ inl (s.0, omega arith) | inr s ↦ inr (s.0, omega arith) ]))
        f.port

-- Whatever bytes, below 256 each, are accepted, they are the encoding of the packet that is
-- returned, whose address has the length that its version asks for, and whose payload has two bytes
-- or more.
pub encode-decode :
    (buf : Bytes) (p : Packet)
    → All (λ b. b < 256) buf
    → decode buf ≡ ok p
    → (encode p ≡ buf) × IsSized p × (2 ≤ length p.payload)
encode-decode [] p b h = absurd (ground (arith, decode_guards [] h))
encode-decode (v ∷ []) p b h = absurd (ground (arith, decode_guards (v ∷ []) h))
encode-decode (v ∷ q ∷ rest) p b h = elim (decode_guards (v ∷ q ∷ rest) h) [
  | inl g ↦ sound_of_frame (v ∷ q ∷ rest) p h v q rest 4 refl (inl (g.0, refl)) (omega arith) b.1.1
  | inr g ↦ sound_of_frame (v ∷ q ∷ rest) p h v q rest 16 refl (inr (g.0, refl)) (omega arith) b.1.1
]
