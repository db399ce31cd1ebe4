-- ===== src/Server/Tls/Roots.antt =====
-- Which certificates a connection trusts.
use cftun.Common.{
  ℕ, zero, suc, ◌<◌, ◌≡◌, refl, sym, ap, ◌∙◌, if◌then◌else◌, str_eq, Bool-cases, Option-cases, none,
  some, String, List, [], ◌∷◌, ◌++◌, append-nil, append_assoc, length, inl, inr, Bytes, Result, ok,
  err, arith, Result-cases,
}
use cftun.Server.Tls.{
  Block, curve_p256, TlsConfig, Library, take_block, read_blocks, add_all, create_tunnel_config,
}

module _ {Cert Pool : Type 0} (x : Library Cert Pool) where
  -- The blocks that pem.Decode finds in a text, one behind the other.
  pub data Holds : Bytes → List Block → Type 0 where
    at_end : Holds [] []
    no_block : {text : Bytes} → (x.decode text).0 ≡ none → Holds text []
    block :
        {text : Bytes} {found : Block} {rest : List Block}
        → 0 < length text
        → (x.decode text).0 ≡ some found
        → Holds (x.decode text).1 rest
        → Holds text (found ∷ rest)

  -- The certificates of the blocks that are named so, in order, or the first error.
  pub certificates : List Block → Result String (List Cert)
  certificates [] = ok []
  certificates (b ∷ rest) =
      if str_eq b.block_type "CERTIFICATE"
      then (elim (x.parse_certificate b.contents) [
        | ok cert ↦ elim (certificates rest) [ ok certs ↦ ok (cert ∷ certs) | err e ↦ err e ]
        | err e ↦ err e
      ])
      else certificates rest

  -- What is put before the certificates that are still to come.
  abbrev onto : List Cert → Result String (List Cert) → Result String (List Cert)
  onto certs (ok more) = ok (certs ++ more)
  onto certs (err e) = err e

  -- The certificates of one block and those of the rest.
  take_block-certificates :
      (found : Block) (rest : List Block) (certs : List Cert)
      → onto certs (certificates (found ∷ rest)) ≡ (elim (take_block x found certs) [
        | ok certs' ↦ onto certs' (certificates rest)
        | err e ↦ err e
      ])
  unfolding certificates take_block
  take_block-certificates found rest certs =
      elim (Bool-cases (str_eq found.block_type "CERTIFICATE")) [
        | inl named ↦ rw named (elim (Result-cases (x.parse_certificate found.contents)) [
          | inl (cert, e) ↦ rw e (elim (Result-cases (certificates rest)) [
            | inl (more, q) ↦ rw q (ap ok (sym (append_assoc certs (cert ∷ []) more)))
            | inr (e', q) ↦ rw q
          ])
          | inr (e', e) ↦ rw e
        ])
        | inr other ↦ rw other
      ]

  end-read :
      (fuel : ℕ) (certs : List Cert) → read_blocks x (suc fuel) [] certs ≡ some (ok (certs ++ []))
  unfolding read_blocks
  end-read fuel certs = ap (λ (l : List Cert). some (ok l)) (sym (append-nil certs))

  no_block-read :
      (fuel : ℕ) (text : Bytes) (certs : List Cert)
      → (x.decode text).0 ≡ none
      → read_blocks x (suc fuel) text certs ≡ some (ok certs)
  unfolding read_blocks
  no_block-read fuel [] certs e = refl
  no_block-read fuel (b ∷ bs) certs e = rw (e, read_blocks)

  block-read :
      (fuel : ℕ) (text : Bytes) (found : Block) (certs : List Cert)
      → 0 < length text
      → (x.decode text).0 ≡ some found
      → read_blocks x (suc fuel) text certs ≡ (elim (take_block x found certs) [
        | ok certs' ↦ read_blocks x fuel (x.decode text).1 certs'
        | err e ↦ some (err e)
      ])
  unfolding read_blocks
  block-read fuel [] found certs h e = absurd (omega arith)
  block-read fuel (b ∷ bs) found certs h e = rw (e, read_blocks)

  -- What pem.Decode leaves behind a block is shorter.
  abbrev pub IsShorter : Type 0
  IsShorter =
      (text : Bytes) (found : Block)
      → (x.decode text).0 ≡ some found
      → length (x.decode text).1 < length text

  read_blocks-Holds :
      (shorter : IsShorter) (fuel : ℕ) {text : Bytes} (certs : List Cert) {blocks : List Block}
      → length text < fuel
      → Holds text blocks
      → read_blocks x fuel text certs ≡ some (onto certs (certificates blocks))
  unfolding certificates
  read_blocks-Holds shorter zero certs h holds = absurd (omega arith)
  read_blocks-Holds shorter (suc fuel) certs h at_end = end-read fuel certs
  read_blocks-Holds shorter (suc fuel) certs h (no_block {text} e) =
      no_block-read fuel text certs e ∙ ap (λ (l : List Cert). some (ok l)) (sym (append-nil certs))
  read_blocks-Holds shorter (suc fuel) certs h (block {text} {found} {rest} pos e holds) =
      block-read fuel text found certs pos e ∙ (elim (Result-cases (take_block x found certs)) [
        | inl (certs', q) ↦
            rw (take_block-certificates found rest certs, q)
              (read_blocks-Holds shorter fuel certs' (omega (arith, shorter text found e)) holds)
        | inr (e', q) ↦ rw (take_block-certificates found rest certs, q)
      ])

  -- Every text is read to its end.
  Holds-all :
      (shorter : IsShorter) (fuel : ℕ) (text : Bytes)
      → length text < fuel
      → (blocks : List Block) × Holds text blocks
  Holds-all shorter zero text h = absurd (omega arith)
  Holds-all shorter (suc fuel) [] h = ([], at_end)
  Holds-all shorter (suc fuel) (b ∷ bs) h = elim (Option-cases (x.decode (b ∷ bs)).0) [
    | inl e ↦ ([], no_block e)
    | inr (found, e) ↦
        let (blocks, holds) =
          Holds-all shorter fuel (x.decode (b ∷ bs)).1 (omega (arith, shorter (b ∷ bs) found e)) in
        (found ∷ blocks, block (omega arith) e holds)
  ]

  -- The configuration for a server's name, from the system's pool and the certificates.
  pub trusting :
      String → Result String Pool → Result String (List Cert) → Result String (TlsConfig Pool)
  unfolding add_all
  trusting name (err e) certs = err "unable to get x509 system cert pool"
  trusting name (ok pool) (err e) =
      err "could not append Cloudflare Root CAs to cloudflared certificate pool"
  trusting name (ok pool) (ok certs) = ok (record {
    server_name = name;
    curve_preferences = curve_p256 ∷ [];
    min_version = 0;
    max_version = 0;
    root_cas = add_all x certs pool;
  })

  onto_nothing : (r : Result String (List Cert)) → onto [] r ≡ r
  onto_nothing (ok certs) = refl
  onto_nothing (err e) = refl

  config-trusting :
      (fuel : ℕ) (text : Bytes) (name : String) (r : Result String (List Cert))
      → read_blocks x fuel text [] ≡ some r
      → create_tunnel_config x fuel text name ≡ some (trusting name x.system_cert_pool r)
  unfolding create_tunnel_config trusting
  config-trusting fuel text name r e = elim (Result-cases x.system_cert_pool) [
    | inr (e', q) ↦ rw (q, create_tunnel_config)
    | inl (pool, q) ↦
        rw (q, create_tunnel_config)
          (rw e (elim (Result-cases r) [ inl (certs, k) ↦ rw k | inr (e', k) ↦ rw k ]))
  ]

  -- Where pem.Decode leaves less text behind each block that it finds: on more fuel than there are
  -- bytes, CreateTunnelConfig returns. The text holds some blocks, one behind the other. It trusts
  -- the system's certificates and those of the blocks with the type CERTIFICATE, all of them and in
  -- their order, for the name that is asked for; it fails exactly where the system has no pool or
  -- one of these blocks is no certificate.
  pub create_tunnel_config-Holds :
      (shorter : IsShorter) (fuel : ℕ) (text : Bytes) (name : String)
      → length text < fuel
      → (blocks : List Block) × Holds text blocks
        × (create_tunnel_config x fuel text name
            ≡ some (trusting name x.system_cert_pool (certificates blocks)))
  create_tunnel_config-Holds shorter fuel text name h =
      let (blocks, holds) = Holds-all shorter fuel text h in
      (
        blocks,
        holds,
        config-trusting fuel text name (certificates blocks) (
            read_blocks-Holds shorter fuel [] h holds
            ∙ ap some (onto_nothing (certificates blocks))),
      )
