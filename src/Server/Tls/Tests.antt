-- ===== src/Server/Tls/Tests.antt =====
-- A configuration for the edge.
use cftun.Common.{
  ℕ, ◌<◌, ◌==◌, ◌≡◌, refl, if◌then◌else◌, Option, none, some, List, [], ◌∷◌, length, Bytes, ok,
  arith,
}
use cftun.Server.Tls.{Block, curve_p256, Library, create_tunnel_config}
use cftun.Server.Tls.Roots.{Holds, certificates, trusting, create_tunnel_config-Holds}

-- A byte 0 is no block, a byte 1 a key, any other a certificate.
abbrev one_block : ℕ → Bytes → Option Block × Bytes
one_block b bs = if b == 0 then (none, b ∷ bs) else (
  some (record {
    block_type = if b == 1 then "EC PRIVATE KEY" else "CERTIFICATE";
    contents = b ∷ [];
  }),
  bs,
)

abbrev bytewise : Bytes → Option Block × Bytes
bytewise [] = (none, [])
bytewise (b ∷ bs) = one_block b bs

abbrev library : Library ℕ (List ℕ)
library = record {
  decode = bytewise;
  parse_certificate = λ bytes. ok (length bytes);
  system_cert_pool = ok (100 ∷ []);
  add_cert = λ c pool. c ∷ pool;
}

bytewise-IsShorter :
    (text : Bytes) (found : Block)
    → (bytewise text).0 ≡ some found
    → length (bytewise text).1 < length text
bytewise-IsShorter [] found e = cc
bytewise-IsShorter (b ∷ bs) found e = ground arith

-- The key is passed over.
trusted :
    create_tunnel_config library 10 (7 ∷ 1 ∷ 8 ∷ []) "quic.cftunnel.com"
    ≡ some (
        ok (record {
          server_name = "quic.cftunnel.com";
          curve_preferences = curve_p256 ∷ [];
          min_version = 0;
          max_version = 0;
          root_cas = 1 ∷ 1 ∷ 100 ∷ [];
        }))
unfolding create_tunnel_config
trusted = refl

create_tunnel_config-Holds_example :
    (blocks : List Block) × Holds library (7 ∷ 1 ∷ 8 ∷ []) blocks
    × (create_tunnel_config library 10 (7 ∷ 1 ∷ 8 ∷ []) "quic.cftunnel.com"
        ≡ some (
            trusting library "quic.cftunnel.com" library.system_cert_pool
              (certificates library blocks)))
create_tunnel_config-Holds_example =
    create_tunnel_config-Holds library bytewise-IsShorter 10 (7 ∷ 1 ∷ 8 ∷ []) "quic.cftunnel.com"
      (omega arith)
