-- ===== src/Server/Tls.antt =====
-- server/cfd/tls.go: the certificates that a connection to the edge trusts. encoding/pem and
-- crypto/x509 are parameters, and so is the text of the certificates.
pub mod Roots
mod Tests
use cftun.Common.{
  ℕ, zero, suc, Bool, true, false, if◌then◌else◌, str_eq, Option, none, some, String, List, [], ◌∷◌,
  ◌++◌, Bytes, Result, ok, err,
}

-- pem.Block
pub record Block : Type 0 where
  pub block_type : String
  pub contents : Bytes

-- The fields of TLSParameters that are read. A version of 0 leaves the choice to crypto/tls.
pub record TlsParameters : Type 0 where
  pub server_name : String
  pub min_version : ℕ
  pub max_version : ℕ

pub data CurveId : Type 0 where
  curve_p256 : CurveId

-- The fields of tls.Config that are set.
pub record TlsConfig (Pool : Type 0) : Type 0 where
  pub server_name : String
  pub curve_preferences : List CurveId
  pub min_version : ℕ
  pub max_version : ℕ
  pub root_cas : Pool

-- pem.Decode, x509.ParseCertificate, x509.SystemCertPool and AddCert.
pub record Library (Cert Pool : Type 0) : Type 0 where
  pub decode : Bytes → Option Block × Bytes
  pub parse_certificate : Bytes → Result String Cert
  pub system_cert_pool : Result String Pool
  pub add_cert : Cert → Pool → Pool

module _ {Cert Pool : Type 0} (x : Library Cert Pool) where
  -- A block that was found: whether it is passed over, ends the function, or is appended.
  unfoldable pub take_block : Block → List Cert → Result String (List Cert)
  take_block b certs =
      if str_eq b.block_type "CERTIFICATE"
      then (elim (x.parse_certificate b.contents) [
        | ok cert ↦ ok (certs ++ cert ∷ [])
        | err e ↦ err e
      ])
      else ok certs

  -- The loop of `GetCloudflareRootCA`; none means that the fuel ran out.
  unfoldable pub read_blocks : ℕ → Bytes → List Cert → Option (Result String (List Cert))
  unfolding take_block
  read_blocks zero pem_blocks certs = none
  read_blocks (suc fuel) [] certs = some (ok certs)
  read_blocks (suc fuel) (b ∷ bs) certs =
      let (block, rest) = x.decode (b ∷ bs) in
      elim block [
        | none ↦ some (ok certs)
        | some found ↦ elim (take_block found certs) [
          | ok certs' ↦ read_blocks fuel rest certs'
          | err e ↦ some (err e)
        ]
      ]

  unfoldable pub get_cloudflare_root_ca : ℕ → Bytes → Option (Result String (List Cert))
  unfolding read_blocks
  get_cloudflare_root_ca fuel cloudflare_root_ca = read_blocks fuel cloudflare_root_ca []

  unfoldable pub add_all : List Cert → Pool → Pool
  add_all [] pool = pool
  add_all (cert ∷ rest) pool = add_all rest (x.add_cert cert pool)

  unfoldable pub config_of : TlsParameters → Pool → TlsConfig Pool
  config_of user pool = record {
    server_name = user.server_name;
    curve_preferences = curve_p256 ∷ [];
    min_version = user.min_version;
    max_version = user.max_version;
    root_cas = pool;
  }

  unfoldable pub with_roots :
      TlsParameters → Pool → Result String (List Cert) → Result String (TlsConfig Pool)
  unfolding config_of add_all
  with_roots user pool (err e) =
      err "could not append Cloudflare Root CAs to cloudflared certificate pool"
  with_roots user pool (ok certs) = ok (config_of user (add_all certs pool))

  unfoldable pub create_tunnel_config : ℕ → Bytes → String → Option (Result String (TlsConfig Pool))
  unfolding get_cloudflare_root_ca with_roots
  create_tunnel_config fuel cloudflare_root_ca server_name =
      let user : TlsParameters = record {
        server_name = server_name;
        min_version = 0;
        max_version = 0;
      } in
      elim x.system_cert_pool [
        | err e ↦ some (err "unable to get x509 system cert pool")
        | ok pool ↦ elim (get_cloudflare_root_ca fuel cloudflare_root_ca) [
          | none ↦ none
          | some roots ↦ some (with_roots user pool roots)
        ]
      ]
