-- ===== src/Common/Codec.antt =====
-- What the program uses of encoding/json and encoding/base64: the codecs, and what is relied on.
use mathlib.Core.Path.{◌≡◌}
use mathlib.Core.Option.{Option, none}
use Prim.Native.String.{String}
use cftun.Common.Results.{Result, ok}
use cftun.Common.Lists.{Bytes}

-- `json.Marshal` of a type, and `json.Unmarshal` into a value, which it may change also where it
-- fails.
pub record Json (A : Type 0) : Type 0 where
  pub marshal : A → Result String Bytes
  pub unmarshal : Bytes → A → A × Option String

-- What was marshalled is read back, whatever it is read into: every field of the type is written.
pub record IsJson {A : Type 0} (j : Json A) : Type 0 where
  pub unmarshal-marshal :
      (a b : A) (bs : Bytes) → j.marshal a ≡ ok bs → j.unmarshal bs b ≡ (a, none)

-- base64.StdEncoding
pub record Base64 : Type 0 where
  pub encode : Bytes → String
  pub decode : String → Result String Bytes

pub record IsBase64 (b : Base64) : Type 0 where
  pub decode-encode : (bs : Bytes) → b.decode (b.encode bs) ≡ ok bs
