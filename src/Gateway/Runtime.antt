-- ===== src/Gateway/Runtime.antt =====
-- What the gateway calls of Node.js, and the errors that it throws. Bytes are numbers.
use omnia_reader.Prelude.{
  ℕ, ◌+◌, ◌*◌, ◌≤◌, String, ◌≡◌, Bool, true, false, ◌||◌, Option, some, List, length, ltb, leb, eqb,
  all, ◌&&◌, if◌then◌else◌,
}
use omnia_reader.Prelude.CodeUnits.{code_units}
use omnia_reader.Prelude.Text.{has_code, byte_length}
use omnia_reader.Prelude.Action.{Outcome, returned, thrown}

pub data GatewayError : Type 0 where
  invalid_session_id invalid_provider_session session_too_large invalid_iv : GatewayError
  invalid_session_keys invalid_session_file store_full disk_failure : GatewayError

abbrev pub Bytes : Type 0
Bytes = List ℕ

-- `seal` is the base64url text of the vector, the tag and the ciphertext of AES-256-GCM, and `open`
-- goes back from that text, if the tag fits. `sealed_bytes` is the number of bytes of the text.
pub record Runtime (Json : Type 0) : Type 0 where
  pub seal : Bytes → Bytes → String → String → String
  pub open_sealed : Bytes → String → String → Option String
  pub sealed_bytes : String → ℕ
  pub sha256_base64url : Bytes → String
  pub stringify : Json → String
  pub parse : String → Option Json
  pub is_object : Json → Bool

-- The documented behaviour of those calls that the gateway relies on.
pub record RuntimeLaws {Json : Type 0} (rt : Runtime Json) : Type 0 where
  pub open-seal :
      (key iv : Bytes) (aad text : String)
      → length key ≡ 32
      → length iv ≡ 12
      → rt.open_sealed key aad (rt.seal key iv aad text) ≡ some text
  pub sealed_bytes-seal :
      (key iv : Bytes) (aad text : String)
      → length iv ≡ 12
      → rt.sealed_bytes (rt.seal key iv aad text) ≡ 28 + byte_length text
  pub length-seal :
      (key iv : Bytes) (aad text : String)
      → length iv ≡ 12
      → 3 * length (code_units (rt.seal key iv aad text)) ≤ 4 * (28 + byte_length text) + 2
  pub seal_free :
      (key iv : Bytes) (aad text : String) → has_code b'.' (rt.seal key iv aad text) ≡ false
  pub sha256_free : (key : Bytes) → has_code b'.' (rt.sha256_base64url key) ≡ false
  pub parse-stringify : (v : Json) → rt.is_object v ≡ true → rt.parse (rt.stringify v) ≡ some v
  pub stringify_object : (v : Json) → rt.is_object v ≡ true → 1 ≤ byte_length (rt.stringify v)

abbrev pub is_key_unit : ℕ → Bool
is_key_unit c =
    (leb b'A' c && leb c b'Z')
    || (leb b'a' c && leb c b'z')
    || (leb b'0' c && leb c b'9')
    || eqb c b'_'
    || eqb c b'-'

-- `/^[A-Za-z0-9_-]{least,most}$/`
unfoldable pub is_key_text : ℕ → ℕ → String → Bool
is_key_text least most text =
    let units = code_units text in
    leb least (length units) && leb (length units) most && all is_key_unit units

unfoldable pub is_session_id : String → Bool
is_session_id session_id =
    if eqb (length (code_units session_id)) 0
    then false
    else if ltb 512 (byte_length session_id) || has_code 0 session_id
    then false
    else true

-- `assertSessionId`
unfoldable pub assert_session_id : String → Outcome GatewayError Unit
unfolding is_session_id
assert_session_id session_id =
    if is_session_id session_id then returned tt else thrown invalid_session_id
