-- ===== src/Gateway/Cipher.antt =====
-- `SessionCipher`: sessions are sealed with the first key, and opened with any of the keys.
pub mod Laws
use omnia_reader.Prelude.{
  ℕ, suc, ◌*◌, String, Bool, true, false, not, ◌==◌, Option, none, some, List, [], ◌∷◌, map, length,
  ltb, eqb, any, all, ◌||◌, ◌&&◌, includes, if◌then◌else◌,
}
use omnia_reader.Prelude.CodeUnits.{code_units}
use omnia_reader.Prelude.Text.{concat, split, take_text, byte_length}
use omnia_reader.Prelude.Action.{Outcome, returned, thrown}
use omnia_reader.Gateway.Runtime.{
  GatewayError, session_too_large, invalid_iv, invalid_session_keys, invalid_session_id, Bytes,
  Runtime, is_session_id,
}

pub record DecryptedValue (V : Type 0) : Type 0 where
  pub value : V
  pub needs_rotation : Bool

-- What the stores ask of a cipher. Every caller of `decrypt` catches what it throws.
pub record Cipher (V : Type 0) : Type 0 where
  pub encrypt : Bytes → String → V → Outcome GatewayError String
  pub decrypt : String → String → Option (DecryptedValue V)

abbrev pub max_session_bytes : ℕ
max_session_bytes = 1024 * 1024

abbrev pub max_session_keys : ℕ
max_session_keys = 4

module _ {Json : Type 0} (rt : Runtime Json) where
  unfoldable pub key_id : Bytes → String
  key_id key = take_text 16 (rt.sha256_base64url key)

  unfoldable pub has_repeated : List String → Bool
  has_repeated [] = false
  has_repeated (x ∷ xs) = includes x xs || has_repeated xs

  -- `normalizeKeys`
  unfoldable pub normalize_keys : List Bytes → Outcome GatewayError (List Bytes)
  unfolding key_id has_repeated
  normalize_keys keys =
      if eqb (length keys) 0
      then thrown invalid_session_keys
      else if ltb max_session_keys (length keys) || any (λ k. not (eqb (length k) 32)) keys
      then thrown invalid_session_keys
      else if has_repeated (map key_id keys)
      then thrown invalid_session_keys
      else returned keys

  -- The text of `aad`, whose own check of the id is made where it is called.
  unfoldable pub aad : String → String → String
  aad session_id key_id_value =
      concat "omnia-sync-session:v1:" (concat key_id_value (concat ":" session_id))

  unfoldable pub encrypt_with : Bytes → Bytes → String → Json → Outcome GatewayError String
  unfolding key_id aad
  encrypt_with key iv session_id value =
      if ltb max_session_bytes (byte_length (rt.stringify value))
      then thrown session_too_large
      else if not (eqb (length iv) 12)
      then thrown invalid_iv
      else if not (is_session_id session_id)
      then thrown invalid_session_id
      else returned (
          concat "v1." (
            concat (key_id key)
              (concat "." (rt.seal key iv (aad session_id (key_id key)) (rt.stringify value)))))

  unfoldable pub encrypt : List Bytes → Bytes → String → Json → Outcome GatewayError String
  unfolding encrypt_with
  encrypt [] iv session_id value = thrown invalid_session_keys
  encrypt (key ∷ keys) iv session_id value = encrypt_with key iv session_id value

  unfoldable pub as_object : Option Json → Option Json
  as_object none = none
  as_object (some v) = if rt.is_object v then some v else none

  -- `decryptPayload`
  unfoldable pub decrypt_payload : String → String → Bytes → String → Option Json
  unfolding as_object
  decrypt_payload session_id payload key additional_data =
      if not (is_session_id session_id)
      then none
      else if ltb (rt.sealed_bytes payload) 29 || ltb max_session_bytes (rt.sealed_bytes payload)
      then none
      else elim (rt.open_sealed key additional_data payload) [
        | none ↦ none
        | some plaintext ↦ as_object (rt.parse plaintext)
      ]

  unfoldable pub decrypted : Bool → Option Json → Option (DecryptedValue Json)
  decrypted rotation none = none
  decrypted rotation (some v) = some (record { value = v; needs_rotation = rotation })

  -- The key with that id, and whether it is not the first one.
  unfoldable pub decrypt_envelope :
      Bool → String → String → String → List Bytes → Option (DecryptedValue Json)
  unfolding key_id aad decrypt_payload decrypted
  decrypt_envelope rotation session_id id payload [] = none
  decrypt_envelope rotation session_id id payload (key ∷ keys) =
      let later = decrypt_envelope true session_id id payload keys in
      if key_id key == id
      then decrypted rotation (decrypt_payload session_id payload key (aad session_id id))
      else later

  -- Sessions of before the envelope: each key is tried.
  unfoldable pub decrypt_legacy : String → String → List Bytes → Option (DecryptedValue Json)
  unfolding decrypt_payload decrypted
  decrypt_legacy session_id ciphertext [] = none
  decrypt_legacy session_id ciphertext (key ∷ keys) =
      let later = decrypt_legacy session_id ciphertext keys in
      elim (decrypt_payload session_id ciphertext key session_id) [
        | none ↦ later
        | some v ↦ decrypted true (some v)
      ]

  unfoldable pub decrypt_parts :
      List Bytes → String → String → List String → Option (DecryptedValue Json)
  unfolding decrypt_envelope decrypt_legacy
  decrypt_parts keys session_id ciphertext (version ∷ id ∷ payload ∷ []) =
      if version == "v1"
      then decrypt_envelope false session_id id payload keys
      else decrypt_legacy session_id ciphertext keys
  decrypt_parts keys session_id ciphertext _ = decrypt_legacy session_id ciphertext keys

  unfoldable pub decrypt : List Bytes → String → String → Option (DecryptedValue Json)
  unfolding decrypt_parts
  decrypt keys session_id ciphertext =
      if ltb (max_session_bytes * 2) (length (code_units ciphertext))
      then none
      else decrypt_parts keys session_id ciphertext (split b'.' ciphertext)

  -- `new SessionCipher(keys)`
  abbrev pub session_cipher : List Bytes → Cipher Json
  session_cipher keys = record { encrypt = encrypt keys; decrypt = decrypt keys }
