-- ===== src/Gateway/Cipher/Laws.antt =====
-- What is sealed can be opened, except for the largest sessions that are accepted.
use omnia_reader.Prelude.{
  ◌+◌, ◌*◌, ◌≤◌, ◌<◌, String, ◌≡◌, refl, ap, ◌∙◌, true, false, none, some, List, ◌∷◌, [], length,
  ltb, if◌then◌else◌, arith, eq_refl,
}
use omnia_reader.Prelude.CodeUnits.{code_units}
use omnia_reader.Prelude.Text.{concat, split, byte_length, has_code}
use omnia_reader.Prelude.Text.Laws.{
  split-concat, split_free, length-concat, length-take_text, take_text_free,
}
use omnia_reader.Prelude.Action.{returned}
use omnia_reader.Gateway.Runtime.{Bytes, Runtime, RuntimeLaws, is_session_id}
use omnia_reader.Gateway.Cipher.{
  max_session_bytes, key_id, aad, encrypt, encrypt_with, decrypt, decrypt_parts, decrypt_envelope,
  decrypt_payload, decrypted, as_object,
}

module _ {Json : Type 0} (rt : Runtime Json) (laws : RuntimeLaws rt) where
  -- The text that `encrypt` makes.
  abbrev sealed : Bytes → Bytes → String → Json → String
  sealed key iv session_id v = rt.seal key iv (aad rt session_id (key_id rt key)) (rt.stringify v)

  abbrev envelope : Bytes → Bytes → String → Json → String
  envelope key iv session_id v =
      concat "v1." (concat (key_id rt key) (concat "." (sealed key iv session_id v)))

  key_id_free : (key : Bytes) → has_code b'.' (key_id rt key) ≡ false
  unfolding key_id
  key_id_free key = take_text_free b'.' 16 (rt.sha256_base64url key) (laws.sha256_free key)

  split-envelope :
      (key iv : Bytes) (session_id : String) (v : Json)
      → split b'.' (envelope key iv session_id v)
        ≡ "v1" ∷ key_id rt key ∷ sealed key iv session_id v ∷ []
  split-envelope key iv session_id v =
      ap (λ parts. "v1" ∷ parts)
        (split-concat b'.' (key_id rt key) _ (sealed key iv session_id v) (key_id_free key) refl
          ∙ ap (λ parts. key_id rt key ∷ parts)
              (split_free b'.' (sealed key iv session_id v)
                (laws.seal_free key iv (aad rt session_id (key_id rt key)) (rt.stringify v))))

  length-envelope :
      (key iv : Bytes) (session_id : String) (v : Json)
      → length iv ≡ 12
      → 3 * length (code_units (envelope key iv session_id v))
        ≤ 222 + 4 * byte_length (rt.stringify v)
  unfolding key_id
  length-envelope key iv session_id v h =
      let text = sealed key iv session_id v in
      let id = key_id rt key in
      grind (
        arith,
        length-concat "v1." (concat id (concat "." text)),
        length-concat id (concat "." text),
        length-concat "." text,
        length-take_text 16 (rt.sha256_base64url key),
        laws.length-seal key iv (aad rt session_id id) (rt.stringify v) h,
      )

  -- Where all the guards of `encrypt` pass, the envelope is what it returns.
  encrypt-returned :
      (key : Bytes) (keys : List Bytes) (iv : Bytes) (session_id : String) (v : Json)
      → byte_length (rt.stringify v) ≤ max_session_bytes
      → length iv ≡ 12
      → is_session_id session_id ≡ true
      → encrypt rt (key ∷ keys) iv session_id v ≡ returned (envelope key iv session_id v)
  unfolding encrypt encrypt_with
  encrypt-returned key keys iv session_id v small vector valid = ground arith

  decrypt-envelope :
      (key : Bytes) (keys : List Bytes) (iv : Bytes) (session_id : String) (v : Json)
      → byte_length (rt.stringify v) ≤ max_session_bytes
      → length iv ≡ 12
      → decrypt rt (key ∷ keys) session_id (envelope key iv session_id v)
        ≡ decrypted rt false (
            decrypt_payload rt session_id
              (sealed key iv session_id v)
              key
              (aad rt session_id (key_id rt key)))
  unfolding decrypt decrypt_parts decrypt_envelope
  decrypt-envelope key keys iv session_id v small vector = ground (
    arith,
    length-envelope key iv session_id v vector,
    split-envelope key iv session_id v,
    eq_refl (key_id rt key),
  )

  decrypt_payload-sealed :
      (key iv : Bytes) (session_id : String) (v : Json)
      → length key ≡ 32
      → length iv ≡ 12
      → is_session_id session_id ≡ true
      → rt.is_object v ≡ true
      → decrypt_payload rt session_id
          (sealed key iv session_id v)
          key
          (aad rt session_id (key_id rt key))
        ≡ (if ltb max_session_bytes (28 + byte_length (rt.stringify v)) then none else some v)
  unfolding decrypt_payload as_object
  decrypt_payload-sealed key iv session_id v size vector valid object =
      let text = rt.stringify v in
      let additional = aad rt session_id (key_id rt key) in
      ground (
        arith,
        laws.sealed_bytes-seal key iv additional text vector,
        laws.open-seal key iv additional text size vector,
        laws.parse-stringify v object,
        laws.stringify_object v object,
      )

  -- A session of an object whose JSON text is 28 bytes short of the limit is opened again as it was
  -- sealed, with the key that sealed it.
  pub decrypt-encrypt :
      (key : Bytes) (keys : List Bytes) (iv : Bytes) (session_id : String) (v : Json)
      → length key ≡ 32
      → length iv ≡ 12
      → is_session_id session_id ≡ true
      → rt.is_object v ≡ true
      → 28 + byte_length (rt.stringify v) ≤ max_session_bytes
      → (c : String) × (encrypt rt (key ∷ keys) iv session_id v ≡ returned c)
        × (decrypt rt (key ∷ keys) session_id c
            ≡ some (record { value = v; needs_rotation = false }))
  unfolding decrypted
  decrypt-encrypt key keys iv session_id v size vector valid object room = (
    envelope key iv session_id v,
    encrypt-returned key keys iv session_id v (omega arith) vector valid,
    decrypt-envelope key keys iv session_id v (omega arith) vector
        ∙ ground (arith, decrypt_payload-sealed key iv session_id v size vector valid object),
  )

  -- A session of an object whose JSON text is within the limit by less than 28 bytes is sealed, and
  -- what was sealed cannot be opened.
  pub decrypt-oversized :
      (key : Bytes) (keys : List Bytes) (iv : Bytes) (session_id : String) (v : Json)
      → length key ≡ 32
      → length iv ≡ 12
      → is_session_id session_id ≡ true
      → rt.is_object v ≡ true
      → byte_length (rt.stringify v) ≤ max_session_bytes
      → max_session_bytes < 28 + byte_length (rt.stringify v)
      → (c : String) × (encrypt rt (key ∷ keys) iv session_id v ≡ returned c)
        × (decrypt rt (key ∷ keys) session_id c ≡ none)
  unfolding decrypted
  decrypt-oversized key keys iv session_id v size vector valid object small large = (
    envelope key iv session_id v,
    encrypt-returned key keys iv session_id v small vector valid,
    decrypt-envelope key keys iv session_id v small vector
        ∙ ground (arith, decrypt_payload-sealed key iv session_id v size vector valid object),
  )
