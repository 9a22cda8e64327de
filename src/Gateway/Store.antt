-- ===== src/Gateway/Store.antt =====
-- The store in memory, with the gateway's cipher: what it fills of the assumptions on a store of
-- hand-offs.
use omnia_reader.Prelude.{
  ℕ, ◌+◌, ◌≤◌, ◌<◌, String, ◌≡◌, refl, ◌==◌, eq_refl, none, Bool, true, false, Option, some, List,
  [], ◌∷◌, length, all, arith, ◌∙◌, ap,
}
use omnia_reader.Prelude.CodeUnits.{code_units}
use omnia_reader.Prelude.JsMap.{get, put, get-put, get-remove}
use omnia_reader.Prelude.Text.{byte_length, has_code}
use omnia_reader.Prelude.Action.{Outcome, returned, thrown}
use omnia_reader.Gateway.Runtime.{
  GatewayError, Bytes, Runtime, RuntimeLaws, is_session_id, is_key_unit,
}
use omnia_reader.Gateway.Cipher.{Cipher, session_cipher, max_session_bytes, encrypt, encrypt_with}
use omnia_reader.Gateway.Cipher.Laws.{decrypt-encrypt}
use omnia_reader.Gateway.Sessions.{EncryptedRecord, set_session, take_session, Surroundings, opened}
use omnia_reader.Gateway.Memory.{Records, memory_call, memory_set, memory_take}
use omnia_reader.Gateway.Lifetimes.{memory_call-set, get-put_same}
use omnia_reader.Gateway.Requests.{NativeHandoffRecord, is_handoff_id, is_native_handoff_record}
use omnia_reader.Gateway.Handoff.{HandoffPort}
use omnia_reader.Gateway.Redemption.{KeepsHandoffs}
use omnia_reader.Gateway.Redemption.Once.{ForgetsTaken}

key_text-plain :
    (s : String)
    → all is_key_unit (code_units s) ≡ true
    → (byte_length s ≡ length (code_units s)) × (has_code 0 s ≡ false)
key_text-plain String.[] h = (refl, refl)
key_text-plain (String.◌∷◌ c s) h = ground (arith, key_text-plain s)

handoff_id-session_id : (id : String) → is_handoff_id id ≡ true → is_session_id id ≡ true
unfolding is_handoff_id is_session_id
handoff_id-session_id id h = ground (arith, key_text-plain id)

-- An encryption that returned had a vector of twelve bytes.
encrypt-iv :
    {Json : Type 0} (rt : Runtime Json) (keys : List Bytes) (iv : Bytes) (id : String) (v : Json)
    (c : String)
    → encrypt rt keys iv id v ≡ returned c
    → length iv ≡ 12
unfolding encrypt encrypt_with
encrypt-iv rt [] iv id v c h = ground arith
encrypt-iv rt (key ∷ keys) iv id v c h = ground arith

memory_call-set_sealed :
    {V : Type 0} (cipher : Cipher V) (ttl : ℕ) (at : Surroundings) (id : String) (v : V)
    (answer : Option V) (records : Records)
    → (memory_call cipher ttl at (set_session id v) records).0 ≡ returned answer
    → (c : String) × (cipher.encrypt at.iv id v ≡ returned c)
unfolding memory_call memory_set
memory_call-set_sealed cipher ttl at id v answer records h =
    by_outcome (cipher.encrypt at.iv id v) refl
  where
    by_outcome :
        (o : Outcome GatewayError String)
        → cipher.encrypt at.iv id v ≡ o
        → (c : String) × (cipher.encrypt at.iv id v ≡ returned c)
    by_outcome (thrown e) q = ground arith
    by_outcome (returned c) q = (c, q)

memory_call-take_current :
    {V : Type 0} (cipher : Cipher V) (ttl : ℕ) (at : Surroundings) (id : String) (v : V)
    (r : EncryptedRecord) (records : Records)
    → is_session_id id ≡ true
    → get id records ≡ some r
    → at.now < r.expires_at
    → cipher.decrypt id r.ciphertext ≡ some (record { value = v; needs_rotation = false })
    → (memory_call cipher ttl at (take_session id) records).0 ≡ returned (some v)
unfolding memory_call memory_take opened
memory_call-take_current cipher ttl at id v r records valid found current opens = ground arith

module _ (rt : Runtime NativeHandoffRecord) (laws : RuntimeLaws rt) (key : Bytes)
    (keys : List Bytes) (ttl : ℕ) (url : String → List (String × String) → String)
    (disposal_works : String → Bool) where
  abbrev pub memory_port : HandoffPort Records
  memory_port = record {
    store_call = memory_call (session_cipher rt (key ∷ keys)) ttl;
    url = url;
    disposal_works = disposal_works;
  }

  memory_port-take_set :
      (first second : Surroundings) (id : String) (r : NativeHandoffRecord)
      (answer : Option NativeHandoffRecord) (s : Records)
      → length key ≡ 32
      → rt.is_object r ≡ true
      → 28 + byte_length (rt.stringify r) ≤ max_session_bytes
      → is_handoff_id id ≡ true
      → (memory_port.store_call first (set_session id r) s).0 ≡ returned answer
      → second.now < first.later + ttl
      → (memory_port.store_call second
          (take_session id)
          (memory_port.store_call first (set_session id r) s).1).0
        ≡ returned (some r)
  memory_port-take_set first second id r answer s size object room handoff stored soon =
      let cipher = session_cipher rt (key ∷ keys) in
      let valid = handoff_id-session_id id handoff in
      let (c, sealed) = memory_call-set_sealed cipher ttl first id r answer s stored in
      let vector = encrypt-iv rt (key ∷ keys) first.iv id r c sealed in
      let (d, sealed_too, opens) =
        decrypt-encrypt rt laws key keys first.iv id r size vector valid object room in
      let kept : EncryptedRecord = record { ciphertext = d; expires_at = first.later + ttl } in
      ap (λ o. (memory_call cipher ttl second (take_session id) o.1).0)
        (memory_call-set cipher ttl first id r d s valid sealed_too)
      ∙ memory_call-take_current cipher ttl second id r kept (put id kept s) valid
          (get-put_same id kept s) soon opens

  set-IsGone :
      (at : Surroundings) (id other : String) (r : NativeHandoffRecord) (s : Records)
      → (other == id) ≡ false
      → get id s ≡ none
      → get id (memory_port.store_call at (set_session other r) s).1 ≡ none
  unfolding memory_call memory_set
  set-IsGone at id other r s apart gone =
      by_outcome ((session_cipher rt (key ∷ keys)).encrypt at.iv other r) refl
    where
      by_outcome :
          (o : Outcome GatewayError String)
          → (session_cipher rt (key ∷ keys)).encrypt at.iv other r ≡ o
          → get id (memory_port.store_call at (set_session other r) s).1 ≡ none
      by_outcome (thrown e) q = ground arith
      by_outcome (returned c) q =
          ground
            (arith, get-put other id (record { ciphertext = c; expires_at = at.later + ttl }) s)

  -- With a 32-byte key, and JSON texts of hand-offs that are objects and short, the store in memory
  -- keeps every hand-off that it accepted for its own time to live.
  pub memory_port-KeepsHandoffs :
      length key ≡ 32
      → ((r : NativeHandoffRecord)
          → is_native_handoff_record r ≡ true
          → (rt.is_object r ≡ true) × (28 + byte_length (rt.stringify r) ≤ max_session_bytes))
      → KeepsHandoffs memory_port ttl
  memory_port-KeepsHandoffs size short = record {
    take-set = λ first second id r answer s handoff checked stored soon.
        memory_port-take_set first second id r answer s size (short r checked).0 (short r checked).1
          handoff stored soon;
  }

  -- Whatever the key and the texts, what was taken from the store in memory stays gone until it is
  -- set again.
  pub memory_port-ForgetsTaken : ForgetsTaken memory_port
  unfolding memory_call memory_take
  memory_port-ForgetsTaken = record {
    IsGone = λ id s. get id s ≡ none;
    take-IsGone = λ at id s handoff.
        ground (arith, get-remove id id s, eq_refl id, handoff_id-session_id id handoff);
    take_gone = λ at id s handoff gone. ground (arith, handoff_id-session_id id handoff);
    take_other = λ at id other s gone. ground (arith, get-remove other id s);
    set_other = λ at id other r s apart gone. set-IsGone at id other r s apart gone;
  }
