-- ===== src/Gateway/Lifetimes.antt =====
-- How long a session can be had, with the gateway's own cipher.
use omnia_reader.Prelude.{
  ℕ, ◌+◌, ◌≤◌, ◌<◌, String, ◌≡◌, ◌∙◌, ap, true, false, none, some, List, ◌∷◌, ltb, length, if-holds,
  if◌then◌else◌, arith, eq_refl,
}
use omnia_reader.Prelude.JsMap.{JsMap, get, put, remove, get-put, get-remove}
use omnia_reader.Prelude.Text.{byte_length}
use omnia_reader.Prelude.Action.{returned, thrown}
use omnia_reader.Gateway.Runtime.{
  Bytes, Runtime, RuntimeLaws, is_session_id, invalid_provider_session,
}
use omnia_reader.Gateway.Cipher.{Cipher, session_cipher, max_session_bytes}
use omnia_reader.Gateway.Cipher.Laws.{decrypt-encrypt, decrypt-oversized}
use omnia_reader.Gateway.Sessions.{EncryptedRecord, get_session, set_session, Surroundings}
use omnia_reader.Gateway.Memory.{Records, memory_get_live, memory_get, memory_set, memory_call}

module _ {V : Type 0} (cipher : Cipher V) (ttl : ℕ) (at : Surroundings) where
  pub memory_call-set :
      (id : String) (v : V) (c : String) (records : Records)
      → is_session_id id ≡ true
      → cipher.encrypt at.iv id v ≡ returned c
      → memory_call cipher ttl at (set_session id v) records
        ≡ (returned none, put id (record { ciphertext = c; expires_at = at.later + ttl }) records)
  unfolding memory_call memory_set
  memory_call-set id v c records valid sealed = ground arith

  memory_call-get_current :
      (id : String) (v : V) (r : EncryptedRecord) (records : Records)
      → is_session_id id ≡ true
      → get id records ≡ some r
      → at.now < r.expires_at
      → cipher.decrypt id r.ciphertext ≡ some (record { value = v; needs_rotation = false })
      → memory_call cipher ttl at (get_session id) records ≡ (returned (some v), records)
  unfolding memory_call memory_get memory_get_live
  memory_call-get_current id v r records valid found current opens = ground arith

  memory_call-get_broken :
      (id : String) (r : EncryptedRecord) (records : Records)
      → is_session_id id ≡ true
      → get id records ≡ some r
      → at.now < r.expires_at
      → cipher.decrypt id r.ciphertext ≡ none
      → memory_call cipher ttl at (get_session id) records
        ≡ (thrown invalid_provider_session, remove id records)
  unfolding memory_call memory_get memory_get_live
  memory_call-get_broken id r records valid found current broken = ground arith

  memory_call-get_missing :
      (id : String) (records : Records)
      → is_session_id id ≡ true
      → get id records ≡ none
      → (memory_call cipher ttl at (get_session id) records).0 ≡ returned none
  unfolding memory_call memory_get
  memory_call-get_missing id records valid missing = ground arith

  memory_call-get_expired :
      (id : String) (r : EncryptedRecord) (records : Records)
      → is_session_id id ≡ true
      → get id records ≡ some r
      → r.expires_at ≤ at.now
      → (memory_call cipher ttl at (get_session id) records).0 ≡ returned none
  unfolding memory_call memory_get
  memory_call-get_expired id r records valid found past = ground arith

pub get-put_same {ℓ} :
    {A : Type ℓ} (id : String) (a : A) (m : JsMap A) → get id (put id a m) ≡ some a
get-put_same id a m = ground (arith, get-put id id a m, eq_refl id)

abbrev until : String → ℕ → EncryptedRecord
until c time = record { ciphertext = c; expires_at = time }

-- A session whose JSON text is 28 bytes short of the limit is had back from the store in memory until
-- its time has passed, and not from then on.
pub memory_call-set_get :
    {Json : Type 0} (rt : Runtime Json) (laws : RuntimeLaws rt) (key : Bytes) (keys : List Bytes)
    (ttl : ℕ) (first second : Surroundings) (id : String) (v : Json) (records : Records)
    → length key ≡ 32
    → length first.iv ≡ 12
    → is_session_id id ≡ true
    → rt.is_object v ≡ true
    → 28 + byte_length (rt.stringify v) ≤ max_session_bytes
    → let cipher = session_cipher rt (key ∷ keys) in
      let (reply, left) = memory_call cipher ttl first (set_session id v) records in
      (reply ≡ returned none)
      × ((memory_call cipher ttl second (get_session id) left).0
          ≡ returned (if ltb second.now (first.later + ttl) then some v else none))
memory_call-set_get rt laws key keys ttl first second id v records size vector valid object room =
    let cipher = session_cipher rt (key ∷ keys) in
    let (c, sealed, opens) =
      decrypt-encrypt rt laws key keys first.iv id v size vector valid object room in
    let after = memory_call-set cipher ttl first id v c records valid sealed in
    let stored = put id (until c (first.later + ttl)) records in
    let found = get-put_same id (until c (first.later + ttl)) records in
    (
      ap (λ s. s.0) after,
      ap (λ s. (memory_call cipher ttl second (get_session id) s.1).0) after
          ∙ if-holds (λ o. (memory_call cipher ttl second (get_session id) stored).0 ≡ returned o)
              (ltb second.now (first.later + ttl)) (some v) none
              (λ soon.
                ap (λ s. s.0)
                  (memory_call-get_current cipher ttl second id v (until c (first.later + ttl)) _
                    valid found (ground arith) opens))
              (λ past.
                memory_call-get_expired cipher ttl second id (until c (first.later + ttl)) _ valid
                  found (ground arith)),
    )

-- A session whose JSON text is within the limit by less than 28 bytes is accepted by the store in
-- memory. The get that follows the set, within the session's time, throws, and the get that follows
-- this one, at any time, finds nothing.
pub memory_call-set_get_oversized :
    {Json : Type 0} (rt : Runtime Json) (laws : RuntimeLaws rt) (key : Bytes) (keys : List Bytes)
    (ttl : ℕ) (first second third : Surroundings) (id : String) (v : Json) (records : Records)
    → length key ≡ 32
    → length first.iv ≡ 12
    → is_session_id id ≡ true
    → rt.is_object v ≡ true
    → byte_length (rt.stringify v) ≤ max_session_bytes
    → max_session_bytes < 28 + byte_length (rt.stringify v)
    → second.now < first.later + ttl
    → let cipher = session_cipher rt (key ∷ keys) in
      let (reply, left) = memory_call cipher ttl first (set_session id v) records in
      let (answer, rest) = memory_call cipher ttl second (get_session id) left in
      (reply ≡ returned none)
      × (answer ≡ thrown invalid_provider_session)
      × ((memory_call cipher ttl third (get_session id) rest).0 ≡ returned none)
memory_call-set_get_oversized rt laws key keys ttl first second third id v records size vector valid
      object small large soon =
    let cipher = session_cipher rt (key ∷ keys) in
    let (c, sealed, broken) =
      decrypt-oversized rt laws key keys first.iv id v size vector valid object small large in
    let after = memory_call-set cipher ttl first id v c records valid sealed in
    let stored = put id (until c (first.later + ttl)) records in
    let tried =
      ap (λ s. memory_call cipher ttl second (get_session id) s.1) after
      ∙ memory_call-get_broken cipher ttl second id (until c (first.later + ttl)) stored valid
          (get-put_same id (until c (first.later + ttl)) records) soon broken in
    (
      ap (λ s. s.0) after,
      ap (λ s. s.0) tried,
      ap (λ s. (memory_call cipher ttl third (get_session id) s.1).0) tried
          ∙ memory_call-get_missing cipher ttl third id (remove id stored) valid
              (ground (arith, get-remove id id stored, eq_refl id)),
    )
