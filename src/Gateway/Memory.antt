-- ===== src/Gateway/Memory.antt =====
-- `EncryptedMemorySessionStore`.
use omnia_reader.Prelude.{ℕ, ◌+◌, String, not, ◌==◌, none, some, leb, ◌||◌, if◌then◌else◌}
use omnia_reader.Prelude.JsMap.{JsMap, get, put, remove}
use omnia_reader.Prelude.Action.{returned, thrown}
use omnia_reader.Gateway.Runtime.{invalid_session_id, invalid_provider_session, is_session_id}
use omnia_reader.Gateway.Cipher.{Cipher}
use omnia_reader.Gateway.Sessions.{
  EncryptedRecord, SessionCall, get_session, set_session, take_session, move_session,
  delete_session, Surroundings, Reply, opened,
}

abbrev pub Records : Type 0
Records = JsMap EncryptedRecord

module _ {V : Type 0} (cipher : Cipher V) (ttl : ℕ) (at : Surroundings) where
  unfoldable pub memory_get_live : String → EncryptedRecord → Records → Reply V × Records
  memory_get_live id r records = elim (cipher.decrypt id r.ciphertext) [
    | none ↦ (thrown invalid_provider_session, remove id records)
    | some d ↦
        if d.needs_rotation
        then elim (cipher.encrypt at.iv id d.value) [
          | thrown e ↦ (thrown invalid_provider_session, remove id records)
          | returned c ↦ (
            returned (some d.value),
            put id (record { ciphertext = c; expires_at = r.expires_at }) records,
          )
        ]
        else (returned (some d.value), records)
  ]

  unfoldable pub memory_get : String → Records → Reply V × Records
  unfolding memory_get_live
  memory_get id records = elim (get id records) [
    | none ↦ (returned none, records)
    | some r ↦
        if leb r.expires_at at.now
        then (returned none, remove id records)
        else memory_get_live id r records
  ]

  unfoldable pub memory_set : String → V → Records → Reply V × Records
  memory_set id v records = elim (cipher.encrypt at.iv id v) [
    | thrown e ↦ (thrown e, records)
    | returned c ↦
        (returned none, put id (record { ciphertext = c; expires_at = at.later + ttl }) records)
  ]

  unfoldable pub memory_take : String → Records → Reply V × Records
  unfolding opened
  memory_take id records =
      let rest = remove id records in
      elim (get id records) [
        | none ↦ (returned none, rest)
        | some r ↦
            if leb r.expires_at at.now
            then (returned none, rest)
            else (opened (cipher.decrypt id r.ciphertext), rest)
      ]

  unfoldable pub memory_move_live :
      String → String → V → EncryptedRecord → Records → Reply V × Records
  memory_move_live id replacement v r records = elim (cipher.decrypt id r.ciphertext) [
    | none ↦ (thrown invalid_provider_session, remove id records)
    | some d ↦ elim (cipher.encrypt at.iv replacement v) [
      | thrown e ↦ (thrown e, records)
      | returned c ↦
          let new : EncryptedRecord = record { ciphertext = c; expires_at = at.later + ttl } in
          let moved = put replacement new records in
          (returned none, if not (id == replacement) then remove id moved else moved)
    ]
  ]

  unfoldable pub memory_move : String → String → V → Records → Reply V × Records
  unfolding memory_move_live
  memory_move id replacement v records = elim (get id records) [
    | none ↦ (thrown invalid_provider_session, remove id records)
    | some r ↦
        if leb r.expires_at at.now
        then (thrown invalid_provider_session, remove id records)
        else memory_move_live id replacement v r records
  ]

  unfoldable pub memory_call : SessionCall V → Records → Reply V × Records
  unfolding memory_get memory_set memory_take memory_move
  memory_call (get_session id) records =
      if not (is_session_id id) then (thrown invalid_session_id, records) else memory_get id records
  memory_call (set_session id v) records =
      if not (is_session_id id)
      then (thrown invalid_session_id, records)
      else memory_set id v records
  memory_call (take_session id) records =
      if not (is_session_id id)
      then (thrown invalid_session_id, records)
      else memory_take id records
  memory_call (move_session id replacement v) records =
      if not (is_session_id id) || not (is_session_id replacement)
      then (thrown invalid_session_id, records)
      else memory_move id replacement v records
  memory_call (delete_session id) records =
      if not (is_session_id id)
      then (thrown invalid_session_id, records)
      else (returned none, remove id records)
