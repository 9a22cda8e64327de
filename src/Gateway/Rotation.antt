-- ===== src/Gateway/Rotation.antt =====
-- Sessions that an older key has sealed.
use omnia_reader.Prelude.{
  ℕ, suc, ◌≤◌, ◌<◌, String, ◌≡◌, Bool, true, false, none, some, List, length, arith, eq_refl,
}
use omnia_reader.Prelude.JsMap.{get, put, remove, get-put, get-remove}
use omnia_reader.Prelude.Action.{returned, thrown}
use omnia_reader.Gateway.Runtime.{is_session_id, invalid_provider_session}
use omnia_reader.Gateway.Cipher.{Cipher}
use omnia_reader.Gateway.Sessions.{EncryptedRecord, get_session, Surroundings}
use omnia_reader.Gateway.Memory.{Records, memory_get, memory_get_live, memory_call}
use omnia_reader.Gateway.File.{
  DiskPort, holding, records_of, read_file, write_disk, file_rotate, file_get, file_get_live,
  on_file, has_session_ids, file_call, max_session_file_bytes,
}

-- A session that an older key has sealed is answered by the store in memory, and its record is
-- sealed anew without a change of its time.
pub memory_call-get_rotates :
    {V : Type 0} (cipher : Cipher V) (ttl : ℕ) (at : Surroundings) (id : String) (v : V)
    (c : String) (r : EncryptedRecord) (records : Records)
    → is_session_id id ≡ true
    → get id records ≡ some r
    → at.now < r.expires_at
    → cipher.decrypt id r.ciphertext ≡ some (record { value = v; needs_rotation = true })
    → cipher.encrypt at.iv id v ≡ returned c
    → let (reply, left) = memory_call cipher ttl at (get_session id) records in
      (reply ≡ returned (some v))
      × (get id left ≡ some (record { ciphertext = c; expires_at = r.expires_at }))
unfolding memory_call memory_get memory_get_live
memory_call-get_rotates cipher ttl at id v c r records valid found current opens sealed = ground (
  arith,
  get-put id id (record { ciphertext = c; expires_at = r.expires_at }) records,
  eq_refl id,
)

abbrev pub resealed : DiskPort → String → EncryptedRecord → String → Records → Records
resealed port id r c records =
    put (port.storage_key id) (record { ciphertext = c; expires_at = r.expires_at }) records

-- When the disk refuses the write of a session that is sealed anew and takes the next one, a session
-- that the store in a file has opened is answered as an invalid one and is gone.
pub file_call-rotation_loses :
    {V : Type 0} (cipher : Cipher V) (port : DiskPort) (ttl : ℕ) (at : Surroundings) (id : String)
    (v : V) (c : String) (r : EncryptedRecord) (records : Records) (attempts : List Bool)
    → is_session_id id ≡ true
    → read_file port (holding records) ≡ returned records
    → get (port.storage_key id) records ≡ some r
    → at.now < r.expires_at
    → cipher.decrypt id r.ciphertext ≡ some (record { value = v; needs_rotation = true })
    → cipher.encrypt at.iv id v ≡ returned c
    → port.file_bytes (resealed port id r c records) ≤ max_session_file_bytes
    → port.file_bytes (remove (port.storage_key id) (resealed port id r c records))
      ≤ max_session_file_bytes
    → port.can_write (length attempts) ≡ false
    → port.can_write (suc (length attempts)) ≡ true
    → let (reply, left) =
        file_call cipher port ttl at
          (get_session id)
          (record { file = holding records; attempts = attempts }) in
      (reply ≡ thrown invalid_provider_session)
      × (get (port.storage_key id) (records_of left.file) ≡ none)
unfolding file_call has_session_ids on_file file_get file_get_live file_rotate write_disk
file_call-rotation_loses cipher port ttl at id v c r records attempts valid readable found current
      opens sealed room room_without refuses takes =
    let key = port.storage_key id in
    ground (arith, get-remove key key (resealed port id r c records), eq_refl key)
