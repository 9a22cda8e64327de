-- ===== src/Gateway/File.antt =====
-- `EncryptedFileSessionStore`. `serialized` runs one call at a time. The disk can refuse a write, and
-- its file is replaced by a rename, so a write is whole or has not happened.
use omnia_reader.Prelude.{
  ℕ, ◌+◌, ◌*◌, String, Bool, true, false, not, ◌==◌, ◌&&◌, Option, none, some, List, [], ◌∷◌,
  length, leb, ltb, if◌then◌else◌,
}
use omnia_reader.Prelude.CodeUnits.{code_units}
use omnia_reader.Prelude.JsMap.{get, put, remove}
use omnia_reader.Prelude.Action.{Outcome, Action, returned, thrown, raise, ◌>>=◌}
use omnia_reader.Gateway.Runtime.{
  GatewayError, invalid_session_id, invalid_provider_session, invalid_session_file, store_full,
  disk_failure, is_session_id, is_key_text,
}
use omnia_reader.Gateway.Cipher.{Cipher, max_session_bytes}
use omnia_reader.Gateway.Sessions.{
  EncryptedRecord, SessionCall, get_session, set_session, take_session, move_session,
  delete_session, Surroundings, opened,
}
use omnia_reader.Gateway.Memory.{Records}

abbrev pub max_session_file_bytes : ℕ
max_session_file_bytes = 16 * 1024 * 1024

-- What stands at the store's path: nothing, what cannot be read, no such JSON, or the records.
pub data SessionFile : Type 0 where
  missing unreadable malformed : SessionFile
  holding : Records → SessionFile

-- The file, and how each write so far has ended, the last one first.
pub record Disk : Type 0 where
  pub file : SessionFile
  pub attempts : List Bool

-- `JSON.stringify` and `Buffer.byteLength` of a file, whether the disk takes the n-th write, and the
-- digest of a session id.
pub record DiskPort : Type 0 where
  pub file_bytes : Records → ℕ
  pub can_write : ℕ → Bool
  pub storage_key : String → String

-- `/^[A-Za-z0-9_-]{43}$/`
unfoldable pub is_storage_key : String → Bool
unfolding is_key_text
is_storage_key key = is_key_text 43 43 key

abbrev pub max_safe_integer : ℕ
max_safe_integer = 9007199254740991

-- The checks of `isEncryptedFile` that the types of the fields leave.
unfoldable pub is_encrypted_file : Records → Bool
unfolding is_storage_key
is_encrypted_file [] = true
is_encrypted_file ((key, r) ∷ records) =
    is_storage_key key
    && leb (length (code_units r.ciphertext)) (max_session_bytes * 2)
    && leb r.expires_at max_safe_integer
    && ltb 0 r.expires_at
    && is_encrypted_file records

abbrev pub records_of : SessionFile → Records
records_of (holding records) = records
records_of _ = []

abbrev pub FileAction : Type 0 → Type 0
FileAction A = Action GatewayError Disk A

module _ (port : DiskPort) where
  unfoldable pub read_file : SessionFile → Outcome GatewayError Records
  unfolding is_encrypted_file
  read_file missing = returned []
  read_file unreadable = thrown disk_failure
  read_file malformed = thrown invalid_session_file
  read_file (holding records) =
      if ltb max_session_file_bytes (port.file_bytes records)
      then thrown invalid_session_file
      else if is_encrypted_file records
      then returned records
      else thrown invalid_session_file

  abbrev pub read_disk : FileAction Records
  read_disk disk = (read_file disk.file, disk)

  unfoldable pub write_disk : Records → FileAction Unit
  write_disk records disk =
      if ltb max_session_file_bytes (port.file_bytes records)
      then (thrown store_full, record { file = disk.file; attempts = false ∷ disk.attempts })
      else if port.can_write (length disk.attempts)
      then (returned tt, record { file = holding records; attempts = true ∷ disk.attempts })
      else (thrown disk_failure, record { file = disk.file; attempts = false ∷ disk.attempts })

  -- Writes the records and answers.
  abbrev pub write_then : {A : Type 0} → Records → Outcome GatewayError A → FileAction A
  write_then records reply disk =
      let (written, left) = write_disk records disk in
      elim written [ returned u ↦ (reply, left) | thrown e ↦ (thrown e, left) ]

-- `assertSessionId` of each id that a call is given
unfoldable pub has_session_ids : {V : Type 0} → SessionCall V → Bool
has_session_ids (get_session id) = is_session_id id
has_session_ids (set_session id v) = is_session_id id
has_session_ids (take_session id) = is_session_id id
has_session_ids (move_session id replacement v) = is_session_id id && is_session_id replacement
has_session_ids (delete_session id) = is_session_id id

-- `removeExpired`
unfoldable pub remove_expired : ℕ → Records → Records
remove_expired now [] = []
remove_expired now ((key, r) ∷ records) =
    let rest = remove_expired now records in if leb r.expires_at now then rest else (key, r) ∷ rest

module _ {V : Type 0} (cipher : Cipher V) (port : DiskPort) (ttl : ℕ) (at : Surroundings) where
  abbrev key_of : String → String
  key_of = port.storage_key

  -- The `catch` of `get`: the record goes, whatever has failed.
  abbrev pub discard : String → Records → FileAction (Option V)
  discard id records =
      write_then port (remove (key_of id) records) (thrown invalid_provider_session)

  unfoldable pub file_rotate : String → V → EncryptedRecord → Records → FileAction (Option V)
  unfolding write_disk
  file_rotate id v new records disk =
      let rotated = put (key_of id) new records in
      let (written, left) = write_disk port rotated disk in
      elim written [ returned u ↦ (returned (some v), left) | thrown e ↦ discard id rotated left ]

  unfoldable pub file_get_live : String → EncryptedRecord → Records → FileAction (Option V)
  unfolding file_rotate write_disk
  file_get_live id r records disk = elim (cipher.decrypt id r.ciphertext) [
    | none ↦ discard id records disk
    | some d ↦
        if d.needs_rotation
        then elim (cipher.encrypt at.iv id d.value) [
          | thrown e ↦ discard id records disk
          | returned c ↦
              file_rotate id d.value (record { ciphertext = c; expires_at = r.expires_at }) records
                disk
        ]
        else (returned (some d.value), disk)
  ]

  unfoldable pub file_get : String → Records → FileAction (Option V)
  unfolding file_get_live write_disk
  file_get id records disk = elim (get (key_of id) records) [
    | none ↦ (returned none, disk)
    | some r ↦
        if leb r.expires_at at.now
        then write_then port (remove (key_of id) records) (returned none) disk
        else file_get_live id r records disk
  ]

  unfoldable pub file_set : String → V → Records → FileAction (Option V)
  unfolding remove_expired write_disk
  file_set id v records disk = elim (cipher.encrypt at.iv id v) [
    | thrown e ↦ (thrown e, disk)
    | returned c ↦
        write_then port
          (put (key_of id) (record { ciphertext = c; expires_at = at.later + ttl })
            (remove_expired at.now records))
          (returned none) disk
  ]

  unfoldable pub file_take : String → Records → FileAction (Option V)
  unfolding opened write_disk
  file_take id records disk = elim (get (key_of id) records) [
    | none ↦ (returned none, disk)
    | some r ↦
        write_then port (remove (key_of id) records)
          (if leb r.expires_at at.now
            then returned none
            else opened (cipher.decrypt id r.ciphertext))
          disk
  ]

  unfoldable pub file_move_live :
      String → String → V → EncryptedRecord → Records → FileAction (Option V)
  unfolding write_disk
  file_move_live id replacement v r records disk = elim (cipher.decrypt id r.ciphertext) [
    | none ↦ discard id records disk
    | some d ↦ elim (cipher.encrypt at.iv replacement v) [
      | thrown e ↦ (thrown e, disk)
      | returned c ↦
          let new : EncryptedRecord = record { ciphertext = c; expires_at = at.later + ttl } in
          let moved = put (key_of replacement) new records in
          write_then port (if not (id == replacement) then remove (key_of id) moved else moved)
            (returned none) disk
    ]
  ]

  unfoldable pub file_move : String → String → V → Records → FileAction (Option V)
  unfolding file_move_live write_disk
  file_move id replacement v records disk = elim (get (key_of id) records) [
    | none ↦ discard id records disk
    | some r ↦
        if leb r.expires_at at.now
        then discard id records disk
        else file_move_live id replacement v r records disk
  ]

  -- A call on the file that has been read.
  unfoldable pub on_file : SessionCall V → Records → FileAction (Option V)
  unfolding file_get file_set file_take file_move write_disk
  on_file (get_session id) records = file_get id records
  on_file (set_session id v) records = file_set id v records
  on_file (take_session id) records = file_take id records
  on_file (move_session id replacement v) records = file_move id replacement v records
  on_file (delete_session id) records = write_then port (remove (key_of id) records) (returned none)

  unfoldable pub file_call : SessionCall V → FileAction (Option V)
  unfolding on_file has_session_ids read_file
  file_call call =
      if not (has_session_ids call)
      then raise invalid_session_id
      else read_disk port >>= λ records. on_file call records
