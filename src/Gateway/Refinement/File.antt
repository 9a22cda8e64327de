-- ===== src/Gateway/Refinement/File.antt =====
-- The store in a file keeps the contract, when the disk takes its writes.
use omnia_reader.Prelude.{ℕ, String, ◌≡◌, refl, ◌∙◌, true, none, some, arith, eq_iff}
use omnia_reader.Prelude.JsMap.{put, remove, UniqueKeys, put-UniqueKeys, remove-UniqueKeys}
use omnia_reader.Prelude.Action.{returned, thrown}
use omnia_reader.Gateway.Runtime.{invalid_provider_session}
use omnia_reader.Gateway.Cipher.{Cipher}
use omnia_reader.Gateway.Sessions.{
  EncryptedRecord, SessionCall, get_session, set_session, take_session, move_session,
  delete_session, Surroundings, Reply, View, view_put, view_drop, live, Shows, opened, spec_read,
  spec_write, spec_move, spec_call,
}
use omnia_reader.Gateway.Memory.{Records}
use omnia_reader.Gateway.File.{
  Disk, DiskPort, records_of, read_file, write_disk, write_then, remove_expired, file_rotate,
  file_get_live, file_get, file_set, file_take, file_move_live, file_move, on_file, has_session_ids,
  file_call,
}
use omnia_reader.Gateway.Refinement.{put-Shows, remove-Shows, remove_expired-Shows}
use omnia_reader.Gateway.Refinement.Writes.{
  remove_expired-UniqueKeys, live-remove_expired, landed, Keeps, write_then-Keeps,
}

module _ {V : Type 0} (cipher : Cipher V) (port : DiskPort) (ttl : ℕ) (at : Surroundings)
    (distinct : (a b : String) → port.storage_key a ≡ port.storage_key b → a ≡ b) (view : View)
    (records : Records) (shows : Shows port.storage_key at.now view records)
    (unique : UniqueKeys records) (disk : Disk) (file : records_of disk.file ≡ records)
    (j : String) where
  abbrev key : String → String
  key = port.storage_key

  abbrev KeepsHere : Reply V × View → Reply V × Disk → Type 0
  KeepsHere = Keeps key at.now j

  idle-Keeps : (reply : Reply V) → KeepsHere (reply, view) (reply, disk)
  idle-Keeps reply = rw file (refl, shows j, unique)

  put-keeps :
      (id : String) (r : EncryptedRecord) (reply : Reply V)
      → landed (write_then port (put (key id) r records) reply disk).1 ≡ true
      → KeepsHere (reply, view_put id r view) (write_then port (put (key id) r records) reply disk)
  put-keeps id r reply ok =
      write_then-Keeps port at.now j (put (key id) r records) reply (reply, view_put id r view) disk
        ok refl (put-Shows key distinct at.now view records shows id r j)
        (put-UniqueKeys (key id) r records unique)

  remove-keeps :
      (id : String) (reply : Reply V)
      → landed (write_then port (remove (key id) records) reply disk).1 ≡ true
      → KeepsHere (reply, view_drop id view) (write_then port (remove (key id) records) reply disk)
  remove-keeps id reply ok =
      write_then-Keeps port at.now j (remove (key id) records) reply (reply, view_drop id view) disk
        ok refl (remove-Shows key distinct at.now view records shows id j)
        (remove-UniqueKeys (key id) records unique)

  expired-keeps :
      (id : String) (reply : Reply V)
      → live at.now (view id) ≡ none
      → landed (write_then port (remove (key id) records) reply disk).1 ≡ true
      → KeepsHere (reply, view) (write_then port (remove (key id) records) reply disk)
  expired-keeps id reply dead ok =
      write_then-Keeps port at.now j (remove (key id) records) reply (reply, view) disk ok refl
        (remove_expired-Shows key distinct at.now view records shows id dead j)
        (remove-UniqueKeys (key id) records unique)

  -- What holds of a call whose writes have landed.
  abbrev KeepsFor : Reply V × View → Reply V × Disk → Type 0
  KeepsFor spec call = landed call.1 ≡ true → KeepsHere spec call

  rotate-keeps :
      (id : String) (v : V) (new : EncryptedRecord)
      → KeepsFor
          (returned (some v), view_put id new view)
          (file_rotate cipher port ttl at id v new records disk)
  unfolding file_rotate write_disk
  rotate-keeps id v new ok = ground (arith, put-keeps id new (returned (some v)))

  get_live-keeps :
      (id : String) (r : EncryptedRecord)
      → KeepsFor
          (spec_read cipher ttl at id r view)
          (file_get_live cipher port ttl at id r records disk)
  unfolding spec_read file_get_live
  get_live-keeps id r ok = grind (
    arith,
    remove-keeps id (thrown invalid_provider_session),
    λ (v : V) (new : EncryptedRecord). rotate-keeps id v new,
    λ (reply : Reply V). idle-Keeps reply,
  )

  get-keeps :
      (id : String)
      → KeepsFor
          (elim (live at.now (view id)) [
            | none ↦ (returned none, view)
            | some r ↦ spec_read cipher ttl at id r view
          ])
          (file_get cipher port ttl at id records disk)
  unfolding file_get live
  get-keeps id ok = grind (
    arith,
    shows id,
    λ (r : EncryptedRecord). get_live-keeps id r,
    expired-keeps id (returned none),
    idle-Keeps (returned none),
  )

  cleared_here : Shows key at.now view (remove_expired at.now records)
  cleared_here i = live-remove_expired at.now (key i) records unique ∙ shows i

  put_cleared-keeps :
      (id : String) (r : EncryptedRecord) (reply : Reply V)
      → KeepsFor
          (reply, view_put id r view)
          (write_then port (put (key id) r (remove_expired at.now records)) reply disk)
  put_cleared-keeps id r reply ok =
      write_then-Keeps port at.now j (put (key id) r (remove_expired at.now records)) reply
        (reply, view_put id r view) disk ok refl
        (put-Shows key distinct at.now view (remove_expired at.now records) cleared_here id r j)
        (put-UniqueKeys (key id) r (remove_expired at.now records)
          (remove_expired-UniqueKeys at.now records unique))

  set-keeps :
      (id : String) (v : V)
      → KeepsFor
          (spec_write cipher ttl at id v (λ new. view_put id new view) view)
          (file_set cipher port ttl at id v records disk)
  unfolding spec_write file_set
  set-keeps id v ok = grind (
    arith,
    λ (new : EncryptedRecord). put_cleared-keeps id new (returned none),
    λ (reply : Reply V). idle-Keeps reply,
  )

  -- A record that does not count may as well be gone.
  gone-Keeps :
      (id : String) (reply : Reply V)
      → live at.now (view id) ≡ none
      → KeepsHere (reply, view_drop id view) (reply, disk)
  unfolding live
  gone-Keeps id reply dead = ground (arith, idle-Keeps reply, eq_iff id j)

  take-keeps :
      (id : String)
      → KeepsFor
          (elim (live at.now (view id)) [
            | none ↦ (returned none, view_drop id view)
            | some r ↦ (opened (cipher.decrypt id r.ciphertext), view_drop id view)
          ])
          (file_take cipher port ttl at id records disk)
  unfolding file_take live
  take-keeps id ok =
      grind
        (arith, shows id, λ (reply : Reply V). remove-keeps id reply, gone-Keeps id (returned none))

  moved-keeps :
      (id replacement : String) (r : EncryptedRecord) (reply : Reply V)
      → KeepsFor
          (reply, view_drop id (view_put replacement r view))
          (write_then port (remove (key id) (put (key replacement) r records)) reply disk)
  moved-keeps id replacement r reply ok =
      let moved = put (key replacement) r records in
      write_then-Keeps port at.now j (remove (key id) moved) reply
        (reply, view_drop id (view_put replacement r view)) disk ok refl
        (remove-Shows key distinct at.now (view_put replacement r view) moved
          (put-Shows key distinct at.now view records shows replacement r) id j)
        (remove-UniqueKeys (key id) moved (put-UniqueKeys (key replacement) r records unique))

  move_live-keeps :
      (id replacement : String) (v : V) (r : EncryptedRecord)
      → KeepsFor
          (spec_move cipher ttl at id replacement v r view)
          (file_move_live cipher port ttl at id replacement v r records disk)
  unfolding spec_move spec_write file_move_live
  move_live-keeps id replacement v r ok = grind (
    arith,
    remove-keeps id (thrown invalid_provider_session),
    λ (new : EncryptedRecord). put-keeps replacement new (returned none),
    λ (new : EncryptedRecord). moved-keeps id replacement new (returned none),
    λ (reply : Reply V). idle-Keeps reply,
  )

  move-keeps :
      (id replacement : String) (v : V)
      → KeepsFor
          (elim (live at.now (view id)) [
            | none ↦ (thrown invalid_provider_session, view_drop id view)
            | some r ↦ spec_move cipher ttl at id replacement v r view
          ])
          (file_move cipher port ttl at id replacement v records disk)
  unfolding file_move live
  move-keeps id replacement v ok = grind (
    arith,
    shows id,
    remove-keeps id (thrown invalid_provider_session),
    λ (r : EncryptedRecord). move_live-keeps id replacement v r,
  )

  read_call-keeps :
      (call : SessionCall V)
      → read_file port disk.file ≡ returned records
      → KeepsFor (spec_call cipher ttl at call view) (file_call cipher port ttl at call disk)
  unfolding file_call spec_call on_file has_session_ids
  read_call-keeps (get_session id) readable ok =
      grind (arith, get-keeps id, λ (reply : Reply V). idle-Keeps reply)
  read_call-keeps (take_session id) readable ok =
      grind (arith, take-keeps id, λ (reply : Reply V). idle-Keeps reply)
  read_call-keeps (delete_session id) readable ok =
      grind (arith, remove-keeps id (returned none), λ (reply : Reply V). idle-Keeps reply)
  read_call-keeps (set_session id v) readable ok =
      grind (arith, set-keeps id v, λ (reply : Reply V). idle-Keeps reply)
  read_call-keeps (move_session id replacement v) readable ok =
      grind (arith, move-keeps id replacement v, λ (reply : Reply V). idle-Keeps reply)

-- When the digests of different ids are different, the file can be read and shows a view, and the
-- writes of the call land, a call of the store in a file answers as the contract answers from the
-- view, errors included, and leaves a file with one record to a key that shows the view that the
-- contract leaves.
pub file_call_refines :
    {V : Type 0} (cipher : Cipher V) (port : DiskPort) (ttl : ℕ) (at : Surroundings) (view : View)
    (disk : Disk) (call : SessionCall V)
    → ((a b : String) → port.storage_key a ≡ port.storage_key b → a ≡ b)
    → read_file port disk.file ≡ returned (records_of disk.file)
    → Shows port.storage_key at.now view (records_of disk.file)
    → UniqueKeys (records_of disk.file)
    → landed (file_call cipher port ttl at call disk).1 ≡ true
    → let (reply, left) = file_call cipher port ttl at call disk in
      let (answer, rest) = spec_call cipher ttl at call view in
      (reply ≡ answer)
      × Shows port.storage_key at.now rest (records_of left.file)
      × UniqueKeys (records_of left.file)
file_call_refines cipher port ttl at view disk call distinct readable shows unique ok =
    let keeps = λ (j : String).
      read_call-keeps cipher port ttl at distinct view (records_of disk.file) shows unique disk refl
        j call readable ok in
    ((keeps "").0, (λ j. (keeps j).1), (keeps "").2)
