-- ===== src/Gateway/Tests.antt =====
-- A store with one session, and the hand-off of a session to the native app.
mod Fixture
mod Shelf
use omnia_reader.Prelude.{
  ◌+◌, String, ◌≡◌, refl, true, ◌==◌, ◌&&◌, none, some, List, [], ◌∷◌, ltb, if◌then◌else◌, arith,
}
use omnia_reader.Prelude.JsMap.{get, put, remove, UniqueKeys}
use omnia_reader.Prelude.Action.{returned, thrown}
use omnia_reader.Gateway.Runtime.{invalid_provider_session, is_session_id}
use omnia_reader.Gateway.Cipher.{Cipher, session_cipher, encrypt, decrypt}
use omnia_reader.Gateway.Sessions.{
  get_session, set_session, take_session, Surroundings, View, Shows, spec_call,
}
use omnia_reader.Gateway.Memory.{Records, memory_call}
use omnia_reader.Gateway.File.{Disk, DiskPort, holding, records_of, read_file, file_call}
use omnia_reader.Gateway.Refinement.Memory.{memory_call_refines}
use omnia_reader.Gateway.Refinement.File.{file_call_refines}
use omnia_reader.Gateway.Lifetimes.{memory_call-set_get, memory_call-set_get_oversized}
use omnia_reader.Gateway.Rotation.{file_call-rotation_loses}
use omnia_reader.Gateway.Requests.{
  SyncProviderKind, github, authorized, NativeHandoffRecord, unavailable_handoff,
  invalid_native_request, handoff_mismatch, disposal_failed, same_provider, is_native_request_id,
  is_native_session_id, is_handoff_id, is_native_handoff_record, authorization_return_to,
  request_from_return_to,
}
use omnia_reader.Gateway.Handoff.{consume, issue}
use omnia_reader.Gateway.Redemption.{Redeems, consume-Fits}
use omnia_reader.Gateway.Redemption.Once.{
  HandoffEvent, issued, redeemed, handle_events, consume_once,
}
use omnia_reader.Gateway.Issued.{consume-issue, request_from-authorization_return_to}
use omnia_reader.Gateway.Tests.Shelf.{
  shelf, shelf-KeepsHandoffs, shelf-ForgetsTaken, handoff_id, request_id, redemption, offered,
  nothing_offered,
}
use omnia_reader.Gateway.Tests.Fixture.{
  text_runtime, text_runtime_laws, test_key, test_iv, long_text, byte_length-long_text,
  long_text-object,
}

abbrev cipher : Cipher String
cipher = session_cipher text_runtime (test_key ∷ [])

abbrev session : String
session = "abcdefghijklmnopqrstuvwxyz-0123456789_ABCDE"

abbrev records : Records
records = (session, record { ciphertext = "v1.mZkq1v7bT0a9cX2d.token"; expires_at = 5000 }) ∷ []

abbrev view : View
view j = get j records

abbrev noon : Surroundings
noon = record { now = 1000; later = 1001; iv = test_iv }

abbrev evening : Surroundings
evening = record { now = 2000; later = 2001; iv = test_iv }

abbrev port : DiskPort
port = record { file_bytes = λ rs. 200; can_write = λ n. true; storage_key = λ id. id }

abbrev disk : Disk
disk = record { file = holding records; attempts = [] }

memory_call_refines_example :
    let (reply, left) = memory_call cipher 3000 noon (take_session session) records in
    let (answer, rest) = spec_call cipher 3000 noon (take_session session) view in
    (reply ≡ answer) × Shows (λ id. id) noon.now rest left
memory_call_refines_example =
    memory_call_refines cipher 3000 noon view records (take_session session) (λ j. refl)

file_call_refines_example :
    let (reply, left) = file_call cipher port 3000 noon (take_session session) disk in
    let (answer, rest) = spec_call cipher 3000 noon (take_session session) view in
    (reply ≡ answer)
    × Shows port.storage_key noon.now rest (records_of left.file)
    × UniqueKeys (records_of left.file)
unfolding read_file file_call get is_session_id
file_call_refines_example =
    file_call_refines cipher port 3000 noon view disk (take_session session) (λ a b e. e) refl
      (λ j. refl) (refl, tt) refl

memory_call-set_get_example :
    let (reply, left) = memory_call cipher 3000 noon (set_session "reader" "token") [] in
    (reply ≡ returned none)
    × ((memory_call cipher 3000 evening (get_session "reader") left).0
        ≡ returned (if ltb evening.now (noon.later + 3000) then some "token" else none))
unfolding is_session_id
memory_call-set_get_example =
    memory_call-set_get text_runtime text_runtime_laws test_key [] 3000 noon evening "reader"
      "token" [] refl refl refl refl (omega arith)

memory_call-set_get_oversized_example :
    let (reply, left) =
      memory_call cipher 3000 noon (set_session "reader" (long_text 1048576)) [] in
    let (answer, rest) = memory_call cipher 3000 evening (get_session "reader") left in
    (reply ≡ returned none)
    × (answer ≡ thrown invalid_provider_session)
    × ((memory_call cipher 3000 evening (get_session "reader") rest).0 ≡ returned none)
unfolding is_session_id
memory_call-set_get_oversized_example =
    memory_call-set_get_oversized text_runtime text_runtime_laws test_key [] 3000 noon evening
      evening "reader" (long_text 1048576) [] refl refl refl
      (long_text-object 1048576 (omega arith)) (rw (byte_length-long_text 1048576) (omega arith))
      (rw (byte_length-long_text 1048576) (omega arith)) (omega arith)

-- The disk refuses its first write.
abbrev rotation_port : DiskPort
rotation_port = record { file_bytes = λ rs. 200; can_write = λ n. ltb 0 n; storage_key = λ id. id }

-- A cipher that has a new key.
abbrev rotating : Cipher String
rotating = record {
  encrypt = λ iv id v. returned "v1.new.token";
  decrypt = λ id text. some (record { value = "token"; needs_rotation = true });
}

file_call-rotation_loses_example :
    let (reply, left) = file_call rotating rotation_port 3000 noon (get_session session) disk in
    (reply ≡ thrown invalid_provider_session) × (get session (records_of left.file) ≡ none)
unfolding read_file get is_session_id
file_call-rotation_loses_example =
    file_call-rotation_loses rotating rotation_port 3000 noon session "token" "v1.new.token"
      (record { ciphertext = "v1.mZkq1v7bT0a9cX2d.token"; expires_at = 5000 }) records [] refl refl
      refl (omega arith) refl refl (omega arith) (omega arith) refl refl

consume-Fits_example :
    (r : NativeHandoffRecord) × ((shelf.store_call evening
        (take_session handoff_id)
        offered.store).0
      ≡ returned (some r))
    × Redeems shelf evening 2000 redemption
        (record { outcome = authorized; session_id = some "session-0123456789" })
        offered
        nothing_offered
        r
unfolding consume is_native_request_id is_native_handoff_record is_native_session_id is_handoff_id
    get remove
consume-Fits_example = consume-Fits shelf evening 2000 redemption offered nothing_offered _ refl

-- Another hand-off is issued, and the first is asked for once more.
abbrev meanwhile : List HandoffEvent
meanwhile =
    issued noon "omnia-reader" 300000 1500 "ABCDEabcdefghijklmnopqrstuvwxyz-0123456789_" github
      request_id "session-9876543210"
    ∷ redeemed noon 1600 redemption
    ∷ []

consume_once_example :
    (consume shelf evening 2001 redemption
      (handle_events shelf meanwhile (consume shelf noon 2000 redemption offered).1)).0
    ≡ thrown
        (if is_native_request_id request_id then unavailable_handoff else invalid_native_request)
unfolding is_native_request_id is_handoff_id
consume_once_example =
    consume_once shelf shelf-ForgetsTaken noon evening 2000 2001 redemption redemption meanwhile
      offered refl refl refl refl

consume-issue_example :
    let fits =
      same_provider github redemption.provider && request_id == redemption.native_request_id in
    let (reply, after) = consume shelf evening 2000 redemption offered in
    (reply ≡ (
      if fits && ltb 2000 (1000 + 300000)
      then returned (record { outcome = authorized; session_id = some "session-0123456789" })
      else thrown (
          if shelf.disposal_works "session-0123456789"
          then if fits then unavailable_handoff else handoff_mismatch
          else disposal_failed)))
    × (after.disposed
        ≡ (if fits && ltb 2000 (1000 + 300000) then [] else "session-0123456789" ∷ []))
unfolding issue is_native_request_id is_native_session_id is_handoff_id put
consume-issue_example =
    consume-issue shelf 3000 shelf-KeepsHandoffs noon evening "omnia-reader" 300000 1000 2000 github
      request_id "session-0123456789" redemption nothing_offered offered _ refl refl (omega arith)
      (omega arith)

request_from-authorization_return_to_example :
    (path : String) × (authorization_return_to github request_id ≡ returned path)
    × ((p : SyncProviderKind)
        → request_from_return_to p path
          ≡ (if same_provider p github then some request_id else none))
unfolding is_native_request_id
request_from-authorization_return_to_example =
    request_from-authorization_return_to github request_id refl
