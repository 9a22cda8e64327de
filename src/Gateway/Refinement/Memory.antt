-- ===== src/Gateway/Refinement/Memory.antt =====
-- The store in memory keeps the contract.
use omnia_reader.Prelude.{ℕ, String, ◌≡◌, none, arith}
use omnia_reader.Prelude.JsMap.{get, put, remove}
use omnia_reader.Gateway.Cipher.{Cipher}
use omnia_reader.Gateway.Sessions.{
  EncryptedRecord, SessionCall, get_session, set_session, take_session, move_session,
  delete_session, Surroundings, Reply, View, view_put, view_drop, live, Shows, spec_read,
  spec_write, spec_move, spec_call,
}
use omnia_reader.Gateway.Memory.{
  Records, memory_get_live, memory_get, memory_set, memory_take, memory_move_live, memory_move,
  memory_call,
}
use omnia_reader.Gateway.Refinement.{put-Shows, remove-Shows, remove_expired-Shows}

-- The call answers as the contract does, and its map shows for one id what the contract leaves.
abbrev KeepsAt : {V : Type 0} → ℕ → String → Reply V × View → Reply V × Records → Type 0
KeepsAt now j spec call = (call.0 ≡ spec.0) × (live now (get j call.1) ≡ live now (spec.1 j))

module _ {V : Type 0} (cipher : Cipher V) (ttl : ℕ) (at : Surroundings) (view : View)
    (records : Records) (shows : Shows (λ id. id) at.now view records) where
  put_here :
      (id : String) (r : EncryptedRecord)
      → Shows (λ j. j) at.now (view_put id r view) (put id r records)
  put_here = put-Shows (λ j. j) (λ a b e. e) at.now view records shows

  remove_here : (id : String) → Shows (λ j. j) at.now (view_drop id view) (remove id records)
  remove_here = remove-Shows (λ j. j) (λ a b e. e) at.now view records shows

  expired_here :
      (id : String) → live at.now (view id) ≡ none → Shows (λ j. j) at.now view (remove id records)
  expired_here = remove_expired-Shows (λ j. j) (λ a b e. e) at.now view records shows

  get_live-keeps :
      (id : String) (r : EncryptedRecord) (j : String)
      → KeepsAt at.now j
          (spec_read cipher ttl at id r view)
          (memory_get_live cipher ttl at id r records)
  unfolding spec_read memory_get_live
  get_live-keeps id r j =
      grind (arith, remove_here id j, shows j, λ (s : EncryptedRecord). put_here id s j)

  moved_here :
      (id replacement : String) (r : EncryptedRecord)
      → Shows
          (λ j. j)
          at.now
          (view_drop id (view_put replacement r view))
          (remove id (put replacement r records))
  moved_here id replacement r =
      remove-Shows (λ j. j) (λ a b e. e) at.now (view_put replacement r view)
        (put replacement r records) (put_here replacement r) id

  get-keeps :
      (id j : String)
      → KeepsAt at.now j
          (spec_call cipher ttl at (get_session id) view)
          (memory_call cipher ttl at (get_session id) records)
  unfolding spec_call memory_call memory_get live
  get-keeps id j =
      grind
        (arith, shows id, shows j, λ (r : EncryptedRecord). get_live-keeps id r j, expired_here id)

  set-keeps :
      (id : String) (v : V) (j : String)
      → KeepsAt at.now j
          (spec_call cipher ttl at (set_session id v) view)
          (memory_call cipher ttl at (set_session id v) records)
  unfolding spec_call spec_write memory_call memory_set
  set-keeps id v j = grind (arith, shows j, λ (s : EncryptedRecord). put_here id s j)

  take-keeps :
      (id j : String)
      → KeepsAt at.now j
          (spec_call cipher ttl at (take_session id) view)
          (memory_call cipher ttl at (take_session id) records)
  unfolding spec_call memory_call memory_take live
  take-keeps id j = grind (arith, shows id, shows j, remove_here id j)

  move_live-keeps :
      (id replacement : String) (v : V) (r : EncryptedRecord) (j : String)
      → KeepsAt at.now j
          (spec_move cipher ttl at id replacement v r view)
          (memory_move_live cipher ttl at id replacement v r records)
  unfolding spec_move spec_write memory_move_live
  move_live-keeps id replacement v r j = grind (
    arith,
    shows j,
    remove_here id j,
    λ (s : EncryptedRecord). put_here replacement s j,
    λ (s : EncryptedRecord). moved_here id replacement s j,
  )

  move-keeps :
      (id replacement : String) (v : V) (j : String)
      → KeepsAt at.now j
          (spec_call cipher ttl at (move_session id replacement v) view)
          (memory_call cipher ttl at (move_session id replacement v) records)
  unfolding spec_call memory_call memory_move live
  move-keeps id replacement v j = grind (
    arith,
    shows id,
    shows j,
    remove_here id j,
    λ (r : EncryptedRecord). move_live-keeps id replacement v r j,
  )

  delete-keeps :
      (id j : String)
      → KeepsAt at.now j
          (spec_call cipher ttl at (delete_session id) view)
          (memory_call cipher ttl at (delete_session id) records)
  unfolding spec_call memory_call
  delete-keeps id j = grind (arith, shows j, remove_here id j)

  call-keeps :
      (call : SessionCall V) (j : String)
      → KeepsAt at.now j
          (spec_call cipher ttl at call view)
          (memory_call cipher ttl at call records)
  call-keeps (get_session id) j = get-keeps id j
  call-keeps (take_session id) j = take-keeps id j
  call-keeps (delete_session id) j = delete-keeps id j
  call-keeps (set_session id v) j = set-keeps id v j
  call-keeps (move_session id replacement v) j = move-keeps id replacement v j

-- From a map that shows a view, every call of the store in memory answers as the contract answers
-- from the view, errors included, and leaves a map that shows the view that the contract leaves.
pub memory_call_refines :
    {V : Type 0} (cipher : Cipher V) (ttl : ℕ) (at : Surroundings) (view : View) (records : Records)
    (call : SessionCall V)
    → Shows (λ id. id) at.now view records
    → let (reply, left) = memory_call cipher ttl at call records in
      let (answer, rest) = spec_call cipher ttl at call view in
      (reply ≡ answer) × Shows (λ id. id) at.now rest left
memory_call_refines cipher ttl at view records call shows = (
  (call-keeps cipher ttl at view records shows call "").0,
  λ j. (call-keeps cipher ttl at view records shows call j).1,
)
