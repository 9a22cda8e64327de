-- ===== src/Gateway/Redemption/Once.antt =====
-- A hand-off over its whole life: issues and redemptions in any order, over one store.
use omnia_reader.Prelude.{
  ℕ, String, Bool, ◌≡◌, true, false, ◌==◌, Option, none, List, [], ◌∷◌, any, if◌then◌else◌,
  if-holds, not, arith,
}
use omnia_reader.Prelude.Action.{Outcome, returned, thrown}
use omnia_reader.Gateway.Sessions.{set_session, take_session, Surroundings}
use omnia_reader.Gateway.Requests.{
  SyncProviderKind, NativeHandoffOutcome, NativeHandoffRecord, NativeHandoffRedemption,
  invalid_native_request, unavailable_handoff, is_native_request_id, is_handoff_id,
  is_native_session_id, HandoffError,
}
use omnia_reader.Gateway.Handoff.{
  HandoffPort, HandoffWorld, issue, issue_failure, issue_record, consume, redeem_taken,
}
use omnia_reader.Gateway.Redemption.{redeem_taken-store}

-- What a single use relies on of the store: an id that was taken is gone, what is gone is not given,
-- and it stays gone until something is set under that id.
pub record ForgetsTaken {S : Type 0} (port : HandoffPort S) : Type 1 where
  pub IsGone : String → S → Type 0
  pub take-IsGone :
      (at : Surroundings) (id : String) (s : S)
      → is_handoff_id id ≡ true
      → IsGone id (port.store_call at (take_session id) s).1
  pub take_gone :
      (at : Surroundings) (id : String) (s : S)
      → is_handoff_id id ≡ true
      → IsGone id s
      → (port.store_call at (take_session id) s).0 ≡ returned none
  pub take_other :
      (at : Surroundings) (id other : String) (s : S)
      → IsGone id s
      → IsGone id (port.store_call at (take_session other) s).1
  pub set_other :
      (at : Surroundings) (id other : String) (r : NativeHandoffRecord) (s : S)
      → (other == id) ≡ false
      → IsGone id s
      → IsGone id (port.store_call at (set_session other r) s).1

-- A call of `issue`, `issueFailure` or `consume`. An issue has its scheme, time to live, time and drawn
-- id, then the arguments of the method; a redemption has its time and its request.
pub data HandoffEvent : Type 0 where
  issued :
      Surroundings → String → ℕ → ℕ → String → SyncProviderKind → String → String → HandoffEvent
  issued_failure :
      Surroundings
      → String
      → ℕ
      → ℕ
      → String
      → SyncProviderKind
      → String
      → NativeHandoffOutcome
      → HandoffEvent
  redeemed : Surroundings → ℕ → NativeHandoffRedemption → HandoffEvent

-- An issue has drawn that id.
abbrev pub draws : String → HandoffEvent → Bool
draws id (issued at scheme ttl now random provider request session) = random == id
draws id (issued_failure at scheme ttl now random provider request outcome) = random == id
draws id (redeemed at now input) = false

module _ {S : Type 0} (port : HandoffPort S) where
  abbrev pub handle : HandoffEvent → HandoffWorld S → HandoffWorld S
  handle (issued at scheme ttl now random provider request session) world =
      (issue port at scheme ttl now random provider request session world).1
  handle (issued_failure at scheme ttl now random provider request outcome) world =
      (issue_failure port at scheme ttl now random provider request outcome world).1
  handle (redeemed at now input) world = (consume port at now input world).1

  abbrev pub handle_events : List HandoffEvent → HandoffWorld S → HandoffWorld S
  handle_events [] world = world
  handle_events (event ∷ events) world = handle_events events (handle event world)

module _ {S : Type 0} (port : HandoffPort S) (forgets : ForgetsTaken port) (id : String) where
  issue_record-IsGone :
      (at : Surroundings) (scheme random : String) (r : NativeHandoffRecord)
      (world : HandoffWorld S)
      → (random == id) ≡ false
      → forgets.IsGone id world.store
      → forgets.IsGone id (issue_record port at scheme random r world).1.store
  unfolding issue_record
  issue_record-IsGone at scheme random r world other gone =
      ground (arith, forgets.set_other at id random r world.store other gone)

  consume-IsGone :
      (at : Surroundings) (now : ℕ) (input : NativeHandoffRedemption) (world : HandoffWorld S)
      → forgets.IsGone id world.store
      → forgets.IsGone id (consume port at now input world).1.store
  unfolding consume
  consume-IsGone at now input world gone = grind (
    arith,
    forgets.take_other at id input.handoff_id world.store gone,
    λ (taken : Option NativeHandoffRecord) (w : HandoffWorld S).
        redeem_taken-store port at now input taken w,
  )

  abbrev IsKept : Outcome HandoffError String × HandoffWorld S → Type 0
  IsKept after = forgets.IsGone id after.1.store

  handle-IsGone :
      (event : HandoffEvent) (world : HandoffWorld S)
      → draws id event ≡ false
      → forgets.IsGone id world.store
      → forgets.IsGone id (handle port event world).store
  unfolding issue issue_failure
  handle-IsGone (issued at scheme ttl now random provider request session) world other gone =
      if-holds IsKept (not (is_native_request_id request)) _ _ (λ bad. gone)
        (λ asked.
          if-holds IsKept (not (is_native_session_id session)) _ _ (λ bad. gone)
            (λ named. issue_record-IsGone at scheme random _ world other gone))
  handle-IsGone (issued_failure at scheme ttl now random provider request outcome) world other
        gone =
      if-holds IsKept (not (is_native_request_id request)) _ _ (λ bad. gone)
        (λ asked. issue_record-IsGone at scheme random _ world other gone)
  handle-IsGone (redeemed at now input) world other gone = consume-IsGone at now input world gone

  handle_events-IsGone :
      (events : List HandoffEvent) (world : HandoffWorld S)
      → any (draws id) events ≡ false
      → forgets.IsGone id world.store
      → forgets.IsGone id (handle_events port events world).store
  handle_events-IsGone [] world others gone = gone
  handle_events-IsGone (event ∷ events) world others gone =
      handle_events-IsGone events (handle port event world) (ground arith)
        (handle-IsGone event world (ground arith) gone)

module _ {S : Type 0} (port : HandoffPort S) (at : Surroundings) (now : ℕ)
    (input : NativeHandoffRedemption) where
  consume-store :
      (world : HandoffWorld S)
      → is_native_request_id input.native_request_id ≡ true
      → is_handoff_id input.handoff_id ≡ true
      → (consume port at now input world).1.store
        ≡ (port.store_call at (take_session input.handoff_id) world.store).1
  unfolding consume
  consume-store world request handoff = grind (
    arith,
    λ (taken : Option NativeHandoffRecord) (w : HandoffWorld S).
        redeem_taken-store port at now input taken w,
  )

  consume-gone :
      (world : HandoffWorld S)
      → is_handoff_id input.handoff_id ≡ true
      → (port.store_call at (take_session input.handoff_id) world.store).0 ≡ returned none
      → (consume port at now input world).0
        ≡ thrown (
            if is_native_request_id input.native_request_id
            then unavailable_handoff
            else invalid_native_request)
  unfolding consume redeem_taken
  consume-gone world handoff gone = ground arith

-- A hand-off is good for one redemption: after one that names its id in a well-formed request,
-- however it ended, and after any further issues and redemptions of which no issue draws that id
-- again, a redemption that names the id throws.
pub consume_once :
    {S : Type 0} (port : HandoffPort S) (forgets : ForgetsTaken port) (first last : Surroundings)
    (now later : ℕ) (input again : NativeHandoffRedemption) (events : List HandoffEvent)
    (world : HandoffWorld S)
    → is_native_request_id input.native_request_id ≡ true
    → is_handoff_id input.handoff_id ≡ true
    → again.handoff_id ≡ input.handoff_id
    → any (draws input.handoff_id) events ≡ false
    → (consume port last later again
        (handle_events port events (consume port first now input world).1)).0
      ≡ thrown (
          if is_native_request_id again.native_request_id
          then unavailable_handoff
          else invalid_native_request)
consume_once port forgets first last now later input again events world request handoff same
      others =
    let id = input.handoff_id in
    let used = (consume port first now input world).1 in
    let gone : forgets.IsGone id used.store =
      rw (consume-store port first now input world request handoff)
        (forgets.take-IsGone first id world.store handoff) in
    let still = handle_events-IsGone port forgets id events used others gone in
    consume-gone port last later again (handle_events port events used) (rw same handoff)
      (rw same (forgets.take_gone last id _ handoff still))
