-- ===== src/Gateway/Issued.antt =====
-- Round trips of a hand-off: the path that carries the request, and the session that was issued.
use omnia_reader.Prelude.{
  ℕ, ◌+◌, ◌≤◌, ◌<◌, String, ◌≡◌, refl, true, ◌==◌, ◌&&◌, Option, none, some, ◌∷◌, ltb,
  if◌then◌else◌, arith,
}
use omnia_reader.Prelude.Text.{concat}
use omnia_reader.Prelude.Action.{Outcome, returned, thrown}
use omnia_reader.Gateway.Runtime.{GatewayError}
use omnia_reader.Gateway.File.{max_safe_integer}
use omnia_reader.Gateway.Sessions.{set_session, take_session, Surroundings}
use omnia_reader.Gateway.Requests.{
  SyncProviderKind, github, mega, authorized, NativeHandoffRecord, NativeHandoffRedemption,
  unavailable_handoff, handoff_mismatch, disposal_failed, same_provider, is_native_request_id,
  is_handoff_id, is_native_session_id, is_native_handoff_record, return_path_of, after_prefix,
  authorization_return_to, request_from_return_to,
}
use omnia_reader.Gateway.Handoff.{
  HandoffPort, HandoffWorld, issue, issue_record, consume, redeem_taken, redeem, redeem_authorized,
  dispose_and_throw,
}
use omnia_reader.Gateway.Redemption.{KeepsHandoffs}

request_from_path :
    (p provider : SyncProviderKind) (id : String)
    → is_native_request_id id ≡ true
    → request_from_return_to p (concat (return_path_of provider) id)
      ≡ (if same_provider p provider then some id else none)
unfolding request_from_return_to after_prefix
request_from_path github github id valid = rw valid refl
request_from_path github mega id valid = refl
request_from_path mega github id valid = refl
request_from_path mega mega id valid = rw valid refl

-- A request that has the shape of the app's comes back from the path that carries it.
pub request_from-authorization_return_to :
    (provider : SyncProviderKind) (id : String)
    → is_native_request_id id ≡ true
    → (path : String) × (authorization_return_to provider id ≡ returned path)
      × ((p : SyncProviderKind)
          → request_from_return_to p path ≡ (if same_provider p provider then some id else none))
unfolding authorization_return_to
request_from-authorization_return_to provider id valid =
    (concat (return_path_of provider) id, rw valid refl, λ p. request_from_path p provider id valid)

module _ {S : Type 0} (port : HandoffPort S) (at : Surroundings) where
  abbrev issued_record : SyncProviderKind → String → String → ℕ → NativeHandoffRecord
  issued_record provider request session time = record {
    provider = provider;
    native_request_id = request;
    outcome = authorized;
    session_id = some session;
    expires_at = time;
  }

  -- What an issue that returned has checked and stored.
  issue-stored :
      (scheme : String) (ttl now : ℕ) (id : String) (provider : SyncProviderKind)
      (request session : String) (world left : HandoffWorld S) (link : String)
      → issue port at scheme ttl now id provider request session world ≡ (returned link, left)
      → let stored =
          port.store_call at
            (set_session id (issued_record provider request session (now + ttl)))
            world.store in
        (is_native_request_id request ≡ true)
        × (is_native_session_id session ≡ true)
        × (is_handoff_id id ≡ true)
        × ((answer : Option NativeHandoffRecord) × (stored.0 ≡ returned answer))
        × (left.store ≡ stored.1)
        × (left.disposed ≡ world.disposed)
  unfolding issue issue_record
  issue-stored scheme ttl now id provider request session world left link h = by_reply stored.0 refl
    where
      stored : Outcome GatewayError (Option NativeHandoffRecord) × S
      stored =
          port.store_call at (set_session id (issued_record provider request session (now + ttl)))
            world.store

      by_reply :
          (o : Outcome GatewayError (Option NativeHandoffRecord))
          → stored.0 ≡ o
          → (is_native_request_id request ≡ true)
            × (is_native_session_id session ≡ true)
            × (is_handoff_id id ≡ true)
            × ((answer : Option NativeHandoffRecord) × (stored.0 ≡ returned answer))
            × (left.store ≡ stored.1)
            × (left.disposed ≡ world.disposed)
      by_reply (thrown e) q = ground arith
      by_reply (returned a) q =
          (ground arith, ground arith, ground arith, (a, q), ground arith, ground arith)

  issued_record-valid :
      (provider : SyncProviderKind) (request session : String) (time : ℕ)
      → is_native_request_id request ≡ true
      → is_native_session_id session ≡ true
      → time ≤ max_safe_integer
      → is_native_handoff_record (issued_record provider request session time) ≡ true
  unfolding is_native_handoff_record
  issued_record-valid provider request session time asked named safe = ground arith

  -- Redeeming the record that an issue stores.
  redeem_issued :
      (later : ℕ) (input : NativeHandoffRedemption) (provider : SyncProviderKind)
      (request session : String) (time : ℕ) (world : HandoffWorld S)
      → is_native_request_id request ≡ true
      → is_native_session_id session ≡ true
      → time ≤ max_safe_integer
      → let fits = same_provider provider input.provider && request == input.native_request_id in
        let (reply, after) =
          redeem_taken port at later input
            (some (issued_record provider request session time))
            world in
        (reply ≡ (
          if fits && ltb later time
          then returned (record { outcome = authorized; session_id = some session })
          else thrown (
              if port.disposal_works session
              then if fits then unavailable_handoff else handoff_mismatch
              else disposal_failed)))
        × (after.disposed
            ≡ (if fits && ltb later time then world.disposed else session ∷ world.disposed))
  unfolding redeem_taken redeem redeem_authorized dispose_and_throw is_native_handoff_record
  redeem_issued later input provider request session time world asked named safe = ground arith

  consume-found :
      (later : ℕ) (input : NativeHandoffRedemption) (r : NativeHandoffRecord)
      (world : HandoffWorld S)
      → is_native_request_id input.native_request_id ≡ true
      → is_handoff_id input.handoff_id ≡ true
      → (port.store_call at (take_session input.handoff_id) world.store).0 ≡ returned (some r)
      → consume port at later input world
        ≡ redeem_taken port at later input (some r) (record {
          store = (port.store_call at (take_session input.handoff_id) world.store).1;
          disposed = world.disposed;
        })
  unfolding consume
  consume-found later input r world request handoff found = ground arith

-- A hand-off that was issued for a session, with a time that is a safe integer, is redeemed by a
-- request with a well-formed request id while the store keeps it. The redemption gives that session,
-- and disposes of nothing, if the provider and the request are the issue's and the hand-off's own
-- time has not passed. Else it throws, and disposes of that session.
pub consume-issue :
    {S : Type 0} (port : HandoffPort S) (lifetime : ℕ) (keeps : KeepsHandoffs port lifetime)
    (first second : Surroundings) (scheme : String) (ttl now later : ℕ)
    (provider : SyncProviderKind) (request session : String) (input : NativeHandoffRedemption)
    (world left : HandoffWorld S) (link : String)
    → issue port first scheme ttl now input.handoff_id provider request session world
      ≡ (returned link, left)
    → is_native_request_id input.native_request_id ≡ true
    → now + ttl ≤ max_safe_integer
    → second.now < first.later + lifetime
    → let fits = same_provider provider input.provider && request == input.native_request_id in
      let (reply, after) = consume port second later input left in
      (reply ≡ (
        if fits && ltb later (now + ttl)
        then returned (record { outcome = authorized; session_id = some session })
        else thrown (
            if port.disposal_works session
            then if fits then unavailable_handoff else handoff_mismatch
            else disposal_failed)))
      × (after.disposed
          ≡ (if fits && ltb later (now + ttl) then world.disposed else session ∷ world.disposed))
consume-issue port lifetime keeps first second scheme ttl now later provider request session input
      world left link issued asked safe soon =
    let id = input.handoff_id in
    let (named, session_ok, handoff, (answer, stored), store_eq, disposed_eq) =
      issue-stored port first scheme ttl now id provider request session world left link issued in
    let r = issued_record port first provider request session (now + ttl) in
    let valid =
      issued_record-valid port first provider request session (now + ttl) named session_ok safe in
    let kept = keeps.take-set first second id r answer world.store handoff valid stored soon in
    rw
      (consume-found port second later input r left asked handoff (rw store_eq kept), ← disposed_eq)
      (redeem_issued port second later input provider request session (now + ttl) _ named session_ok
        safe)
