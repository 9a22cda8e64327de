-- ===== src/Gateway/Handoff.antt =====
-- `NativeAuthorizationHandoffs` over any session store: an authorization in the browser is handed to
-- the native app under an id that is good for one redemption. `new URL` is a parameter.
use omnia_reader.Prelude.{
  ℕ, ◌+◌, String, Bool, not, ◌==◌, ◌||◌, Option, none, some, List, [], ◌∷◌, leb, if◌then◌else◌,
}
use omnia_reader.Prelude.Text.{concat}
use omnia_reader.Prelude.Action.{Action, returned, thrown, ◌>>=◌, ◌>>◌, lift}
use omnia_reader.Gateway.Runtime.{GatewayError}
use omnia_reader.Gateway.Sessions.{SessionCall, set_session, take_session, Surroundings}
use omnia_reader.Gateway.Requests.{
  SyncProviderKind, NativeHandoffOutcome, authorized, denied, invalid, failed, NativeHandoffRecord,
  NativeHandoffRedemption, NativeHandoffResult, HandoffError, invalid_native_request,
  invalid_handoff_source, invalid_native_session, unavailable_handoff, handoff_mismatch,
  disposal_failed, store_error, provider_name, same_provider, is_native_request_id, is_handoff_id,
  is_native_session_id, is_native_handoff_record,
}

-- The store, the URL builder, and what `disposeSession` does with a session.
pub record HandoffPort (S : Type 0) : Type 0 where
  pub store_call :
      Surroundings
      → SessionCall NativeHandoffRecord
      → Action GatewayError S (Option NativeHandoffRecord)
  pub url : String → List (String × String) → String
  pub disposal_works : String → Bool

-- The store, and the sessions that have been handed to `disposeSession`, the last one first.
pub record HandoffWorld (S : Type 0) : Type 0 where
  pub store : S
  pub disposed : List String

module _ {S : Type 0} (port : HandoffPort S) (at : Surroundings) where
  abbrev pub HandoffAction : Type 0 → Type 0
  HandoffAction A = Action HandoffError (HandoffWorld S) A

  -- A call of the store, whose errors pass through.
  abbrev pub call_store :
      SessionCall NativeHandoffRecord → HandoffAction (Option NativeHandoffRecord)
  call_store call world =
      let (reply, store) = port.store_call at call world.store in
      let left : HandoffWorld S = record { store = store; disposed = world.disposed } in
      elim reply [ returned r ↦ (returned r, left) | thrown e ↦ (thrown (store_error e), left) ]

  unfoldable pub deep_link : String → SyncProviderKind → String → String → String
  deep_link scheme provider native_request_id handoff_id =
      port.url (concat scheme (concat "://sync-auth/" (provider_name provider)))
        (("handoffId", handoff_id) ∷ ("requestId", native_request_id) ∷ [])

  -- What `issue` and `issueFailure` share. `random` is what `randomId` gave.
  unfoldable pub issue_record : String → String → NativeHandoffRecord → HandoffAction String
  unfolding is_handoff_id deep_link
  issue_record scheme random r world =
      if not (is_handoff_id random)
      then (thrown invalid_handoff_source, world)
      else (call_store (set_session random r)
            >> lift (returned (deep_link scheme r.provider r.native_request_id random)))
          world

  unfoldable pub issue :
      String → ℕ → ℕ → String → SyncProviderKind → String → String → HandoffAction String
  unfolding is_native_request_id is_native_session_id issue_record
  issue scheme ttl now random provider native_request_id session_id world =
      if not (is_native_request_id native_request_id)
      then (thrown invalid_native_request, world)
      else if not (is_native_session_id session_id)
      then (thrown invalid_native_session, world)
      else issue_record scheme random
          (record {
            provider = provider;
            native_request_id = native_request_id;
            outcome = authorized;
            session_id = some session_id;
            expires_at = now + ttl;
          })
          world

  -- The type of `outcome` leaves `authorized` out.
  unfoldable pub issue_failure :
      String
      → ℕ
      → ℕ
      → String
      → SyncProviderKind
      → String
      → NativeHandoffOutcome
      → HandoffAction String
  unfolding is_native_request_id issue_record
  issue_failure scheme ttl now random provider native_request_id outcome world =
      if not (is_native_request_id native_request_id)
      then (thrown invalid_native_request, world)
      else issue_record scheme random
          (record {
            provider = provider;
            native_request_id = native_request_id;
            outcome = outcome;
            session_id = none;
            expires_at = now + ttl;
          })
          world

  -- Disposes of the session that a record has, if any, and throws.
  unfoldable pub dispose_and_throw :
      Option String → HandoffError → HandoffAction NativeHandoffResult
  dispose_and_throw none e world = (thrown e, world)
  dispose_and_throw (some id) e world = (
    thrown (if port.disposal_works id then e else disposal_failed),
    record { store = world.store; disposed = id ∷ world.disposed },
  )

  unfoldable pub redeem_authorized : Option String → HandoffAction NativeHandoffResult
  redeem_authorized none world = (thrown unavailable_handoff, world)
  redeem_authorized (some id) world =
      if not (is_native_session_id id)
      then (thrown invalid_native_session, world)
      else (returned (record { outcome = authorized; session_id = some id }), world)

  unfoldable pub redeem_failure :
      NativeHandoffOutcome → Option String → HandoffAction NativeHandoffResult
  unfolding dispose_and_throw
  redeem_failure outcome none world =
      (returned (record { outcome = outcome; session_id = none }), world)
  redeem_failure outcome (some id) world = dispose_and_throw (some id) unavailable_handoff world

  unfoldable pub redeem :
      ℕ → NativeHandoffRedemption → NativeHandoffRecord → HandoffAction NativeHandoffResult
  unfolding dispose_and_throw redeem_authorized redeem_failure
  redeem now input r world =
      if not (same_provider r.provider input.provider)
        || not (r.native_request_id == input.native_request_id)
      then dispose_and_throw r.session_id handoff_mismatch world
      else if leb r.expires_at now
      then dispose_and_throw r.session_id unavailable_handoff world
      else elim r.outcome [
        | authorized ↦ redeem_authorized r.session_id world
        | denied ↦ redeem_failure denied r.session_id world
        | invalid ↦ redeem_failure invalid r.session_id world
        | failed ↦ redeem_failure failed r.session_id world
      ]

  unfoldable pub redeem_taken :
      ℕ → NativeHandoffRedemption → Option NativeHandoffRecord → HandoffAction NativeHandoffResult
  unfolding redeem is_native_handoff_record
  redeem_taken now input none world = (thrown unavailable_handoff, world)
  redeem_taken now input (some r) world =
      if not (is_native_handoff_record r)
      then (thrown unavailable_handoff, world)
      else redeem now input r world

  unfoldable pub consume : ℕ → NativeHandoffRedemption → HandoffAction NativeHandoffResult
  unfolding is_native_request_id is_handoff_id redeem_taken
  consume now input world =
      if not (is_native_request_id input.native_request_id)
      then (thrown invalid_native_request, world)
      else if not (is_handoff_id input.handoff_id)
      then (thrown unavailable_handoff, world)
      else (call_store (take_session input.handoff_id) >>= λ taken. redeem_taken now input taken)
          world
