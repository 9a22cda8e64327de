-- ===== src/Gateway/Redemption.antt =====
-- What a hand-off's redemption promises, over any store that keeps a session until it is taken.
pub mod Once
use omnia_reader.Prelude.{
  ℕ, ◌+◌, ◌<◌, String, ◌≡◌, refl, ap, ◌∙◌, true, Option, none, some, arith, eq_iff,
}
use omnia_reader.Prelude.Action.{Outcome, returned, thrown}
use omnia_reader.Gateway.Runtime.{GatewayError}
use omnia_reader.Gateway.Sessions.{set_session, take_session, Surroundings}
use omnia_reader.Gateway.Requests.{
  SyncProviderKind, github, mega, NativeHandoffRecord, NativeHandoffRedemption, NativeHandoffResult,
  same_provider, is_handoff_id, is_native_handoff_record,
}
use omnia_reader.Gateway.Handoff.{
  HandoffPort, HandoffWorld, consume, redeem_taken, redeem, redeem_authorized, redeem_failure,
  dispose_and_throw,
}

-- What the redemption relies on of the store, for ids of hand-offs. `lifetime` is the store's.
pub record KeepsHandoffs {S : Type 0} (port : HandoffPort S) (lifetime : ℕ) : Type 0 where
  pub take-set :
      (first second : Surroundings) (id : String) (r : NativeHandoffRecord)
      (answer : Option NativeHandoffRecord) (s : S)
      → is_handoff_id id ≡ true
      → is_native_handoff_record r ≡ true
      → (port.store_call first (set_session id r) s).0 ≡ returned answer
      → second.now < first.later + lifetime
      → (port.store_call second (take_session id) (port.store_call first (set_session id r) s).1).0
        ≡ returned (some r)

module _ {S : Type 0} (port : HandoffPort S) (at : Surroundings) (now : ℕ)
    (input : NativeHandoffRedemption) where
  -- The record fits the request and still counts.
  abbrev pub Fits : NativeHandoffRecord → Type 0
  Fits r =
      (r.provider ≡ input.provider)
      × (r.native_request_id ≡ input.native_request_id)
      × (now < r.expires_at)

  same_provider_eq : (p q : SyncProviderKind) → same_provider p q ≡ true → p ≡ q
  same_provider_eq github github h = refl
  same_provider_eq github mega h = cc
  same_provider_eq mega github h = cc
  same_provider_eq mega mega h = refl

  redeem-Fits :
      (r : NativeHandoffRecord) (world left : HandoffWorld S) (result : NativeHandoffResult)
      → redeem port at now input r world ≡ (returned result, left)
      → Fits r × (left ≡ world) × (result.outcome ≡ r.outcome) × (result.session_id ≡ r.session_id)
  unfolding redeem redeem_authorized redeem_failure dispose_and_throw
  redeem-Fits r world left result h = grind (
    arith,
    same_provider_eq r.provider input.provider,
    eq_iff r.native_request_id input.native_request_id,
  )

  -- The record fits, its outcome and session are the result's, and no session was disposed of.
  abbrev pub Redeems :
      NativeHandoffResult → HandoffWorld S → HandoffWorld S → NativeHandoffRecord → Type 0
  Redeems result world left r =
      Fits r
      × (result.outcome ≡ r.outcome)
      × (result.session_id ≡ r.session_id)
      × (left.disposed ≡ world.disposed)

  redeem_taken-Fits :
      (taken : Option NativeHandoffRecord) (world left : HandoffWorld S)
      (result : NativeHandoffResult)
      → redeem_taken port at now input taken world ≡ (returned result, left)
      → (r : NativeHandoffRecord) × (taken ≡ some r) × Redeems result world left r
  unfolding redeem_taken
  redeem_taken-Fits none world left result h = ground arith
  redeem_taken-Fits (some r) world left result h =
      let (fits, same, kind, session) = redeem-Fits r world left result (ground arith) in
      (r, refl, (fits, kind, session, ap (λ w. w.disposed) same))

  pub redeem_taken-store :
      (taken : Option NativeHandoffRecord) (world : HandoffWorld S)
      → (redeem_taken port at now input taken world).1.store ≡ world.store
  unfolding redeem_taken redeem redeem_authorized redeem_failure dispose_and_throw
  redeem_taken-store none world = refl
  redeem_taken-store (some r) world = ground arith

-- A redemption that succeeds has taken from the store a record for the same provider and request
-- that had not expired, gives the record's outcome and session, and disposes of no session.
pub consume-Fits :
    {S : Type 0} (port : HandoffPort S) (at : Surroundings) (now : ℕ)
    (input : NativeHandoffRedemption) (world left : HandoffWorld S) (result : NativeHandoffResult)
    → consume port at now input world ≡ (returned result, left)
    → (r : NativeHandoffRecord) × ((port.store_call at
          (take_session input.handoff_id)
          world.store).0
        ≡ returned (some r))
      × Redeems port at now input result world left r
unfolding consume
consume-Fits port at now input world left result h =
    by_reply (port.store_call at (take_session input.handoff_id) world.store).0 refl
  where
    reply : Outcome GatewayError (Option NativeHandoffRecord)
    reply = (port.store_call at (take_session input.handoff_id) world.store).0

    by_reply :
        (o : Outcome GatewayError (Option NativeHandoffRecord))
        → reply ≡ o
        → (r : NativeHandoffRecord) × (reply ≡ returned (some r))
          × Redeems port at now input result world left r
    by_reply (thrown e) q = ground arith
    by_reply (returned taken) q =
        let (r, e, redeems) =
          redeem_taken-Fits port at now input taken
            (record {
              store = (port.store_call at (take_session input.handoff_id) world.store).1;
              disposed = world.disposed;
            })
            left result (ground arith) in
        (r, q ∙ ap (λ t. returned t) e, redeems)
