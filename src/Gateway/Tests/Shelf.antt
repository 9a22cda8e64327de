-- ===== src/Gateway/Tests/Shelf.antt =====
-- A store of hand-offs as they are, and the hand-off of a session.
use Prim.Native.String.{String}
use omnia_reader.Prelude.{◌≡◌, true, Option, none, some, [], ◌∷◌, arith, eq_refl}
use omnia_reader.Prelude.JsMap.{JsMap, get, put, remove, get-put, get-remove}
use omnia_reader.Prelude.Action.{Action, returned}
use omnia_reader.Gateway.Runtime.{GatewayError}
use omnia_reader.Gateway.Sessions.{
  SessionCall, get_session, set_session, take_session, move_session, delete_session,
}
use omnia_reader.Gateway.Requests.{NativeHandoffRecord, NativeHandoffRedemption, github, authorized}
use omnia_reader.Gateway.Handoff.{HandoffPort, HandoffWorld}
use omnia_reader.Gateway.Redemption.{KeepsHandoffs}
use omnia_reader.Gateway.Redemption.Once.{ForgetsTaken}

abbrev Shelf : Type 0
Shelf = JsMap NativeHandoffRecord

abbrev shelf_call :
    SessionCall NativeHandoffRecord → Action GatewayError Shelf (Option NativeHandoffRecord)
shelf_call (get_session id) s = (returned (get id s), s)
shelf_call (set_session id r) s = (returned none, put id r s)
shelf_call (take_session id) s = (returned (get id s), remove id s)
shelf_call (move_session id other r) s = (returned none, put other r (remove id s))
shelf_call (delete_session id) s = (returned none, remove id s)

abbrev pub shelf : HandoffPort Shelf
shelf = record {
  store_call = λ at call. shelf_call call;
  url = λ base parameters. base;
  disposal_works = λ id. true;
}

pub shelf-KeepsHandoffs : KeepsHandoffs shelf 3000
shelf-KeepsHandoffs = record {
  take-set = λ first second id r answer s handoff checked stored soon.
      ground (arith, get-put id id r s, eq_refl id);
}

pub shelf-ForgetsTaken : ForgetsTaken shelf
shelf-ForgetsTaken = record {
  IsGone = λ id s. get id s ≡ none;
  take-IsGone = λ at id s handoff. ground (arith, get-remove id id s, eq_refl id);
  take_gone = λ at id s handoff gone. ground arith;
  take_other = λ at id other s gone. ground (arith, get-remove other id s);
  set_other = λ at id other r s apart gone. ground (arith, get-put other id r s);
}

abbrev pub handoff_id : String
handoff_id = "abcdefghijklmnopqrstuvwxyz-0123456789_ABCDE"

abbrev pub request_id : String
request_id = "request-0123456789"

abbrev pub redemption : NativeHandoffRedemption
redemption = record { provider = github; native_request_id = request_id; handoff_id = handoff_id }

abbrev pub issued : NativeHandoffRecord
issued = record {
  provider = github;
  native_request_id = request_id;
  outcome = authorized;
  session_id = some "session-0123456789";
  expires_at = 301000;
}

abbrev pub offered : HandoffWorld Shelf
offered = record { store = (handoff_id, issued) ∷ []; disposed = [] }

abbrev pub nothing_offered : HandoffWorld Shelf
nothing_offered = record { store = []; disposed = [] }
