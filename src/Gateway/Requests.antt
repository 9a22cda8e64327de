-- ===== src/Gateway/Requests.antt =====
-- The records of a hand-off to the native app, their checks, and the path that carries a request.
use Prim.Native.Char.{code}
use omnia_reader.Prelude.{
  ℕ, ◌*◌, String, Bool, true, false, not, ◌&&◌, Option, none, some, leb, eqb, is_some,
  if◌then◌else◌,
}
use omnia_reader.Prelude.Text.{concat}
use omnia_reader.Prelude.Action.{Outcome, returned, thrown}
use omnia_reader.Gateway.Runtime.{GatewayError, is_key_text}
use omnia_reader.Gateway.File.{max_safe_integer}

pub data SyncProviderKind : Type 0 where
  github mega : SyncProviderKind

pub data NativeHandoffOutcome : Type 0 where
  authorized denied invalid failed : NativeHandoffOutcome

pub record NativeHandoffRecord : Type 0 where
  pub provider : SyncProviderKind
  pub native_request_id : String
  pub outcome : NativeHandoffOutcome
  pub session_id : Option String
  pub expires_at : ℕ

pub record NativeHandoffRedemption : Type 0 where
  pub provider : SyncProviderKind
  pub native_request_id : String
  pub handoff_id : String

pub record NativeHandoffResult : Type 0 where
  pub outcome : NativeHandoffOutcome
  pub session_id : Option String

pub data HandoffError : Type 0 where
  invalid_native_request invalid_handoff_source invalid_native_session : HandoffError
  unavailable_handoff handoff_mismatch disposal_failed : HandoffError
  store_error : GatewayError → HandoffError

abbrev pub default_ttl_ms : ℕ
default_ttl_ms = 5 * 60 * 1000

abbrev pub provider_name : SyncProviderKind → String
provider_name github = "github"
provider_name mega = "mega"

abbrev pub same_provider : SyncProviderKind → SyncProviderKind → Bool
same_provider github github = true
same_provider mega mega = true
same_provider _ _ = false

unfoldable pub is_native_request_id : String → Bool
unfolding is_key_text
is_native_request_id = is_key_text 16 128

unfoldable pub is_handoff_id : String → Bool
unfolding is_key_text
is_handoff_id = is_key_text 43 43

unfoldable pub is_native_session_id : String → Bool
unfolding is_key_text
is_native_session_id = is_key_text 16 512

-- `isNativeHandoffRecord`, less what the types of the fields say
unfoldable pub is_native_handoff_record : NativeHandoffRecord → Bool
unfolding is_native_request_id is_native_session_id
is_native_handoff_record r =
    is_native_request_id r.native_request_id
    && leb r.expires_at max_safe_integer
    && (elim r.outcome [
      | authorized ↦ elim r.session_id [ none ↦ false | some id ↦ is_native_session_id id ]
      | _ ↦ not (is_some r.session_id)
    ])

abbrev pub return_path_prefix : String
return_path_prefix = "/api/sync/native/authorization/"

abbrev pub return_path_of : SyncProviderKind → String
return_path_of provider = concat return_path_prefix (concat (provider_name provider) "/")

unfoldable pub authorization_return_to : SyncProviderKind → String → Outcome HandoffError String
unfolding is_native_request_id
authorization_return_to provider native_request_id =
    if not (is_native_request_id native_request_id)
    then thrown invalid_native_request
    else returned (concat (return_path_of provider) native_request_id)

-- `startsWith`, and `slice` from the prefix's end
unfoldable pub after_prefix : String → String → Option String
after_prefix String.[] s = some s
after_prefix (String.◌∷◌ c p) String.[] = none
after_prefix (String.◌∷◌ c p) (String.◌∷◌ d s) =
    let rest = after_prefix p s in if eqb (code c) (code d) then rest else none

unfoldable pub request_from_return_to : SyncProviderKind → String → Option String
unfolding after_prefix is_native_request_id
request_from_return_to provider return_to =
    elim (after_prefix (return_path_of provider) return_to) [
      | none ↦ none
      | some id ↦ if is_native_request_id id then some id else none
    ]
