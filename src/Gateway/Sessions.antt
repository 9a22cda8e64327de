-- ===== src/Gateway/Sessions.antt =====
-- The contract of `GatewaySessionStore`: which record each call finds, answers and leaves. A record
-- counts while it has not expired.
use omnia_reader.Prelude.{
  ℕ, ◌+◌, ◌*◌, String, ◌≡◌, not, ◌==◌, Option, none, some, leb, ◌||◌, if◌then◌else◌,
}
use omnia_reader.Prelude.JsMap.{JsMap, get}
use omnia_reader.Prelude.Action.{Outcome, returned, thrown}
use omnia_reader.Gateway.Runtime.{
  GatewayError, invalid_session_id, invalid_provider_session, Bytes, is_session_id,
}
use omnia_reader.Gateway.Cipher.{Cipher, DecryptedValue}

pub record EncryptedRecord : Type 0 where
  pub ciphertext : String
  pub expires_at : ℕ

pub data SessionCall (V : Type 0) : Type 0 where
  get_session take_session delete_session : String → SessionCall V
  set_session : String → V → SessionCall V
  move_session : String → String → V → SessionCall V

-- What one call reads of its surroundings: the clock, twice, and the random bytes.
pub record Surroundings : Type 0 where
  pub now : ℕ
  pub later : ℕ
  pub iv : Bytes

abbrev pub default_session_ttl_ms : ℕ
default_session_ttl_ms = 30 * 24 * 60 * 60 * 1000

abbrev pub Reply : Type 0 → Type 0
Reply V = Outcome GatewayError (Option V)

-- The abstract store: the record of each session id.
abbrev pub View : Type 0
View = String → Option EncryptedRecord

abbrev pub view_put : String → EncryptedRecord → View → View
view_put id r view j = if id == j then some r else view j

abbrev pub view_drop : String → View → View
view_drop id view j = if id == j then none else view j

unfoldable pub live : ℕ → Option EncryptedRecord → Option EncryptedRecord
live now none = none
live now (some r) = if leb r.expires_at now then none else some r

unfoldable pub opened : {V : Type 0} → Option (DecryptedValue V) → Reply V
opened none = thrown invalid_provider_session
opened (some d) = returned (some d.value)

module _ {V : Type 0} (cipher : Cipher V) (ttl : ℕ) (at : Surroundings) where
  unfoldable pub spec_read : String → EncryptedRecord → View → Reply V × View
  spec_read id r view = elim (cipher.decrypt id r.ciphertext) [
    | none ↦ (thrown invalid_provider_session, view_drop id view)
    | some d ↦
        if d.needs_rotation
        then elim (cipher.encrypt at.iv id d.value) [
          | thrown e ↦ (thrown invalid_provider_session, view_drop id view)
          | returned c ↦ (
            returned (some d.value),
            view_put id (record { ciphertext = c; expires_at = r.expires_at }) view,
          )
        ]
        else (returned (some d.value), view)
  ]

  unfoldable pub spec_write : String → V → (EncryptedRecord → View) → View → Reply V × View
  spec_write id v after view = elim (cipher.encrypt at.iv id v) [
    | thrown e ↦ (thrown e, view)
    | returned c ↦ (returned none, after (record { ciphertext = c; expires_at = at.later + ttl }))
  ]

  unfoldable pub spec_move : String → String → V → EncryptedRecord → View → Reply V × View
  unfolding spec_write
  spec_move id replacement v r view = elim (cipher.decrypt id r.ciphertext) [
    | none ↦ (thrown invalid_provider_session, view_drop id view)
    | some d ↦
        spec_write replacement v
          (λ new.
            let put_new = view_put replacement new view in
            if id == replacement then put_new else view_drop id put_new)
          view
  ]

  unfoldable pub spec_call : SessionCall V → View → Reply V × View
  unfolding live spec_read opened spec_write spec_move
  spec_call (get_session id) view =
      if not (is_session_id id)
      then (thrown invalid_session_id, view)
      else elim (live at.now (view id)) [
        | none ↦ (returned none, view)
        | some r ↦ spec_read id r view
      ]
  spec_call (set_session id v) view =
      if not (is_session_id id)
      then (thrown invalid_session_id, view)
      else spec_write id v (λ new. view_put id new view) view
  spec_call (take_session id) view =
      if not (is_session_id id)
      then (thrown invalid_session_id, view)
      else elim (live at.now (view id)) [
        | none ↦ (returned none, view_drop id view)
        | some r ↦ (opened (cipher.decrypt id r.ciphertext), view_drop id view)
      ]
  spec_call (move_session id replacement v) view =
      if not (is_session_id id) || not (is_session_id replacement)
      then (thrown invalid_session_id, view)
      else elim (live at.now (view id)) [
        | none ↦ (thrown invalid_provider_session, view_drop id view)
        | some r ↦ spec_move id replacement v r view
      ]
  spec_call (delete_session id) view =
      if not (is_session_id id)
      then (thrown invalid_session_id, view)
      else (returned none, view_drop id view)

-- The map shows the view, as far as a clock that stands at `now` can tell: what has expired on one
-- side may be gone on the other.
abbrev pub Shows : (String → String) → ℕ → View → JsMap EncryptedRecord → Type 0
Shows key now view records = (j : String) → live now (get (key j) records) ≡ live now (view j)
