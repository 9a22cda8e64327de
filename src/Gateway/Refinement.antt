-- ===== src/Gateway/Refinement.antt =====
-- The stores keep the contract of the sessions, whatever key they file a record under.
pub mod Memory
pub mod Writes
pub mod File
use omnia_reader.Prelude.{
  ℕ, ◌≤◌, String, ◌≡◌, refl, Bool, true, false, ◌==◌, Option, none, some, leb, if◌then◌else◌, arith,
  eq_iff,
}
use omnia_reader.Prelude.JsMap.{JsMap, get, put, remove, get-put, get-remove}
use omnia_reader.Gateway.Sessions.{EncryptedRecord, View, view_put, view_drop, live, Shows}

-- What shows at one time shows at all later times.
live_later :
    (now later : ℕ) (a b : Option EncryptedRecord)
    → now ≤ later
    → live now a ≡ live now b
    → live later a ≡ live later b
unfolding live
live_later now later none none h e = refl
live_later now later none (some b) h e = ground arith
live_later now later (some a) none h e = ground arith
live_later now later (some a) (some b) h e = ground arith

pub Shows-later :
    (key : String → String) (now later : ℕ) (view : View) (records : JsMap EncryptedRecord)
    → now ≤ later
    → Shows key now view records
    → Shows key later view records
Shows-later key now later view records h shows j =
    live_later now later (get (key j) records) (view j) h (shows j)

module _ (key : String → String) (distinct : (a b : String) → key a ≡ key b → a ≡ b) (now : ℕ)
    (view : View) (records : JsMap EncryptedRecord) (shows : Shows key now view records) where
  pub put-Shows :
      (id : String) (r : EncryptedRecord)
      → Shows key now (view_put id r view) (put (key id) r records)
  put-Shows id r j = ground (
    arith,
    get-put (key id) (key j) r records,
    eq_iff (key id) (key j),
    eq_iff id j,
    distinct id j,
    shows j,
  )

  pub remove-Shows : (id : String) → Shows key now (view_drop id view) (remove (key id) records)
  unfolding live
  remove-Shows id j = ground (
    arith,
    get-remove (key id) (key j) records,
    eq_iff (key id) (key j),
    eq_iff id j,
    distinct id j,
    shows j,
  )

  -- Removing what has expired changes nothing that shows.
  pub remove_expired-Shows :
      (id : String) → live now (view id) ≡ none → Shows key now view (remove (key id) records)
  unfolding live
  remove_expired-Shows id dead j = ground (
    arith,
    get-remove (key id) (key j) records,
    eq_iff (key id) (key j),
    eq_iff id j,
    distinct id j,
    shows j,
  )
