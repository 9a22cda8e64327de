-- ===== src/LogicalBook/Clock.antt =====
-- The clocks of logical-book-state.ts: which of two changes to one record wins.
pub mod Laws
use omnia_reader.Prelude.{
  String, Bool, true, false, Option, none, some, List, [], ◌∷◌, ◌==◌, if◌then◌else◌,
}
use omnia_reader.Prelude.Collation.{Collation, is_positive}
use omnia_reader.LogicalBook.Types.{LogicalBookChange, LogicalBookStateClock}
use omnia_reader.LogicalBook.Ancestry.{Changes, is_ancestor}

abbrev pub clock_of : LogicalBookChange → LogicalBookStateClock
clock_of change = record {
  change_id = change.change_id;
  created_at = change.created_at;
  device_id = change.device_id;
}

-- `flag === true` comparisons of two Booleans, negated: `a !== b`
abbrev pub differ : Bool → Bool → Bool
differ true true = false
differ true false = true
differ false true = true
differ false false = false

module _ (coll : Collation) (changes : Changes) (candidate : LogicalBookStateClock) where
  abbrev later_id : LogicalBookStateClock → Bool
  later_id current = is_positive (coll.locale_compare candidate.change_id current.change_id)

  unfoldable pub clock_wins : Option LogicalBookStateClock → Bool
  clock_wins none = true
  clock_wins (some current) =
      if candidate.change_id == current.change_id
      then false
      else if is_ancestor current.change_id candidate.change_id changes
      then true
      else if is_ancestor candidate.change_id current.change_id changes
      then false
      else later_id current

  unfoldable pub tombstone_clock_wins : Option LogicalBookStateClock → Bool → Bool → Bool
  tombstone_clock_wins none candidate_is_tombstone current_is_tombstone = true
  tombstone_clock_wins (some current) candidate_is_tombstone current_is_tombstone =
      if candidate.change_id == current.change_id
      then false
      else if is_ancestor current.change_id candidate.change_id changes
      then true
      else if is_ancestor candidate.change_id current.change_id changes
      then false
      else if differ candidate_is_tombstone current_is_tombstone
      then candidate_is_tombstone
      else later_id current
