-- ===== src/Gateway/Refinement/Writes.antt =====
-- The records that a write of the store in a file leaves, when the disk takes it.
use omnia_reader.Prelude.{ℕ, String, ◌≡◌, refl, Bool, true, none, all, [], ◌∷◌, arith, eq_iff}
use omnia_reader.Prelude.JsMap.{get, UniqueKeys}
use omnia_reader.Gateway.Sessions.{Reply, View, live}
use omnia_reader.Gateway.Memory.{Records}
use omnia_reader.Gateway.File.{Disk, DiskPort, records_of, write_disk, write_then, remove_expired}

get-remove_expired-none :
    (now : ℕ) (j : String) (records : Records)
    → get j records ≡ none
    → get j (remove_expired now records) ≡ none
unfolding remove_expired get
get-remove_expired-none now j [] h = refl
get-remove_expired-none now j ((k, r) ∷ records) h =
    ground (arith, get-remove_expired-none now j records)

pub remove_expired-UniqueKeys :
    (now : ℕ) (records : Records) → UniqueKeys records → UniqueKeys (remove_expired now records)
unfolding remove_expired
remove_expired-UniqueKeys now [] u = tt
remove_expired-UniqueKeys now ((k, r) ∷ records) u =
    ground (arith, get-remove_expired-none now k records, remove_expired-UniqueKeys now records)

-- Clearing out what has expired changes nothing that counts.
pub live-remove_expired :
    (now : ℕ) (j : String) (records : Records)
    → UniqueKeys records
    → live now (get j (remove_expired now records)) ≡ live now (get j records)
unfolding remove_expired get live
live-remove_expired now j [] u = refl
live-remove_expired now j ((k, r) ∷ records) u =
    ground
      (arith, eq_iff k j, live-remove_expired now j records, get-remove_expired-none now j records)

abbrev pub landed : Disk → Bool
landed disk = all (λ ok. ok) disk.attempts

-- The call answers as the contract does, and its file shows for one id what the contract leaves.
abbrev pub Keeps :
    {V : Type 0} → (String → String) → ℕ → String → Reply V × View → Reply V × Disk → Type 0
Keeps key now j spec call =
    (call.0 ≡ spec.0)
    × (live now (get (key j) (records_of call.1.file)) ≡ live now (spec.1 j))
    × UniqueKeys (records_of call.1.file)

-- A write that lands leaves its records.
pub write_then-Keeps :
    {V : Type 0} (port : DiskPort) (now : ℕ) (j : String) (records : Records) (reply : Reply V)
    (spec : Reply V × View) (disk : Disk)
    → landed (write_then port records reply disk).1 ≡ true
    → reply ≡ spec.0
    → live now (get (port.storage_key j) records) ≡ live now (spec.1 j)
    → UniqueKeys records
    → Keeps port.storage_key now j spec (write_then port records reply disk)
unfolding write_disk
write_then-Keeps port now j records reply spec disk ok same shows unique = ground arith
