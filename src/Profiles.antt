-- ===== src/Profiles.antt =====
-- The data of server/src/profiles.ts: the profiles, the registry file, the directories on disk, and
-- what the calls of the platform answer.
-- A text is here the list of its UTF-16 code units. An order in the file that is a finite number but
-- no integer does not occur. A store is modelled from its first `load` on.
pub mod Checks
pub mod Free
pub mod Members
pub mod Registry
pub mod Loading
pub mod Requests
pub mod Changes
pub mod Pigeons
pub mod Names
pub mod Validity
pub mod Keeping
pub mod Leaving
pub mod Reorders
pub mod Invariant
pub mod Adoption
pub mod Storable
pub mod Reloading
pub mod Agreement
pub mod Durable
pub mod Persisting
pub mod Recovery
pub mod Reboot
pub mod Crashes
pub mod Unique
pub mod Naming
pub mod NamesKept
pub mod Lifetime
use misgeret.Base.{ℤ, Bool, Option, List}
use misgeret.Text.{Text}

pub record Profile : Type 0 where
  pub id : Text
  pub name : Text
  pub color : Text
  pub created_at : Text
  pub last_opened_at : Option Text
  pub order : ℤ

pub data ProfileErrorType : Type 0 where
  profile_not_found profile_name_invalid profile_name_exists last_profile profile_busy
        profile_delete_failed profile_open_failed runtime_shutting_down invalid_input :
      ProfileErrorType

-- What a call comes to: its result, a `ProfileError`, or an error of the file system.
pub data Outcome {ℓ} (A : Type ℓ) : Type ℓ where
  done : A → Outcome A
  failed : ProfileErrorType → Outcome A
  threw : Outcome A

infixl 5 ◌>>=◌ ◌>>◌
abbrev pub ◌>>=◌ {ℓ κ} : {A : Type ℓ} {B : Type κ} → Outcome A → (A → Outcome B) → Outcome B
done a >>= f = f a
failed e >>= f = failed e
threw >>= f = threw

abbrev pub ◌>>◌ {ℓ} : {B : Type ℓ} → Outcome (Unit {0}) → Outcome B → Outcome B
o >> b = o >>= λ _. b

abbrev pub check : Bool → ProfileErrorType → Outcome (Unit {0})
check Bool.true e = done tt
check Bool.false e = failed e

-- A value of unknown type, from a request or from the registry file.
pub data Value : Type 0 where
  undefined null structure : Value
  string : Text → Value
  number : ℤ → Value

-- An object in the list of the registry file.
pub record StoredRow : Type 0 where
  pub id : Value
  pub name : Value
  pub color : Value
  pub created_at : Value
  pub last_opened_at : Value
  pub order : Value

-- The registry file: not there, there but not readable, no JSON that has properties, or the value of
-- its `profiles` (if that is an array; a row that is no object is `none`) and of its `activeId`.
pub data Content : Type 0 where
  missing unreadable garbled : Content
  parsed : Option (List (Option StoredRow)) → Value → Content

-- What a directory below profiles/ holds: the marker of a migration, finance.db, anything else.
pub record World : Type 0 where
  pub marker : Bool
  pub database : Bool
  pub others : Bool

pub data Entry : Type 0 where
  file : Entry
  directory : World → Entry

-- The registry, the entries below profiles/ in the order of `readdir`, and the names below
-- deleted-profiles/ with what was moved there.
pub record Disk : Type 0 where
  pub registry : Content
  pub worlds : List (Text × Entry)
  pub deleted : List (Text × Entry)

pub record Store : Type 0 where
  pub profiles : List Profile
  pub active_id : Option Text

pub record Machine : Type 0 where
  pub store : Store
  pub disk : Disk

-- What the platform answers during one call: the time, as it is stored and as it is put into the name
-- of a file, a new UUID, whether the directory of a profile could be made, whether the data directory
-- was there, the temporary file written and renamed, whether a directory could be moved aside, and
-- which empty directories could be removed.
pub record Os : Type 0 where
  pub now : Text
  pub stamp : Text
  pub fresh : Text
  pub world_made : Bool
  pub data_dir_made : Bool
  pub written : Bool
  pub renamed : Bool
  pub moved : Bool
  pub removable : Text → Bool
