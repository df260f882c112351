-- ===== src/Tests/Profiles.antt =====
-- Concrete runs of the profile store.
use misgeret.Base.{
  ℕ, ◌≤◌, ◌<◌, ◌≡◌, refl, pos, Bool, true, false, none, some, [], ◌∷◌, all, any, leb, length,
}
use misgeret.Base.Dict.{has_key, get}
use misgeret.Text.{Text, codes, trim, is_empty, eq_text}
use misgeret.Profiles.{
  Profile, World, directory, missing, Store, Machine, Os, undefined, null, string,
}
use misgeret.Profiles.Checks.{normalize_name, lower_color, is_color, is_profile_id}
use misgeret.Profiles.Free.{adoption_name, name_taken, unused_adoption_index, unused_adoption_name}
use misgeret.Profiles.Members.{has_id, dir_for}
use misgeret.Profiles.Registry.{content_of, write, read_registry}
use misgeret.Profiles.Loading.{load, is_numbered}
use misgeret.Profiles.Requests.{check_made, create}
use misgeret.Profiles.Changes.{creates, updates, deletes, handle, soft_delete, store_without}
use misgeret.Profiles.Validity.{IsWellFormed, ids_all, is_resolved, has_home}
use misgeret.Profiles.Invariant.{Reaches, stays, moves}
use misgeret.Profiles.Reloading.{is_calm}
use misgeret.Profiles.Durable.{IsDurable}
use misgeret.Profiles.Unique.{IsUnique}
use misgeret.Profiles.Lifetime.{is_plain, load-Reaches-IsWellFormed, dir_for-is_plain}
use misgeret.Profiles.Reboot.{Reaches-load-write}
use misgeret.Profiles.Crashes.{create-load_crashed, soft_delete-load_crashed}
use misgeret.Profiles.NamesKept.{Reaches-IsUnique}
use misgeret.Profiles.Names.{unused_adoption_index-IsFirst}

abbrev first : Text
first = codes "11111111-aaaa-4aaa-8aaa-111111111111"

abbrev second : Text
second = codes "22222222-aaaa-4aaa-8aaa-222222222222"

abbrev third : Text
third = codes "33333333-aaaa-4aaa-8aaa-333333333333"

abbrev shorter : Text → Text → Bool
shorter s t = leb (length s) (length t)

abbrev platform : Bool → Text → Os
platform written fresh = record {
  now = codes "2026-03-01";
  stamp = codes "2026-03-01T10";
  fresh = fresh;
  world_made = true;
  data_dir_made = true;
  written = written;
  renamed = true;
  moved = true;
  removable = λ t. true;
}

abbrev mine : Profile
mine = record {
  id = first;
  name = codes "dana";
  color = codes "#6ea8ff";
  created_at = codes "2026-01-01";
  last_opened_at = none;
  order = pos 0;
}

abbrev yours : Profile
yours = record {
  id = second;
  name = codes "omer";
  color = codes "#f2a65a";
  created_at = codes "2026-02-01";
  last_opened_at = some (codes "2026-02-02");
  order = pos 1;
}

abbrev world : World
world = record { marker = false; database = true; others = true }

abbrev pair : Store
pair = record { profiles = mine ∷ yours ∷ []; active_id = some first }

abbrev home : Machine
home = record {
  store = pair;
  disk = record {
    registry = content_of pair;
    worlds = (first, directory world) ∷ (second, directory world) ∷ [];
    deleted = [];
  };
}

home-IsWellFormed : IsWellFormed home
unfolding is_profile_id ids_all is_numbered is_resolved has_home has_id eq_text has_key
home-IsWellFormed = record {
  distinct = (refl, (refl, tt));
  uuids = refl;
  numbered = refl;
  active = refl;
  homes = refl;
}

home-IsDurable : IsDurable home
unfolding is_profile_id trim is_empty is_color lower_color is_calm has_id eq_text has_key
home-IsDurable = record {
  storable = (
    record {
      uuid = refl;
      named = record { trimmed = refl; filled = refl; short = refl };
      painted = record { shaped = refl; lowered = refl };
    },
    (
      record {
        uuid = refl;
        named = record { trimmed = refl; filled = refl; short = refl };
        painted = record { shaped = refl; lowered = refl };
      },
      tt,
    ),
  );
  calm = refl;
  entries = (refl, (refl, tt));
}

-- A profile is made, another one leaves.
abbrev later : Machine
later =
    handle lower_color (platform true third) (deletes first)
      (handle lower_color (platform true third) (creates undefined null) home)

home-Reaches : Reaches lower_color home later
unfolding handle create soft_delete has_id eq_text
home-Reaches =
    moves (platform true third) (creates undefined null) home later refl
      (moves (platform true third) (deletes first) _ later tt (stays later))

Reaches-load-write_example :
    (load lower_color shorter (platform true third) (write later).disk).0.store ≡ later.store
unfolding handle create soft_delete has_id eq_text
Reaches-load-write_example =
    Reaches-load-write lower_color shorter (platform true third) home later home-IsWellFormed
      home-IsDurable home-Reaches

create-load_crashed_example :
    (load lower_color shorter
      (platform true third)
      (create lower_color
        (platform false third)
        (string (codes "noa"))
        undefined
        home).0.disk).0.store
    ≡ pair
unfolding handle create has_id eq_text normalize_name trim any is_profile_id check_made get
create-load_crashed_example =
    create-load_crashed lower_color shorter (platform false third) (platform true third) home
      home-IsWellFormed home-IsDurable refl (string (codes "noa")) undefined refl

soft_delete-load_crashed_example :
    (load lower_color shorter
      (platform true third)
      (soft_delete (platform false third) first home).0.disk).0.store
    ≡ store_without first pair
unfolding soft_delete has_id eq_text is_profile_id get
soft_delete-load_crashed_example =
    soft_delete-load_crashed lower_color shorter (platform false third) (platform true third) home
      home-IsWellFormed home-IsDurable refl first refl

load-Reaches-IsWellFormed_example : IsWellFormed (
    handle lower_color
      (platform false third)
      (deletes second)
      (load lower_color shorter (platform true third) home.disk).0)
unfolding has_id eq_text read_registry is_profile_id trim is_empty content_of
load-Reaches-IsWellFormed_example =
    load-Reaches-IsWellFormed lower_color shorter (platform true third) home.disk
      (handle lower_color (platform false third) (deletes second)
        (load lower_color shorter (platform true third) home.disk).0)
      (refl, (refl, tt)) (moves (platform false third) (deletes second) _ _ tt (stays _))

dir_for-is_plain_example :
    (first ≡ first)
    × (has_id first pair.profiles ≡ true)
    × (all is_plain first ≡ true)
    × (length first ≡ 36)
unfolding dir_for has_id eq_text is_profile_id
dir_for-is_plain_example = dir_for-is_plain first pair.profiles first refl

abbrev empty : Machine
empty = record {
  store = record { profiles = []; active_id = none };
  disk = record { registry = missing; worlds = []; deleted = [] };
}

abbrev filled : Machine
filled =
    handle lower_color (platform true first) (updates third (string (codes "Dana")) undefined)
      (handle lower_color (platform true third) (creates (string (codes "dana")) undefined) empty)

Reaches-IsUnique_example : IsUnique lower_color filled.store.profiles
unfolding has_id
Reaches-IsUnique_example =
    Reaches-IsUnique lower_color empty filled (λ p q m n e. elim m [ ])
      (moves (platform true third) (creates (string (codes "dana")) undefined) empty filled refl (
        moves (platform true first) (updates third (string (codes "Dana")) undefined) _ filled tt
          (stays filled)))

unused_adoption_index-IsFirst_example :
    (name_taken (λ t. t) (unused_adoption_name (λ t. t) pair.profiles) none pair.profiles ≡ false)
    × (1 ≤ unused_adoption_index (λ t. t) pair.profiles)
    × ((j : ℕ)
        → 1 ≤ j
        → j < unused_adoption_index (λ t. t) pair.profiles
        → name_taken (λ t. t) (adoption_name j) none pair.profiles ≡ true)
unused_adoption_index-IsFirst_example =
    unused_adoption_index-IsFirst (λ t. t) (λ i. refl) pair.profiles
