-- ===== src/Database.antt =====
-- database/: the registrations of devices. database.go: the record that every backend keeps.
pub mod Slots
pub mod RoundTrip
pub mod Bbolt
pub mod MemBase
pub mod EnvBase
mod Tests
use timelynotify_server.Base.{
  ℕ, String, Bool, true, false, List, [], ◌∷◌, Option, none, some, Text, codes, text_key,
  if◌then◌else◌, ◌==◌,
}

pub record DeviceInfo : Type 0 where
  pub key : Text
  pub token : Text
  pub platform : Text

abbrev pub ios : Text
ios = codes "ios"

abbrev pub harmony : Text
harmony = codes "harmony"

-- The platform, "ios" where it is left out.
abbrev pub or_ios : Text → Text
or_ios platform = if platform == [] then ios else platform

-- The first record of platform "ios", the first of all if there is none.
first_ios : DeviceInfo → List DeviceInfo → DeviceInfo
first_ios first [] = first
first_ios first (info ∷ infos) =
    let rest = first_ios first infos in if info.platform == ios then info else rest

-- What DeviceInfoByKey takes of the records that DevicesByKey returns.
unfoldable pub preferred : Option (List DeviceInfo) → Option DeviceInfo
unfolding first_ios
preferred none = none
preferred (some []) = none
preferred (some (info ∷ infos)) = some (first_ios info (info ∷ infos))

-- The record of a platform among those of a key.
unfoldable pub device_on : Text → List DeviceInfo → Option DeviceInfo
device_on platform [] = none
device_on platform (info ∷ infos) =
    let rest = device_on platform infos in if info.platform == platform then some info else rest
