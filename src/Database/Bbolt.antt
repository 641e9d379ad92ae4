-- ===== src/Database/Bbolt.antt =====
-- database/bbolt.go: the registrations in a bbolt bucket. The bucket is a map from names to bytes,
-- a transaction is a function of it, and one that fails leaves it as it was. bboltSetup has created
-- the bucket before any operation runs.
pub mod Keeps
pub mod Devices
pub mod Sound
use timelynotify_server.Base.{
  ℕ, String, Bool, true, false, List, [], ◌∷◌, ◌++◌, Option, none, some, Text, codes, text_key,
  if◌then◌else◌, ◌==◌, ◌≡◌, ◌||◌, ◌>>=◌, ◌>>=◌,
}
use timelynotify_server.Base.Dict
use timelynotify_server.Base.Dict.{Dict}
use timelynotify_server.Database.{DeviceInfo, ios, harmony, or_ios, preferred}
use timelynotify_server.Database.Slots.{info_storage_key, legacy_key, parse_info_key}

-- The bytes that the bucket holds: JSON documents of encoding/json, and plain tokens.
pub record Codec (B : Type 0) : Type 0 where
  pub marshal : DeviceInfo → B
  pub unmarshal : B → Option DeviceInfo
  pub bytes : Text → B
  pub text : B → Text
  pub unmarshal-marshal : (info : DeviceInfo) → unmarshal (marshal info) ≡ some info

abbrev pub is_member : Text → List Text → Bool
is_member p [] = false
is_member p (q ∷ l) = q == p || is_member p l

-- The platform and the key, "ios" and a fresh key where they are left out.
unfoldable pub completed : Text → DeviceInfo → DeviceInfo
completed fresh info = record info {
  platform = or_ios info.platform;
  key = if info.key == [] then fresh else info.key;
}

-- `accepts` is the check of bbolt's Put on the sizes of the name and the value.
module _ {B : Type 0} (codec : Codec B) (accepts : Text → B → Bool) where
  unfoldable pub bucket_put : Text → B → Dict Text B → Option (Dict Text B)
  bucket_put name v b = if accepts name v then some (Dict.put b name v) else none

  -- The bare key is written for "ios" only.
  unfoldable pub put_bare : DeviceInfo → Dict Text B → Option (Dict Text B)
  unfolding bucket_put
  put_bare info b =
      if info.platform == ios then bucket_put info.key (codec.bytes info.token) b else some b

  -- The transaction of SaveDeviceInfo.
  unfoldable pub save_record : DeviceInfo → Dict Text B → Option (Dict Text B)
  unfolding bucket_put put_bare
  save_record info b =
      elim (bucket_put (info_storage_key info.key info.platform) (codec.marshal info) b) [
        | none ↦ none
        | some written ↦ put_bare info (Dict.del written (legacy_key info.key))
      ]

  -- `fresh` is what shortuuid.New returns.
  unfoldable pub save_device_info : Text → DeviceInfo → Dict Text B → Option (Text × Dict Text B)
  unfolding save_record completed
  save_device_info fresh info b = elim (save_record (completed fresh info) b) [
    | none ↦ none
    | some b' ↦ some ((completed fresh info).key, b')
  ]

  unfoldable pub save_device_token_by_key :
      Text → Text → Text → Dict Text B → Option (Text × Dict Text B)
  unfolding save_device_info
  save_device_token_by_key fresh key token b =
      save_device_info fresh (record { key = key; token = token; platform = ios }) b

  -- The bare key follows an "ios" record; an error of this Put is ignored.
  unfoldable pub clear_bare : Text → Text → Dict Text B → Dict Text B
  unfolding bucket_put
  clear_bare key platform b =
      if platform == ios
      then elim (bucket_put key (codec.bytes []) b) [ none ↦ b | some b' ↦ b' ]
      else b

  unfoldable pub clear_record : Text → Text → DeviceInfo → Dict Text B → Option (Dict Text B)
  unfolding bucket_put clear_bare
  clear_record key platform info b =
      elim (bucket_put (info_storage_key key platform) (codec.marshal (record info { token = [] }))
        b) [ none ↦ none | some b' ↦ some (clear_bare key platform b') ]

  -- The transaction of ClearDeviceTokenByKeyAndPlatform, for a platform that is given.
  unfoldable pub clear_slot : Text → Text → Dict Text B → Option (Dict Text B)
  unfolding clear_record
  clear_slot key platform b = elim (Dict.get b (info_storage_key key platform)) [
    | none ↦ some b
    | some bs ↦ elim (codec.unmarshal bs) [
      | none ↦ none
      | some info ↦ clear_record key platform info b
    ]
  ]

  unfoldable pub clear_device_token_by_key_and_platform :
      Text → Text → Dict Text B → Option (Dict Text B)
  unfolding clear_slot
  clear_device_token_by_key_and_platform key platform b = clear_slot key (or_ios platform) b

module _ {B : Type 0} where
  unfoldable pub delete_device_by_key : Text → Dict Text B → Dict Text B
  delete_device_by_key key b =
      let b1 = Dict.del b (info_storage_key key ios) in
      let b2 = Dict.del b1 (info_storage_key key harmony) in
      Dict.del (Dict.del b2 (legacy_key key)) key

  -- The pairs of CountAll, each once.
  count_loop : List (Text × B) → Dict Text (Unit {0}) → Dict Text (Unit {0})
  count_loop [] seen = seen
  count_loop ((name, v) ∷ l) seen = elim (parse_info_key name) [
    | none ↦ count_loop l seen
    | some (key, platform) ↦ count_loop l (Dict.put seen (key ++ 0 ∷ platform) tt)
  ]

  unfoldable pub count_all : Dict Text B → ℕ
  unfolding count_loop
  count_all b = Dict.size (count_loop b.entries Dict.empty)

-- What DevicesByKey has collected.
pub record Found : Type 0 where
  pub infos : List DeviceInfo
  pub seen : List Text

abbrev pub nothing_found : Found
nothing_found = record { infos = []; seen = [] }

abbrev pub found_also : Text → DeviceInfo → Found → Found
found_also platform info found = record {
  infos = found.infos ++ info ∷ [];
  seen = platform ∷ found.seen;
}

unfoldable pub unless_empty : Found → Option (List DeviceInfo)
unless_empty found = elim found.infos [ [] ↦ none | info ∷ infos ↦ some (info ∷ infos) ]

module _ {B : Type 0} (codec : Codec B) where
  -- One round of the loop over the platforms.
  unfoldable pub add_platform : Text → Dict Text B → Text → Found → Option Found
  add_platform key b platform found = elim (Dict.get b (info_storage_key key platform)) [
    | none ↦ some found
    | some bs ↦ elim (codec.unmarshal bs) [
      | none ↦ none
      | some info ↦ some (found_also platform info found)
    ]
  ]

  -- The record from before the platforms, unless its platform is there already.
  unfoldable pub add_legacy : Text → Dict Text B → Found → Found
  add_legacy key b found = elim (Dict.get b (legacy_key key)) [
    | none ↦ found
    | some bs ↦ elim (codec.unmarshal bs) [
      | none ↦ found
      | some old ↦
          let info : DeviceInfo = record old { key = key; platform = or_ios old.platform } in
          if is_member info.platform found.seen then found else found_also info.platform info found
    ]
  ]

  -- The bare token, if there is no record of "ios".
  unfoldable pub add_bare : Text → Dict Text B → Found → Option Found
  add_bare key b found = if is_member ios found.seen then some found else elim (Dict.get b key) [
    | none ↦ some found
    | some bs ↦
        if codec.text bs == []
        then none
        else some
            (found_also ios (record { key = key; token = codec.text bs; platform = ios }) found)
  ]

  unfoldable pub devices_by_key : Text → Dict Text B → Option (List DeviceInfo)
  unfolding add_platform add_legacy add_bare unless_empty
  devices_by_key key b = do
    first ← add_platform key b ios nothing_found
    second ← add_platform key b harmony first
    third ← add_bare key b (add_legacy key b second)
    unless_empty third

  unfoldable pub device_info_by_key : Text → Dict Text B → Option DeviceInfo
  unfolding devices_by_key
  device_info_by_key key b = preferred (devices_by_key key b)

  -- A token under a name, if there is a record with one.
  token_under : Text → Dict Text B → Option Text
  token_under name b = elim (Dict.get b name) [
    | none ↦ none
    | some bs ↦ elim (codec.unmarshal bs) [
      | none ↦ none
      | some info ↦ if info.token == [] then none else some info.token
    ]
  ]

  bare_token : Text → Dict Text B → Option Text
  bare_token key b = elim (Dict.get b key) [
    | none ↦ none
    | some bs ↦ if codec.text bs == [] then none else some (codec.text bs)
  ]

  unfoldable pub device_token_by_key : Text → Dict Text B → Option Text
  unfolding token_under bare_token
  device_token_by_key key b = elim (token_under (info_storage_key key ios) b) [
    | some token ↦ some token
    | none ↦ elim (token_under (info_storage_key key harmony) b) [
      | some token ↦ some token
      | none ↦ elim (token_under (legacy_key key) b) [
        | some token ↦ some token
        | none ↦ bare_token key b
      ]
    ]
  ]
