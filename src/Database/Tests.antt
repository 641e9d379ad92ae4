-- ===== src/Database/Tests.antt =====
-- Concrete registrations, and the theorems at them.
use timelynotify_server.Base.{
  Bool, true, List, [], Option, none, some, Text, codes, text_key, ◌==◌, ◌≡◌, refl, inl, inr, ◌⊎◌,
  ◌&&◌, if◌then◌else◌, not, leb, length,
}
use timelynotify_server.Base.Dict
use timelynotify_server.Base.Dict.{Dict}
use timelynotify_server.Database.{DeviceInfo, ios, harmony, device_on}
use timelynotify_server.Database.Slots.{info_storage_key, parse_info_key, is_plain}
use timelynotify_server.Database.RoundTrip.{parse_info_key-storage}
use timelynotify_server.Database.Bbolt.{
  Codec, completed, save_record, save_device_info, clear_device_token_by_key_and_platform,
  devices_by_key,
}
use timelynotify_server.Database.Bbolt.Keeps.{
  registered, save_device_info_lem, clear_device_token_lem,
}
use timelynotify_server.Database.Bbolt.Devices.{IsSound, devices_by_key-registered}
use timelynotify_server.Database.Bbolt.Sound.{empty-IsSound, save_record-IsSound}
use timelynotify_server.Database.MemBase.{Cache, cache_key}

-- Bytes as what was encoded.
abbrev Bytes : Type 0
Bytes = DeviceInfo ⊎ Text

read : Bytes → Option DeviceInfo
read (inl info) = some info
read (inr t) = none

spell : Bytes → Text
spell (inl info) = info.token
spell (inr t) = t

abbrev codec : Codec Bytes
unfolding read
codec = record {
  marshal = λ info. inl info;
  unmarshal = read;
  bytes = λ t. inr t;
  text = spell;
  unmarshal-marshal = λ info. refl;
}

-- The checks that the documentation of Bucket.Put names: no blank key, and none above 32,768 bytes.
accepts : Text → Bytes → Bool
accepts name v = not (name == []) && leb (length name) 32768

abbrev phone : DeviceInfo
phone = record { key = codes "k1"; token = codes "apns"; platform = ios }

abbrev tablet : DeviceInfo
tablet = record { key = codes "k1"; token = codes "hms"; platform = harmony }

abbrev one : Dict Text Bytes
one =
    Dict.put (Dict.put Dict.empty (info_storage_key (codes "k1") ios) (inl phone)) (codes "k1")
      (inr (codes "apns"))

saved_once : save_record codec accepts phone Dict.empty ≡ some one
unfolding save_record codec accepts Dict.put Dict.del info_storage_key
saved_once = refl

save_device_info_lem_example :
    (b' : Dict Text Bytes) × (save_device_info codec accepts (codes "fresh") tablet one
      ≡ some (codes "k1", b'))
    × ((j q : Text)
        → is_plain j ≡ true
        → registered codec b' j q
          ≡ (if (codes "k1" == j) && (harmony == q) then some tablet else registered codec one j q))
unfolding completed accepts info_storage_key
save_device_info_lem_example =
    save_device_info_lem codec accepts (codes "fresh") tablet one refl refl (λ phone. cc)

known : registered codec one (codes "k1") ios ≡ some phone
unfolding registered codec Dict.put Dict.get info_storage_key
known = refl

clear_device_token_lem_example :
    (b' : Dict Text Bytes) × (clear_device_token_by_key_and_platform codec accepts
        (codes "k1")
        []
        one
      ≡ some b')
    × ((j q : Text)
        → is_plain j ≡ true
        → registered codec b' j q ≡ (
            if (codes "k1" == j) && (ios == q)
            then some (record phone { token = [] })
            else registered codec one j q))
unfolding accepts info_storage_key
clear_device_token_lem_example =
    clear_device_token_lem codec accepts (codes "k1") [] phone one refl refl known

save_record-IsSound_example : IsSound codec one
save_record-IsSound_example =
    save_record-IsSound codec accepts phone Dict.empty one saved_once refl (empty-IsSound codec)

one-IsSound : IsSound codec one
one-IsSound =
    save_record-IsSound codec accepts phone Dict.empty one saved_once refl (empty-IsSound codec)

devices_by_key-registered_example :
    (infos : List DeviceInfo) × (devices_by_key codec (codes "k1") one ≡ some infos)
    × (device_on ios infos ≡ some phone)
devices_by_key-registered_example =
    devices_by_key-registered codec one (codes "k1") one-IsSound refl ios phone (inl refl) known

parse_info_key-storage_example :
    parse_info_key (info_storage_key (codes "k:1") harmony) ≡ some (codes "k:1", harmony)
parse_info_key-storage_example = parse_info_key-storage (codes "k:1") harmony (inr refl)

abbrev cached : Cache
cached = Dict.put Dict.empty ios (record { key = cache_key; token = codes "apns"; platform = ios })
