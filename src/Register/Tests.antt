-- ===== src/Register/Tests.antt =====
-- A registration over an empty bucket, and the theorem at it.
use timelynotify_server.Base.{
  ◌≤◌, Bool, true, false, List, [], Option, none, some, Text, codes, text_key, ◌==◌, ◌≡◌, refl, inl,
  inr, ◌⊎◌, length,
}
use timelynotify_server.Base.Dict
use timelynotify_server.Base.Dict.{Dict}
use timelynotify_server.Database.{DeviceInfo, harmony, device_on}
use timelynotify_server.Database.Slots.{info_storage_key}
use timelynotify_server.Database.Bbolt.{Codec, completed, save_device_info, devices_by_key}
use timelynotify_server.Database.Bbolt.Devices.{IsSound}
use timelynotify_server.Database.Bbolt.Sound.{empty-IsSound}
use timelynotify_server.Register.{Request, do_register, registered_as, do_register-devices_by_key}

-- Bytes as what was encoded.
abbrev Bytes : Type 0
Bytes = DeviceInfo ⊎ Text

read_back : Bytes → Option DeviceInfo
read_back (inl info) = some info
read_back (inr t) = none

spelled : Bytes → Text
spelled (inl info) = info.token
spelled (inr t) = t

abbrev codec : Codec Bytes
unfolding read_back
codec = record {
  marshal = λ info. inl info;
  unmarshal = read_back;
  bytes = λ t. inr t;
  text = spelled;
  unmarshal-marshal = λ info. refl;
}

accepts : Text → Bytes → Bool
accepts name v = true

abbrev request : Request
request = record {
  device_key = [];
  device_token = codes "hms";
  old_device_key = [];
  old_device_token = [];
  platform = harmony;
}

abbrev tablet : DeviceInfo
tablet = record { key = []; token = codes "hms"; platform = harmony }

abbrev after : Dict Text Bytes
after =
    Dict.put Dict.empty (info_storage_key (codes "fresh") harmony)
      (inl (record tablet { key = codes "fresh" }))

replied :
    do_register (save_device_info codec accepts (codes "fresh")) request Dict.empty
    ≡ (registered_as (codes "fresh") tablet, after)
unfolding do_register save_device_info codec accepts Dict.put Dict.del info_storage_key
replied = refl

do_register-devices_by_key_example :
    IsSound codec after
    × ((codes "hms" == []) ≡ false)
    × (length (codes "hms") ≤ 160)
    × ((infos : List DeviceInfo) × (devices_by_key codec (codes "fresh") after ≡ some infos)
        × (device_on harmony infos ≡ some (completed (codes "fresh") tablet)))
do_register-devices_by_key_example =
    do_register-devices_by_key codec accepts (codes "fresh") request Dict.empty after
      (codes "fresh") tablet replied refl (empty-IsSound codec)
