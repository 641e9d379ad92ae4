-- ===== src/Database/Bbolt/Sound.antt =====
-- database/bbolt.go: what SaveDeviceInfo writes keeps the bucket sound.
use timelynotify_server.Base.{
  Bool, true, false, ◌&&◌, some, Text, text_key, if◌then◌else◌, ◌==◌, ◌≡◌, arith, Bool-cases,
  Option-cases, inl, inr,
}
use timelynotify_server.Base.Strings.{text_eq_iff}
use timelynotify_server.Base.Dict
use timelynotify_server.Base.Dict.{Dict, get-put, get-del, get-empty, dict_laws}
use timelynotify_server.Database.{DeviceInfo, ios}
use timelynotify_server.Database.Slots.{
  info_storage_key, legacy_key, is_plain, info-info, legacy-info, info-bare, bare-info, legacy-bare,
}
use timelynotify_server.Database.Bbolt.{Codec, bucket_put, put_bare, save_record}
use timelynotify_server.Database.Bbolt.Keeps.{get-save_record, bucket_put-some}
use timelynotify_server.Database.Bbolt.Devices.{IsSound}

pub empty-IsSound : {B : Type 0} (codec : Codec B) → IsSound codec Dict.empty
empty-IsSound {B} codec = record {
  matches = λ key platform v plain h.
      absurd (ground (arith, h, get-empty {V = B} (info_storage_key key platform)));
  bare = λ key v plain h. absurd (ground (arith, h, get-empty {V = B} key));
}

module _ {B : Type 0} (codec : Codec B) (accepts : Text → B → Bool) (info : DeviceInfo)
    (b b' : Dict Text B) (saved : save_record codec accepts info b ≡ some b')
    (plain : is_plain info.key ≡ true) where
  -- A save on another platform than "ios" leaves the bare token alone.
  get_bare-other :
      (key : Text)
      → is_plain key ≡ true
      → (info.platform == ios) ≡ false
      → Dict.get b' key ≡ Dict.get b key
  unfolding save_record put_bare
  get_bare-other key hk other =
      let slot = info_storage_key info.key info.platform in
      elim (Option-cases (bucket_put codec accepts slot (codec.marshal info) b)) [
        | inl e ↦ absurd (ground (arith, e, saved))
        | inr (written, e) ↦ ground (
          arith,
          e,
          saved,
          other,
          get-del written (legacy_key info.key) key,
          legacy-bare info.key key info.platform ios plain hk,
          bucket_put-some codec accepts slot (codec.marshal info) b written e,
          get-put b slot key (codec.marshal info),
          info-bare info.key key info.platform ios plain hk,
        )
      ]

  get_slot :
      (key platform : Text)
      → is_plain key ≡ true
      → Dict.get b' (info_storage_key key platform) ≡ (
          if (info.key == key) && (info.platform == platform)
          then some (codec.marshal info)
          else Dict.get b (info_storage_key key platform))
  get_slot key platform hk = ground (
    arith,
    get-save_record codec accepts info b b' (info_storage_key key platform) saved
        (bare-info info.key key info.platform platform plain hk)
        (legacy-info info.key key info.platform platform plain hk),
    info-info info.key key info.platform platform plain hk,
  )

  get_bare-elsewhere :
      (key : Text)
      → is_plain key ≡ true
      → (info.key == key) ≡ false
      → Dict.get b' key ≡ Dict.get b key
  get_bare-elsewhere key hk other = ground (
    arith,
    get-save_record codec accepts info b b' key saved other
        (legacy-bare info.key key info.platform ios plain hk),
    info-bare info.key key info.platform ios plain hk,
  )

  -- SaveDeviceInfo keeps the bucket sound.
  pub save_record-IsSound : IsSound codec b → IsSound codec b'
  save_record-IsSound sound = record {
    matches = λ key platform v hk h.
        elim (Bool-cases ((info.key == key) && (info.platform == platform))) [
          | inl own ↦ (
            info,
            ground (arith, own, h, get_slot key platform hk, codec.unmarshal-marshal info),
            ground (arith, own, text_eq_iff info.platform platform),
          )
          | inr other ↦
              sound.matches key platform v hk (ground (arith, other, h, get_slot key platform hk))
        ];
    bare = λ key v hk h. elim (Bool-cases (info.key == key)) [
      | inr other ↦ ground (
        arith,
        other,
        get_slot key ios hk,
        sound.bare key v hk (ground (arith, h, get_bare-elsewhere key hk other)),
      )
      | inl own ↦ elim (Bool-cases (info.platform == ios)) [
        | inl phone ↦ ground (arith, own, phone, get_slot key ios hk)
        | inr apart ↦ ground (
          arith,
          apart,
          get_slot key ios hk,
          sound.bare key v hk (ground (arith, h, get_bare-other key hk apart)),
        )
      ]
    ];
  }
