-- ===== src/Database/Bbolt/Keeps.antt =====
-- database/bbolt.go: the operations against a registry of (key, platform) pairs.
use timelynotify_server.Base.{
  Bool, true, false, ◌&&◌, ◌||◌, [], Option, none, some, Text, text_key, if◌then◌else◌, ◌==◌, ◌≡◌,
  arith, ◌>>=◌, Bool-cases, Option-cases, inl, inr,
}
use timelynotify_server.Base.Dict
use timelynotify_server.Base.Dict.{Dict, get-put, get-del, get-empty, dict_laws}
use timelynotify_server.Database.{DeviceInfo, ios, harmony, or_ios}
use timelynotify_server.Database.Slots.{
  info_storage_key, legacy_key, is_plain, info-info, legacy-info, bare-info,
}
use timelynotify_server.Database.Bbolt.{
  Codec, bucket_put, put_bare, clear_bare, save_record, completed, save_device_info, clear_record,
  clear_slot, delete_device_by_key, clear_device_token_by_key_and_platform,
}

module _ {B : Type 0} (codec : Codec B) where
  -- The registration of a key on a platform.
  unfoldable pub registered : Dict Text B → Text → Text → Option DeviceInfo
  registered b key platform = Dict.get b (info_storage_key key platform) >>= codec.unmarshal

module _ {B : Type 0} (codec : Codec B) (accepts : Text → B → Bool) where
  get_bare :
      (info : DeviceInfo) (b b' : Dict Text B) (name : Text)
      → put_bare codec accepts info b ≡ some b'
      → (info.key == name) ≡ false
      → Dict.get b' name ≡ Dict.get b name
  unfolding put_bare bucket_put
  get_bare info b b' name h k =
      ground (arith, h, k, get-put b info.key name (codec.bytes info.token))

  pub bucket_put-some :
      (name : Text) (v : B) (b b' : Dict Text B)
      → bucket_put codec accepts name v b ≡ some b'
      → b' ≡ Dict.put b name v
  unfolding bucket_put
  bucket_put-some name v b b' h = ground (arith, h)

  -- What a save leaves under a name other than the bare and the old one.
  pub get-save_record :
      (info : DeviceInfo) (b b' : Dict Text B) (name : Text)
      → save_record codec accepts info b ≡ some b'
      → (info.key == name) ≡ false
      → (legacy_key info.key == name) ≡ false
      → Dict.get b' name ≡ (
          if info_storage_key info.key info.platform == name
          then some (codec.marshal info)
          else Dict.get b name)
  unfolding save_record
  get-save_record info b b' name h k l =
      let slot = info_storage_key info.key info.platform in
      elim (Option-cases (bucket_put codec accepts slot (codec.marshal info) b)) [
        | inl e ↦ absurd (ground (arith, e, h))
        | inr (written, e) ↦
            let rest : put_bare codec accepts info (Dict.del written (legacy_key info.key))
                ≡ some b' =
              ground (arith, e, h) in
            ground (
              arith,
              get_bare info (Dict.del written (legacy_key info.key)) b' name rest k,
              get-del written (legacy_key info.key) name,
              l,
              bucket_put-some slot (codec.marshal info) b written e,
              get-put b slot name (codec.marshal info),
            )
      ]

  bucket_put-accepts :
      (name : Text) (v : B) (b : Dict Text B)
      → accepts name v ≡ true
      → bucket_put codec accepts name v b ≡ some (Dict.put b name v)
  unfolding bucket_put
  bucket_put-accepts name v b room = ground (arith, room)

  put_bare-some :
      (info : DeviceInfo) (b : Dict Text B)
      → ((info.platform == ios) ≡ true → accepts info.key (codec.bytes info.token) ≡ true)
      → (b' : Dict Text B) × (put_bare codec accepts info b ≡ some b')
  unfolding put_bare
  put_bare-some info b room = elim (Bool-cases (info.platform == ios)) [
    | inl phone ↦ (
      Dict.put b info.key (codec.bytes info.token),
      ground (arith, phone, bucket_put-accepts info.key (codec.bytes info.token) b (room phone)),
    )
    | inr other ↦ (b, ground (arith, other))
  ]

  -- Where bbolt accepts the record and, for iOS, the bare key, a save goes through.
  save_record-some :
      (info : DeviceInfo) (b : Dict Text B)
      → accepts (info_storage_key info.key info.platform) (codec.marshal info) ≡ true
      → ((info.platform == ios) ≡ true → accepts info.key (codec.bytes info.token) ≡ true)
      → (b' : Dict Text B) × (save_record codec accepts info b ≡ some b')
  unfolding save_record
  save_record-some info b slot_room bare_room =
      let slot = info_storage_key info.key info.platform in
      let (b', bare) =
        put_bare-some info (Dict.del (Dict.put b slot (codec.marshal info)) (legacy_key info.key))
          bare_room in
      (b', ground (arith, bare, bucket_put-accepts slot (codec.marshal info) b slot_room))

  -- A save writes the pair of its key and platform, and no other.
  pub registered-save_record :
      (info : DeviceInfo) (b b' : Dict Text B) (j q : Text)
      → is_plain info.key ≡ true
      → is_plain j ≡ true
      → save_record codec accepts info b ≡ some b'
      → registered codec b' j q
        ≡ (if (info.key == j) && (info.platform == q) then some info else registered codec b j q)
  unfolding registered
  registered-save_record info b b' j q hk hj saved = ground (
    arith,
    get-save_record info b b' (info_storage_key j q) saved
        (bare-info info.key j info.platform q hk hj) (legacy-info info.key j info.platform q hk hj),
    info-info info.key j info.platform q hk hj,
    codec.unmarshal-marshal info,
  )

  -- SaveDeviceInfo succeeds where bbolt accepts the record under the name of the pair and, for iOS,
  -- the token under the bare key; it returns the key, and then that key holds the new record on its
  -- platform, and every other pair of a key without a colon holds what it held. The key that is saved
  -- has no colon.
  pub save_device_info_lem :
      (fresh : Text) (info : DeviceInfo) (b : Dict Text B)
      → is_plain (completed fresh info).key ≡ true
      → accepts
          (info_storage_key (completed fresh info).key (or_ios info.platform))
          (codec.marshal (completed fresh info))
        ≡ true
      → ((or_ios info.platform == ios) ≡ true
          → accepts (completed fresh info).key (codec.bytes info.token) ≡ true)
      → (b' : Dict Text B) × (save_device_info codec accepts fresh info b
          ≡ some ((completed fresh info).key, b'))
        × ((j q : Text)
            → is_plain j ≡ true
            → registered codec b' j q ≡ (
                if ((completed fresh info).key == j) && (or_ios info.platform == q)
                then some (completed fresh info)
                else registered codec b j q))
  unfolding save_device_info completed
  save_device_info_lem fresh info b plain slot_room bare_room =
      let full = completed fresh info in
      let (b', saved) = save_record-some full b slot_room bare_room in
      (b', ground (arith, saved), λ j q hj. registered-save_record full b b' j q plain hj saved)

  get-clear_bare :
      (key platform : Text) (b : Dict Text B) (name : Text)
      → (key == name) ≡ false
      → Dict.get (clear_bare codec accepts key platform b) name ≡ Dict.get b name
  unfolding clear_bare bucket_put
  get-clear_bare key platform b name k = ground (arith, k, get-put b key name (codec.bytes []))

  stored_of_registered :
      (b : Dict Text B) (key platform : Text) (info : DeviceInfo)
      → registered codec b key platform ≡ some info
      → (v : B) × (Dict.get b (info_storage_key key platform) ≡ some v)
        × (codec.unmarshal v ≡ some info)
  unfolding registered
  stored_of_registered b key platform info h =
      elim (Option-cases (Dict.get b (info_storage_key key platform))) [
        | inl e ↦ absurd (ground (arith, e, h))
        | inr (v, e) ↦ (v, e, ground (arith, e, h))
      ]

  -- Where bbolt accepts the record without its token under the name of the pair,
  -- ClearDeviceTokenByKeyAndPlatform succeeds: it empties the token of a registered pair of a key
  -- without a colon, and leaves every other such pair as it was.
  pub clear_device_token_lem :
      (key platform : Text) (info : DeviceInfo) (b : Dict Text B)
      → is_plain key ≡ true
      → accepts
          (info_storage_key key (or_ios platform))
          (codec.marshal (record info { token = [] }))
        ≡ true
      → registered codec b key (or_ios platform) ≡ some info
      → (b' : Dict Text B) × (clear_device_token_by_key_and_platform codec accepts key platform b
          ≡ some b')
        × ((j q : Text)
            → is_plain j ≡ true
            → registered codec b' j q ≡ (
                if (key == j) && (or_ios platform == q)
                then some (record info { token = [] })
                else registered codec b j q))
  unfolding clear_device_token_by_key_and_platform clear_slot clear_record registered
  clear_device_token_lem key platform info b plain room known =
      let p = or_ios platform in
      let slot = info_storage_key key p in
      let cleared : DeviceInfo = record info { token = [] } in
      let written = Dict.put b slot (codec.marshal cleared) in
      let (v, stored, read) = stored_of_registered b key p info known in
      let put = bucket_put-accepts slot (codec.marshal cleared) b room in
      (
        clear_bare codec accepts key p written,
        ground (arith, stored, read, put),
        λ j q hj. ground (
          arith,
          get-clear_bare key p written (info_storage_key j q) (bare-info key j p q plain hj),
          get-put b slot (info_storage_key j q) (codec.marshal cleared),
          info-info key j p q plain hj,
          codec.unmarshal-marshal cleared,
        ),
      )

module _ {B : Type 0} (codec : Codec B) where
  -- DeleteDeviceByKey drops the registrations of the key on both platforms, and no other.
  pub registered-delete_device_by_key :
      (key j q : Text) (b : Dict Text B)
      → is_plain key ≡ true
      → is_plain j ≡ true
      → registered codec (delete_device_by_key key b) j q
        ≡ (if (key == j) && ((ios == q) || (harmony == q)) then none else registered codec b j q)
  unfolding registered delete_device_by_key
  registered-delete_device_by_key key j q b plain hj =
      let name = info_storage_key j q in
      let b1 = Dict.del b (info_storage_key key ios) in
      let b2 = Dict.del b1 (info_storage_key key harmony) in
      ground (
        arith,
        get-del (Dict.del b2 (legacy_key key)) key name,
        bare-info key j ios q plain hj,
        get-del b2 (legacy_key key) name,
        legacy-info key j ios q plain hj,
        get-del b1 (info_storage_key key harmony) name,
        info-info key j harmony q plain hj,
        get-del b (info_storage_key key ios) name,
        info-info key j ios q plain hj,
      )
