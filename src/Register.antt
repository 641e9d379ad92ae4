-- ===== src/Register.antt =====
-- route_register.go: the registration of a device, behind the parsing of the request.
mod Tests
use mathlib.Core.Sum.{inr-injective}
use timelynotify_server.Base.{
  ℕ, ◌≤◌, String, Bool, true, false, ◌&&◌, ◌||◌, not, List, [], ◌∷◌, Option, none, some, Text,
  codes, text_key, ltb, if◌then◌else◌, length, ◌==◌, ◌≡◌, ◌⊎◌, refl, sym, arith, Bool-cases,
  Option-cases, inl, inr, ==_refl,
}
use timelynotify_server.Base.Strings.{text_eq_iff}
use timelynotify_server.Base.Dict.{Dict}
use timelynotify_server.Database.{DeviceInfo, ios, harmony, or_ios, device_on}
use timelynotify_server.Database.Slots.{is_plain}
use timelynotify_server.Database.Bbolt.{
  Codec, completed, save_record, save_device_info, devices_by_key,
}
use timelynotify_server.Database.Bbolt.Keeps.{registered, registered-save_record}
use timelynotify_server.Database.Bbolt.Devices.{IsSound, devices_by_key-registered}
use timelynotify_server.Database.Bbolt.Sound.{save_record-IsSound}

-- The parameters of the request.
pub record Request : Type 0 where
  pub device_key : Text
  pub device_token : Text
  pub old_device_key : Text
  pub old_device_token : Text
  pub platform : Text

pub data Refusal : Type 0 where
  token_is_empty token_is_invalid platform_is_invalid : Refusal

abbrev pub or_else : Text → Text → Text
or_else t u = if t == [] then u else t

-- What doRegister passes on to the registry, or the reply 400. The length is that of the bytes, one
-- for a character of a token.
unfoldable pub checked : Request → Refusal ⊎ DeviceInfo
checked r =
    let token = or_else r.device_token r.old_device_token in
    if token == []
    then inl token_is_empty
    else if ltb 160 (length token)
    then inl token_is_invalid
    else if not (r.platform == []) && not (r.platform == ios) && not (r.platform == harmony)
    then inl platform_is_invalid
    else inr (record {
      key = or_else r.device_key r.old_device_key;
      token = token;
      platform = or_ios r.platform;
    })

-- The reply of doRegister: 400, 500, or the data of 200.
pub data Reply : Type 0 where
  refused : Refusal → Reply
  save_failed : Reply
  registered_as : Text → DeviceInfo → Reply

-- `save` is SaveDeviceInfo of the registry.
module _ {S : Type 0} (save : DeviceInfo → S → Option (Text × S)) where
  unfoldable pub do_register : Request → S → Reply × S
  unfolding checked
  do_register r s = elim (checked r) [
    | inl refusal ↦ (refused refusal, s)
    | inr info ↦ elim (save info s) [
      | none ↦ (save_failed, s)
      | some (key, s') ↦ (registered_as key info, s')
    ]
  ]

or_ios-known :
    (p : Text)
    → (not (p == []) && not (p == ios) && not (p == harmony)) ≡ false
    → (or_ios p ≡ ios) ⊎ (or_ios p ≡ harmony)
or_ios-known p h = elim (Bool-cases (p == [])) [
  | inl empty ↦ inl (ground (arith, empty))
  | inr given ↦ elim (Bool-cases (p == ios)) [
    | inl phone ↦ inl (ground (arith, given, phone, text_eq_iff p ios))
    | inr other ↦ inr (ground (arith, h, given, other, text_eq_iff p harmony))
  ]
]

-- Only a record with a token of 1 to 160 characters and one of the two platforms gets through.
checked-valid :
    (r : Request) (info : DeviceInfo)
    → checked r ≡ inr info
    → ((info.token == []) ≡ false)
      × (length info.token ≤ 160)
      × ((info.platform ≡ ios) ⊎ (info.platform ≡ harmony))
unfolding checked
checked-valid r info h =
    let token = or_else r.device_token r.old_device_token in
    elim (Bool-cases (token == [])) [
      | inl empty ↦ absurd (ground (arith, h, empty))
      | inr given ↦ elim (Bool-cases (ltb 160 (length token))) [
        | inl long ↦ absurd (ground (arith, h, given, long))
        | inr short ↦
            elim (Bool-cases
              (not (r.platform == []) && not (r.platform == ios) && not (r.platform == harmony))) [
                | inl unknown ↦ absurd (ground (arith, h, given, short, unknown))
                | inr fine ↦
                    let full : DeviceInfo = record {
                      key = or_else r.device_key r.old_device_key;
                      token = token;
                      platform = or_ios r.platform;
                    } in
                    let same : full ≡ info =
                      inr-injective full info (rw (given, short, fine) at h) in
                    rw (sym same) (given, ground (arith, short), or_ios-known r.platform fine)
              ]
      ]
    ]

either :
    (x : Refusal ⊎ DeviceInfo)
    → ((refusal : Refusal) × (x ≡ inl refusal)) ⊎ ((info : DeviceInfo) × (x ≡ inr info))
either (inl refusal) = inl (refusal, refl)
either (inr info) = inr (info, refl)

module _ {B : Type 0} (codec : Codec B) (accepts : Text → B → Bool) (fresh : Text) where
  -- What a reply 200 says of the bucket.
  register-save :
      (r : Request) (b b' : Dict Text B) (key : Text) (info : DeviceInfo)
      → do_register (save_device_info codec accepts fresh) r b ≡ (registered_as key info, b')
      → (checked r ≡ inr info)
        × (save_record codec accepts (completed fresh info) b ≡ some b')
        × (key ≡ (completed fresh info).key)
  unfolding do_register save_device_info
  register-save r b b' key info h = elim (either (checked r)) [
    | inl (refusal, e) ↦ absurd (ground (arith, h, e))
    | inr (known, e) ↦ elim (Option-cases (save_record codec accepts (completed fresh known) b)) [
      | inl f ↦ absurd (ground (arith, h, e, f))
      | inr (c, f) ↦ (ground (arith, h, e, f), ground (arith, h, e, f), ground (arith, h, e, f))
    ]
  ]

  completed-platform :
      (info : DeviceInfo)
      → (info.platform ≡ ios) ⊎ (info.platform ≡ harmony)
      → (completed fresh info).platform ≡ info.platform
  unfolding completed
  completed-platform info (inl e) = rw e refl
  completed-platform info (inr e) = rw e refl

  -- A device that doRegister has accepted over a sound bucket is found: DevicesByKey of the key in the
  -- reply lists the record on its platform, its token has 1 to 160 characters, and the bucket stays
  -- sound. This is for a key without a colon.
  pub do_register-devices_by_key :
      (r : Request) (b b' : Dict Text B) (key : Text) (info : DeviceInfo)
      → do_register (save_device_info codec accepts fresh) r b ≡ (registered_as key info, b')
      → is_plain key ≡ true
      → IsSound codec b
      → IsSound codec b'
        × ((info.token == []) ≡ false)
        × (length info.token ≤ 160)
        × ((infos : List DeviceInfo) × (devices_by_key codec key b' ≡ some infos)
            × (device_on info.platform infos ≡ some (completed fresh info)))
  do_register-devices_by_key r b b' key info h plain sound =
      let (known, saved, same) = register-save r b b' key info h in
      let valid = checked-valid r info known in
      let full = completed fresh info in
      let p = completed-platform info valid.2 in
      let plain' : is_plain full.key ≡ true = rw same at plain in
      let sound' = save_record-IsSound codec accepts full b b' saved plain' sound in
      let there =
        registered-save_record codec accepts full b b' key info.platform plain' plain saved in
      let stored : registered codec b' key info.platform ≡ some full =
        ground (arith, there, same, p, ==_refl key, ==_refl info.platform) in
      (
        sound',
        valid.0,
        valid.1,
        devices_by_key-registered codec b' key sound' plain info.platform full valid.2 stored,
      )
