-- ===== src/Database/Bbolt/Devices.antt =====
-- database/bbolt.go, DevicesByKey: it finds every registration of a key.
use timelynotify_server.Base.{
  true, List, [], ◌∷◌, ◌++◌, none, some, is_some, Text, text_key, ◌≡◌, refl, arith, ◌>>=◌,
  Bool-cases, Option-cases, inl, inr, ◌⊎◌,
}
use timelynotify_server.Base.Strings.{text_eq_iff}
use timelynotify_server.Base.Dict
use timelynotify_server.Base.Dict.{Dict, get-put, get-del, get-empty, dict_laws}
use timelynotify_server.Database.{DeviceInfo, ios, harmony, or_ios, device_on}
use timelynotify_server.Database.Slots.{info_storage_key, legacy_key, is_plain}
use timelynotify_server.Database.Bbolt.{
  Codec, devices_by_key, Found, nothing_found, found_also, add_platform, add_legacy, add_bare,
  unless_empty, is_member,
}
use timelynotify_server.Database.Bbolt.Keeps.{registered}

device_on-append :
    (p : Text) (infos : List DeviceInfo) (info more : DeviceInfo)
    → device_on p infos ≡ some info
    → device_on p (infos ++ more ∷ []) ≡ some info
unfolding device_on
device_on-append p [] info more h = cc
device_on-append p (x ∷ infos) info more h = ground (arith, device_on-append p infos info more)

module _ {B : Type 0} (codec : Codec B) (b : Dict Text B) where
  -- What SaveDeviceInfo keeps of a bucket: a record tells its own platform, and a bare token comes
  -- with a record of "ios".
  pub record IsSound : Type 0 where
    pub matches :
        (key platform : Text) (v : B)
        → is_plain key ≡ true
        → Dict.get b (info_storage_key key platform) ≡ some v
        → (info : DeviceInfo) × (codec.unmarshal v ≡ some info) × (info.platform ≡ platform)
    pub bare :
        (key : Text) (v : B)
        → is_plain key ≡ true
        → Dict.get b key ≡ some v
        → is_some (Dict.get b (info_storage_key key ios)) ≡ true

module _ {B : Type 0} (codec : Codec B) (b : Dict Text B) (key : Text) where
  -- The device is among those found, and a record of "ios" is noted.
  abbrev Has : Text → DeviceInfo → Found → Type 0
  Has p info found = device_on p found.infos ≡ some info

  Has-also :
      (p q : Text) (info more : DeviceInfo) (found : Found)
      → Has p info found
      → Has p info (found_also q more found)
  Has-also p q info more found h = device_on-append p found.infos info more h

  add_legacy-cases :
      (found : Found)
      → (add_legacy codec key b found ≡ found)
        ⊎ ((q : Text) × (more : DeviceInfo) × (add_legacy codec key b found
              ≡ found_also q more found))
  unfolding add_legacy
  add_legacy-cases found = elim (Option-cases (Dict.get b (legacy_key key))) [
    | inl e ↦ inl (ground (arith, e))
    | inr (v, e) ↦ elim (Option-cases (codec.unmarshal v)) [
      | inl u ↦ inl (ground (arith, e, u))
      | inr (old, u) ↦
          let q = or_ios old.platform in
          let more : DeviceInfo = record old { key = key; platform = q } in
          elim (Bool-cases (is_member q found.seen)) [
            | inl dup ↦ inl (ground (arith, e, u, dup))
            | inr new ↦ inr (q, more, ground (arith, e, u, new))
          ]
    ]
  ]

  add_legacy-Has :
      (p : Text) (info : DeviceInfo) (found : Found)
      → Has p info found
      → Has p info (add_legacy codec key b found)
  add_legacy-Has p info found h = elim (add_legacy-cases found) [
    | inl e ↦ rw e h
    | inr (q, more, e) ↦ rw e (Has-also p q info more found h)
  ]

  add_legacy-ios :
      (found : Found)
      → is_member ios found.seen ≡ true
      → is_member ios (add_legacy codec key b found).seen ≡ true
  add_legacy-ios found m = elim (add_legacy-cases found) [
    | inl e ↦ rw e m
    | inr (q, more, e) ↦ rw e (ground (arith, m))
  ]

  unless_empty-Has :
      (p : Text) (info : DeviceInfo) (found : Found)
      → Has p info found
      → unless_empty found ≡ some found.infos
  unfolding unless_empty device_on
  unless_empty-Has p info found h =
      elim found.infos
          as (λ l.
            device_on p l ≡ some info → (elim l [ [] ↦ none | x ∷ xs ↦ some (x ∷ xs) ]) ≡ some l) [
              | [] ↦ λ k. cc
              | x ∷ xs ↦ λ k. refl
            ]
        h

  -- A step that finds the device and whose bare token comes with a record finds it in the end.
  third-Has :
      (p : Text) (info : DeviceInfo) (found : Found)
      → Has p info found
      → (is_member ios found.seen ≡ true) ⊎ (Dict.get b key ≡ none)
      → (infos : List DeviceInfo) × ((do
        third ← add_bare codec key b (add_legacy codec key b found)
        unless_empty third)
          ≡ some infos)
        × (device_on p infos ≡ some info)
  unfolding add_bare
  third-Has p info found h bare =
      let last = add_legacy codec key b found in
      let kept = add_legacy-Has p info found h in
      let full = unless_empty-Has p info last kept in
      elim bare [
        | inl seen ↦
            let still = add_legacy-ios found seen in (last.infos, ground (arith, still, full), kept)
        | inr nothing ↦ (last.infos, ground (arith, nothing, full), kept)
      ]

module _ {B : Type 0} (codec : Codec B) (b : Dict Text B) (key : Text) (sound : IsSound codec b)
    (plain : is_plain key ≡ true) where
  -- A platform without a record adds nothing, one with a record adds it.
  add_platform-cases :
      (p : Text) (found : Found)
      → (Dict.get b (info_storage_key key p) ≡ none)
          × (add_platform codec key b p found ≡ some found)
        ⊎ ((info : DeviceInfo) × (registered codec b key p ≡ some info)
            × (info.platform ≡ p)
            × (add_platform codec key b p found ≡ some (found_also p info found)))
  unfolding add_platform registered
  add_platform-cases p found = elim (Option-cases (Dict.get b (info_storage_key key p))) [
    | inl e ↦ inl (e, ground (arith, e))
    | inr (v, e) ↦
        let (info, read, own) = sound.matches key p v plain e in
        inr (info, ground (arith, e, read), own, ground (arith, e, read))
  ]

  bare-none : Dict.get b (info_storage_key key ios) ≡ none → Dict.get b key ≡ none
  bare-none e = elim (Option-cases (Dict.get b key)) [
    | inl none_there ↦ none_there
    | inr (v, there) ↦ absurd (ground (arith, e, sound.bare key v plain there))
  ]

  device_on-last :
      (p : Text) (info : DeviceInfo) → info.platform ≡ p → device_on p (info ∷ []) ≡ some info
  unfolding device_on
  device_on-last p info own = ground (arith, text_eq_iff info.platform p)

  ios-Has :
      (info : DeviceInfo)
      → registered codec b key ios ≡ some info
      → (infos : List DeviceInfo) × (devices_by_key codec key b ≡ some infos)
        × (device_on ios infos ≡ some info)
  unfolding devices_by_key registered
  ios-Has info known = elim (add_platform-cases ios nothing_found) [
    | inl (e, step) ↦ absurd (ground (arith, e, known))
    | inr (i, read, own, step) ↦
        let first = found_also ios info nothing_found in
        let start : add_platform codec key b ios nothing_found ≡ some first =
          ground (arith, step, read, known) in
        let has = device_on-last ios info (ground (arith, own, read, known)) in
        elim (add_platform-cases harmony first) [
          | inl (none_there, skip) ↦
              let (infos, done, found) = third-Has codec b key ios info first has (inl refl) in
              (infos, ground (arith, start, skip, done), found)
          | inr (other, read_other, own_other, more) ↦
              let second = found_also harmony other first in
              let (infos, done, found) =
                third-Has codec b key ios info second
                  (Has-also codec b key ios harmony info other first has) (inl refl) in
              (infos, ground (arith, start, more, done), found)
        ]
  ]

  -- Behind a step that left no device of "harmony", a registration on it is found.
  harmony-Has :
      (info : DeviceInfo) (first : Found)
      → add_platform codec key b ios nothing_found ≡ some first
      → device_on harmony (first.infos ++ info ∷ []) ≡ some info
      → (is_member ios first.seen ≡ true) ⊎ (Dict.get b key ≡ none)
      → registered codec b key harmony ≡ some info
      → (infos : List DeviceInfo) × (devices_by_key codec key b ≡ some infos)
        × (device_on harmony infos ≡ some info)
  unfolding devices_by_key registered
  harmony-Has info first start last bare known = elim (add_platform-cases harmony first) [
    | inl (e, step) ↦ absurd (ground (arith, e, known))
    | inr (i, read, own, step) ↦
        let second = found_also harmony info first in
        let next : add_platform codec key b harmony first ≡ some second =
          ground (arith, step, read, known) in
        let (infos, done, found) =
          third-Has codec b key harmony info second last
            (elim bare [ inl seen ↦ inl (ground (arith, seen)) | inr nothing ↦ inr nothing ]) in
        (infos, ground (arith, start, next, done), found)
  ]

  harmony_platform :
      (info : DeviceInfo) → registered codec b key harmony ≡ some info → info.platform ≡ harmony
  unfolding registered
  harmony_platform info known = elim (add_platform-cases harmony nothing_found) [
    | inl (e, step) ↦ absurd (ground (arith, e, known))
    | inr (i, read, own, step) ↦ ground (arith, read, known, own)
  ]

  -- DevicesByKey finds each registration of the key, on either platform.
  pub devices_by_key-registered :
      (p : Text) (info : DeviceInfo)
      → (p ≡ ios) ⊎ (p ≡ harmony)
      → registered codec b key p ≡ some info
      → (infos : List DeviceInfo) × (devices_by_key codec key b ≡ some infos)
        × (device_on p infos ≡ some info)
  unfolding device_on
  devices_by_key-registered p info (inl e) known = rw e (ios-Has info (rw e at known))
  devices_by_key-registered p info (inr e) known =
      let there = rw e at known in
      let own = harmony_platform info there in
      rw e (elim (add_platform-cases ios nothing_found) [
        | inl (e', start) ↦
            harmony-Has info nothing_found start (device_on-last harmony info own)
              (inr (bare-none e')) there
        | inr (i, read, own', start) ↦
            harmony-Has info (found_also ios i nothing_found) start
              (ground (arith, own', device_on-last harmony info own)) (inl refl) there
      ])
