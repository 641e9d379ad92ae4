-- ===== src/Database/MemBase.antt =====
-- database/membase.go: one device key in memory. The state is the package's map from platforms to
-- records; a failed call returns none and leaves it as it is.
use timelynotify_server.Base.{
  ℕ, Bool, true, false, ◌&&◌, not, List, [], ◌∷◌, Option, none, some, Text, codes, text_key,
  if◌then◌else◌, ◌==◌, ◌≡◌, refl, arith, Option-cases, inl, inr, is_some,
}
use timelynotify_server.Base.Strings.{text_eq_iff}
use timelynotify_server.Base.Dict
use timelynotify_server.Base.Dict.{Dict, get-put, get-empty}
use timelynotify_server.Database.{DeviceInfo, ios, or_ios, preferred}

abbrev pub cache_key : Text
cache_key = codes "MemoryBaseKey"

abbrev pub Cache : Type 0
Cache = Dict Text DeviceInfo

-- key != "" && key != cacheKey
abbrev pub is_foreign : Text → Bool
is_foreign key = not (key == []) && not (key == cache_key)

abbrev pub count_all : Cache → ℕ
count_all c = Dict.size c

first_token : List (Text × DeviceInfo) → Option Text
first_token [] = none
first_token ((platform, info) ∷ l) =
    let rest = first_token l in if info.token == [] then rest else some info.token

ios_token : Cache → Option Text
ios_token c = elim (Dict.get c ios) [
  | none ↦ none
  | some info ↦ if info.token == [] then none else some info.token
]

unfoldable pub device_token_by_key : Text → Cache → Option Text
unfolding first_token ios_token
device_token_by_key key c =
    if is_foreign key
    then none
    else elim (ios_token c) [ some token ↦ some token | none ↦ first_token c.entries ]

-- The records of the other platforms.
unfoldable pub others : List (Text × DeviceInfo) → List DeviceInfo
others [] = []
others ((platform, info) ∷ l) = let rest = others l in if platform == ios then rest else info ∷ rest

listed : Cache → List DeviceInfo
unfolding others
listed c = elim (Dict.get c ios) [ none ↦ others c.entries | some info ↦ info ∷ others c.entries ]

unfoldable pub devices_by_key : Text → Cache → Option (List DeviceInfo)
unfolding listed
devices_by_key key c =
    if is_foreign key then none else elim c.entries [ [] ↦ none | _ ∷ _ ↦ some (listed c) ]

unfoldable pub device_info_by_key : Text → Cache → Option DeviceInfo
unfolding devices_by_key
device_info_by_key key c = preferred (devices_by_key key c)

-- The platform and the key, where they are left out.
unfoldable pub filled : DeviceInfo → DeviceInfo
filled info = record info {
  platform = or_ios info.platform;
  key = if info.key == [] then cache_key else info.key;
}

unfoldable pub save_device_info : DeviceInfo → Cache → Option (Text × Cache)
unfolding filled
save_device_info info c =
    let full = filled info in
    if full.key == cache_key then some (full.key, Dict.put c full.platform full) else none

unfoldable pub save_device_token_by_key : Text → Text → Cache → Option (Text × Cache)
unfolding save_device_info
save_device_token_by_key key token c =
    save_device_info (record { key = key; token = token; platform = ios }) c

unfoldable pub clear_device_token_by_key_and_platform : Text → Text → Cache → Option Cache
clear_device_token_by_key_and_platform key platform c =
    let p = or_ios platform in
    if is_foreign key then none else elim (Dict.get c p) [
      | none ↦ some c
      | some info ↦ some (Dict.put c p (record info { token = [] }))
    ]

unfoldable pub delete_device_by_key : Text → Cache → Option Cache
delete_device_by_key key c = if is_foreign key then none else some Dict.empty

-- SaveDeviceInfo accepts the one key of the cache, given or left out; it writes the record under its
-- platform and leaves the other platforms alone.
pub put_on_platform_lem :
    (info : DeviceInfo) (c : Cache) (platform : Text)
    → is_foreign info.key ≡ false
    → (c' : Cache) × (save_device_info info c ≡ some (cache_key, c'))
      × (Dict.get c' platform
          ≡ (if or_ios info.platform == platform then some (filled info) else Dict.get c platform))
unfolding save_device_info filled
put_on_platform_lem info c platform own = (
  Dict.put c (or_ios info.platform) (filled info),
  ground (arith, own, text_eq_iff info.key cache_key, text_eq_iff info.key []),
  get-put c (or_ios info.platform) platform (filled info),
)

-- A foreign key is refused by every operation that takes a key.
pub foreign_key_lem :
    (key token platform : Text) (c : Cache)
    → is_foreign key ≡ true
    → (devices_by_key key c ≡ none)
      × (device_token_by_key key c ≡ none)
      × (save_device_info (record { key = key; token = token; platform = platform }) c ≡ none)
      × (clear_device_token_by_key_and_platform key platform c ≡ none)
      × (delete_device_by_key key c ≡ none)
unfolding devices_by_key device_token_by_key save_device_info filled
    clear_device_token_by_key_and_platform delete_device_by_key
foreign_key_lem key token platform c foreign = (
  ground (arith, foreign),
  ground (arith, foreign),
  ground (arith, foreign),
  ground (arith, foreign),
  ground (arith, foreign),
)

-- ClearDeviceTokenByKeyAndPlatform empties the token of the platform that it is given, keeps the
-- record, and leaves the other platforms alone.
pub clear_on_platform_lem :
    (key platform q : Text) (c : Cache)
    → is_foreign key ≡ false
    → (c' : Cache) × (clear_device_token_by_key_and_platform key platform c ≡ some c')
      × (is_some (Dict.get c' q) ≡ is_some (Dict.get c q))
      × ((info : DeviceInfo)
          → Dict.get c q ≡ some info
          → Dict.get c' q
            ≡ some (if or_ios platform == q then record info { token = [] } else info))
unfolding clear_device_token_by_key_and_platform
clear_on_platform_lem key platform q c own =
    let p = or_ios platform in
    elim (Option-cases (Dict.get c p)) [
      | inl e ↦ (c, ground (arith, own, e), refl, λ info h. ground (arith, h, e, text_eq_iff p q))
      | inr (old, e) ↦
          let cleared : DeviceInfo = record old { token = [] } in
          (
            Dict.put c p cleared,
            ground (arith, own, e),
            ground (arith, get-put c p q cleared, e, text_eq_iff p q),
            λ info h. ground (arith, h, e, get-put c p q cleared, text_eq_iff p q),
          )
    ]
