-- ===== src/Database/EnvBase.antt =====
-- database/envbase.go: the one device that the environment configures. `env_key` and `env_token`
-- are BARK_KEY and BARK_DEVICE_TOKEN.
use timelynotify_server.Base.{
  ℕ, List, [], ◌∷◌, Option, none, some, Text, text_key, if◌then◌else◌, ◌==◌, ◌≡◌, arith,
}
use timelynotify_server.Base.Strings.{text_eq_iff}
use timelynotify_server.Database.{DeviceInfo, ios, preferred}

module _ (env_key env_token : Text) where
  unfoldable pub count_all : ℕ
  count_all = if env_key == [] then 0 else 1

  unfoldable pub device_token_by_key : Text → Option Text
  device_token_by_key key = if key == env_key then some env_token else none

  unfoldable pub devices_by_key : Text → Option (List DeviceInfo)
  devices_by_key key =
      if key == env_key
      then some (record { key = key; token = env_token; platform = ios } ∷ [])
      else none

  unfoldable pub device_info_by_key : Text → Option DeviceInfo
  unfolding devices_by_key
  device_info_by_key key = preferred (devices_by_key key)

  unfoldable pub save_device_info : DeviceInfo → Option Text
  save_device_info info = if info.token == env_token then some env_key else none

  unfoldable pub save_device_token_by_key : Text → Text → Option Text
  unfolding save_device_info
  save_device_token_by_key key token =
      save_device_info (record { key = key; token = token; platform = ios })

  -- What a save returns is the one key that the reads know, and they return the saved token.
  pub save-devices_by_key :
      (info : DeviceInfo) (key : Text)
      → save_device_info info ≡ some key
      → (devices_by_key key ≡ some (record { key = key; token = info.token; platform = ios } ∷ []))
        × (device_token_by_key key ≡ some info.token)
  unfolding save_device_info devices_by_key device_token_by_key
  save-devices_by_key info key saved = (
    ground (arith, saved, text_eq_iff info.token env_token, text_eq_iff key env_key),
    ground (arith, saved, text_eq_iff info.token env_token, text_eq_iff key env_key),
  )
