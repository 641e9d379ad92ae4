-- ===== src/PushPolicy/Tests.antt =====
-- Concrete pushes, and the theorems at them.
use timelynotify_server.Base.{true, ◌≡◌, refl, codes, string_key}
use timelynotify_server.Base.Dict
use timelynotify_server.Gotify.Value.{Value, Extras, sprint}
use timelynotify_server.Base.Strings.{equal_fold, trim_space}
use timelynotify_server.PushPolicy.{
  lookup_fold, is_enabled, should_publish_history, harmony_image_url,
}

abbrev secret : Extras
secret =
    Dict.put (Dict.put Dict.empty "isArchive" (Value.str "0")) "ciphertext" (Value.str "encrypted")

kept_for_harmony : should_publish_history secret true ≡ true
unfolding should_publish_history Dict.put lookup_fold equal_fold is_enabled trim_space sprint
kept_for_harmony = refl

quoted_icon :
    harmony_image_url (Dict.put Dict.empty "icon" (Value.str " `https://e.com/i.png` "))
    ≡ codes "https://e.com/i.png"
unfolding harmony_image_url Dict.put lookup_fold equal_fold trim_space
quoted_icon = refl
