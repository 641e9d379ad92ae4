-- ===== src/PushPolicy.antt =====
-- internal/pushpolicy: what is kept of a push, and what a notification may show.
mod Tests
use timelynotify_server.Base.{
  ℕ, String, Bool, true, false, ◌&&◌, ◌||◌, not, List, [], ◌∷◌, Option, none, some, is_some, Text,
  codes, text_key, if◌then◌else◌, ◌==◌, nat_eq, ◌≡◌, refl, map, arith, Option-cases, Bool-cases,
  inl, inr,
}
use timelynotify_server.Base.Strings.{trim, trim_space, equal_fold, fold, text_eq}
use timelynotify_server.Base.Dict.{Dict}
use timelynotify_server.Gotify.Value.{Value, Extras, sprint}

fold_scan : List (String × Value) → String → Option Value
fold_scan [] key = none
fold_scan ((k, v) ∷ l) key = let rest = fold_scan l key in if equal_fold k key then some v else rest

-- lookupFold, at a lower-case ASCII key
unfoldable pub lookup_fold : Extras → String → Option Value
unfolding fold_scan
lookup_fold values key = fold_scan values.entries key

unfoldable pub is_enabled : Value → Bool
is_enabled (Value.flag b) = b
is_enabled v = trim_space (sprint v) == codes "1"

is_passive : Value → Bool
unfolding fold
is_passive (Value.str s) = text_eq (map fold (trim_space (codes s))) (codes "passive")
is_passive _ = false

unfoldable pub harmony_passive : Extras → Bool
unfolding is_passive
harmony_passive extras = elim (lookup_fold extras "level") [ none ↦ false | some v ↦ is_passive v ]

-- A push is archived unless it says otherwise.
unfoldable pub is_archived : Extras → Bool
is_archived extras = elim (lookup_fold extras "isarchive") [ none ↦ true | some v ↦ is_enabled v ]

is_text : Value → Bool
is_text (Value.str s) = not (trim_space (codes s) == [])
is_text _ = false

unfoldable pub has_ciphertext : Extras → Bool
unfolding is_text
has_ciphertext extras = elim (lookup_fold extras "ciphertext") [ none ↦ false | some v ↦ is_text v ]

-- ShouldPublishHistory
unfoldable pub should_publish_history : Extras → Bool → Bool
unfolding harmony_passive is_archived has_ciphertext
should_publish_history extras has_harmony_target =
    if has_harmony_target && harmony_passive extras
    then true
    else if is_archived extras
    then true
    else has_harmony_target && has_ciphertext extras

abbrev pub archived_placeholder : String × String
archived_placeholder = ("[订阅] 加密通知", "请打开及时通知查看加密内容")

abbrev pub transient_placeholder : String × String
transient_placeholder = ("[订阅] 加密即时通知", "请打开及时通知解密并查看，此通知不会保存到历史记录")

-- EncryptedPlaceholder
unfoldable pub encrypted_placeholder : Extras → String × String
encrypted_placeholder extras = elim (lookup_fold extras "isarchive") [
  | none ↦ archived_placeholder
  | some v ↦ if not (is_enabled v) then transient_placeholder else archived_placeholder
]

-- strings.TrimSpace(strings.Trim(strings.TrimSpace(url), "`"))
unfoldable pub bare_url : Text → Text
bare_url url = trim_space (trim (λ c. nat_eq c b'`') (trim_space url))

url_of : Option Value → Text
unfolding bare_url
url_of (some (Value.str s)) = bare_url (codes s)
url_of _ = []

-- HarmonyImageURL
unfoldable pub harmony_image_url : Extras → Text
unfolding url_of
harmony_image_url extras =
    let icon = url_of (lookup_fold extras "icon") in
    if not (icon == []) then icon else url_of (lookup_fold extras "image")

-- The notification calls an encrypted message transient exactly if its history is kept for the sake
-- of Harmony alone: where a push without a Harmony target would leave no history.
pub encrypted_placeholder-should_publish_history :
    (extras : Extras)
    → encrypted_placeholder extras ≡ (
        if should_publish_history extras false then archived_placeholder else transient_placeholder)
unfolding encrypted_placeholder should_publish_history is_archived
encrypted_placeholder-should_publish_history extras =
    elim (Option-cases (lookup_fold extras "isarchive")) [
      | inl e ↦ ground (arith, e)
      | inr (v, e) ↦ ground (arith, e)
    ]

-- A Harmony target only adds history, and it always does for a passive push and for a ciphertext.
pub should_publish_history-harmony :
    (extras : Extras)
    → should_publish_history extras true
      ≡ (should_publish_history extras false || (harmony_passive extras || has_ciphertext extras))
unfolding should_publish_history
should_publish_history-harmony extras = ground arith
