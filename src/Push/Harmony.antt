-- ===== src/Push/Harmony.antt =====
-- route_push.go, pushToHarmony: the notification of a push to a HarmonyOS device.
use timelynotify_server.Base.{
  ℕ, String, Bool, true, false, not, List, [], ◌∷◌, Option, none, some, ℤ, pos, Text, codes,
  text_key, string_key, if◌then◌else◌, ◌==◌,
}
use timelynotify_server.Base.Strings.{trim_space, string_of, equal_fold}
use timelynotify_server.Base.Dict
use timelynotify_server.Gotify.Value.{Value}
use timelynotify_server.Gotify.Model.{as_string}
use timelynotify_server.Harmony.Click.{Json, merge_click_action_data, merge_notice_click_target}
use timelynotify_server.Harmony.Send.{Call}
use timelynotify_server.PushPolicy.{encrypted_placeholder, harmony_image_url}
use timelynotify_server.Push.Values.{Arrays, to_int, number_to_string, to_inbox_strings}
use timelynotify_server.Push.Message.{PushMessage, or_zero_int}

-- ExtParams[key].(string)
unfoldable pub text_param : PushMessage → String → String
text_param p key = as_string (Dict.get p.ext_params key)

-- ExtParams[key] as an int, 0 where it is missing or none.
unfoldable pub int_param : PushMessage → String → ℤ
int_param p key = elim (Dict.get p.ext_params key) [
  | none ↦ pos 0
  | some v ↦ or_zero_int (to_int (number_to_string v))
]

unfoldable pub is_encrypted : PushMessage → Bool
unfolding text_param
is_encrypted p = not (trim_space (codes (text_param p "ciphertext")) == [])

-- An encrypted push is not shown in the foreground unless it says so; any other is.
unfoldable pub foreground_show : PushMessage → ℤ
unfolding is_encrypted
foreground_show p = elim (Dict.get p.ext_params "foregroundShow") [
  | none ↦ if is_encrypted p then pos 0 else pos 1
  | some v ↦ or_zero_int (to_int (number_to_string v))
]

unfoldable pub click_action : PushMessage → String
unfolding text_param
click_action p = if equal_fold (text_param p "action") "none" then "none" else "alert"

unfoldable pub notify_id : PushMessage → ℤ
notify_id p = if p.id == "" then pos 0 else or_zero_int (to_int (codes p.id))

abbrev badge_arg : PushMessage → Option ℤ
badge_arg p = if p.has_badge then some p.badge else none

is_string : Option Value → Bool
is_string (some (Value.str s)) = true
is_string _ = false

-- readableBody; `plain` is markdowntext.Plain.
unfoldable pub readable_body : (String → String) → PushMessage → String
unfolding text_param
readable_body plain p =
    let markdown = text_param p "markdown" in
    if not (text_param p "ciphertext" == "")
    then p.body
    else if markdown == ""
    then p.body
    else if not (plain markdown == "")
    then plain markdown
    else p.body

module _ (json : Json) (plain : String → String) (arrays : Arrays) where
  -- The click data: what the sender gave, the url, and the routing entries.
  unfoldable pub click_text : PushMessage → String → String → ℕ → String
  unfolding is_string text_param click_action
  click_text p text instance_id history_id =
      let with_url =
        if is_string (Dict.get p.ext_params "url")
        then merge_click_action_data json text (text_param p "url")
        else text in
      merge_notice_click_target json with_url (click_action p) instance_id history_id

  unfoldable pub inbox_lines : PushMessage → List String
  inbox_lines p = elim (Dict.get p.ext_params "inboxcontent") [
    | none ↦ []
    | some v ↦ to_inbox_strings arrays v
  ]

  -- The call for an encrypted push: a placeholder, and of the parameters the url and the routing.
  unfoldable pub encrypted_call : PushMessage → Text → String → ℕ → Call
  unfolding click_text text_param int_param foreground_show notify_id
  encrypted_call p token instance_id history_id = record {
    target_tokens = token ∷ [];
    title = (encrypted_placeholder p.ext_params).0;
    body = (encrypted_placeholder p.ext_params).1;
    click_text = click_text p "" instance_id history_id;
    icon = "";
    action_type = pos 0;
    badge_num = badge_arg p;
    sound = text_param p "sound";
    sound_duration = int_param p "soundduration";
    foreground_show = foreground_show p;
    inbox_content = [];
    notify_id = notify_id p;
  }

  unfoldable pub plain_call : PushMessage → Text → String → ℕ → Call
  unfolding click_text text_param int_param foreground_show notify_id inbox_lines readable_body
  plain_call p token instance_id history_id = record {
    target_tokens = token ∷ [];
    title = if p.title == "" then "订阅通知" else p.title;
    body = readable_body plain p;
    click_text = click_text p (text_param p "data") instance_id history_id;
    icon = string_of (harmony_image_url p.ext_params);
    action_type = pos 0;
    badge_num = badge_arg p;
    sound = text_param p "sound";
    sound_duration = int_param p "soundduration";
    foreground_show = foreground_show p;
    inbox_content = inbox_lines p;
    notify_id = notify_id p;
  }

  unfoldable pub harmony_call : PushMessage → Text → String → ℕ → Call
  unfolding encrypted_call plain_call is_encrypted
  harmony_call p token instance_id history_id =
      if is_encrypted p
      then encrypted_call p token instance_id history_id
      else plain_call p token instance_id history_id
