-- ===== src/Harmony/Send.antt =====
-- harmony/client.go: the messages of Push Kit V3 that Send and Revoke post.
use timelynotify_server.Base.{
  ℕ, ◌-◌, String, Bool, false, ◌||◌, List, [], ◌++◌, Option, none, some, ℤ, pos, Text, codes,
  text_key, string_key, if◌then◌else◌, ◌==◌, map, length, take, nat_eq, is_pos_ℤ,
}
use timelynotify_server.Base.Strings.{trim_space, string_of, has_suffix}
use timelynotify_server.Gotify.Value.{Extras}
use timelynotify_server.Harmony.{Badge, badge_of, clamp_sound_duration}
use timelynotify_server.Harmony.Click.{Json, parse_data_field}

pub record ClickAction : Type 0 where
  pub action_type : ℤ
  pub click_data : Option Extras

pub record Notification : Type 0 where
  pub category : String
  pub title : String
  pub body : String
  pub image : String
  pub badge : Badge
  pub click_action : ClickAction
  pub foreground_show : Bool
  pub sound : String
  pub sound_duration : ℕ
  pub inbox_content : List String
  pub style : ℕ
  pub notify_id : ℤ

-- Message: the payload, the target, and the options testMessage false and ttl.
pub record HarmonyMessage : Type 0 where
  pub notification : Notification
  pub target : List Text
  pub ttl : ℕ

pub record RevokeMessage : Type 0 where
  pub notify_id : ℤ
  pub target : List Text

-- What push passes to Send.
pub record Call : Type 0 where
  pub target_tokens : List Text
  pub title : String
  pub body : String
  pub click_text : String
  pub icon : String
  pub action_type : ℤ
  pub badge_num : Option ℤ
  pub sound : String
  pub sound_duration : ℤ
  pub foreground_show : ℤ
  pub inbox_content : List String
  pub notify_id : ℤ

module _ (lower : ℕ → ℕ) where
  -- The name without .caf. The slice counts bytes; a text whose lower case ends in .caf ends in four
  -- characters of ASCII.
  bare_sound : Text → Text
  bare_sound s = if has_suffix (map lower s) (codes ".caf") then take (length s - 4) s else s

  has_audio_ending : Text → Bool
  has_audio_ending s =
      has_suffix (map lower s) (codes ".mp3")
      || has_suffix (map lower s) (codes ".wav")
      || has_suffix (map lower s) (codes ".mpeg")

  -- normalizeSoundName
  unfoldable pub normalize_sound_name : Text → Text
  unfolding bare_sound has_audio_ending
  normalize_sound_name sound =
      let s = trim_space sound in
      if s == []
      then []
      else (let name = bare_sound s in if has_audio_ending name then name else name ++ codes ".mp3")

  module _ (json : Json) where
    unfoldable pub click_of : Call → ClickAction
    click_of c = record {
      action_type = c.action_type;
      click_data = if c.click_text == "" then none else some (parse_data_field json c.click_text);
    }

    unfoldable pub notification_of : Call → Notification
    unfolding click_of
    notification_of c =
        let sound = normalize_sound_name (codes c.sound) in
        record {
          category = "SUBSCRIPTION";
          title = c.title;
          body = c.body;
          image = c.icon;
          badge = badge_of c.badge_num;
          click_action = click_of c;
          foreground_show = elim c.foreground_show [ pos n ↦ nat_eq n 1 | _ ↦ false ];
          sound = string_of sound;
          sound_duration = if sound == [] then 0 else clamp_sound_duration c.sound_duration;
          inbox_content = c.inbox_content;
          style = if nat_eq (length c.inbox_content) 0 then 0 else 3;
          notify_id = c.notify_id;
        }

    -- The message of Send, none where there is no token to send to.
    unfoldable pub message_of_call : Call → Option HarmonyMessage
    unfolding notification_of
    message_of_call c =
        if nat_eq (length c.target_tokens) 0
        then none
        else some
            (record { notification = notification_of c; target = c.target_tokens; ttl = 86400 })

-- The message of Revoke.
unfoldable pub message_of_revoke : List Text → ℤ → Option RevokeMessage
message_of_revoke tokens notify_id =
    if nat_eq (length tokens) 0
    then none
    else if is_pos_ℤ notify_id
    then some (record { notify_id = notify_id; target = tokens })
    else none
