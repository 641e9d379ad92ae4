-- ===== src/Push/Message.antt =====
-- apns/apns.go, PushMessage, and route_push.go, push: the message that the parameters of a request
-- make. Go leaves open in which order push walks the parameters.
use timelynotify_server.Base.{
  ℕ, String, Bool, true, false, ◌&&◌, List, [], ◌∷◌, ◌++◌, Option, none, some, ℤ, pos, Text, codes,
  text_key, string_key, if◌then◌else◌, ◌==◌, nat_eq, string_key, pos_part,
}
use timelynotify_server.Base.Strings.{trim, trim_space, string_of, has_suffix}
use timelynotify_server.Base.Dict
use timelynotify_server.Base.Dict.{Dict}
use timelynotify_server.Gotify.Value.{Value, Extras, Fields, no_more, entry}
use timelynotify_server.Push.Values.{
  Arrays, to_int, number_to_string, lowered, is_truthy_flag, to_inbox_strings,
}

pub record PushMessage : Type 0 where
  pub id : String
  pub device_token : Text
  pub device_key : String
  pub subtitle : String
  pub title : String
  pub body : String
  pub sound : String
  pub badge : ℤ
  pub has_badge : Bool
  pub ext_params : Extras

-- IsEmptyAlert
abbrev pub is_empty_alert : PushMessage → Bool
is_empty_alert p = (p.title == "") && (p.body == "") && (p.subtitle == "")

abbrev is_one : Option Value → Bool
is_one (some (Value.str s)) = s == "1"
is_one (some (Value.flag b)) = b
is_one (some (Value.num n)) = nat_eq (pos_part n) 1
is_one (some (Value.float x)) = x.integral && nat_eq (pos_part x.trunc) 1
is_one _ = false

-- IsDelete
unfoldable pub is_delete : PushMessage → Bool
is_delete p = is_one (Dict.get p.ext_params "delete")

-- The message that push starts from.
abbrev pub new_message : PushMessage
new_message = record {
  id = "";
  device_token = [];
  device_key = "";
  subtitle = "";
  title = "";
  body = "";
  sound = "1107";
  badge = pos 0;
  has_badge = false;
  ext_params = Dict.empty;
}

abbrev pub put_ext : String → Value → PushMessage → PushMessage
put_ext key v p = record p { ext_params = Dict.put p.ext_params key v }

abbrev pub del_ext : String → PushMessage → PushMessage
del_ext key p = record p { ext_params = Dict.del p.ext_params key }

-- The fields of a nested object become parameters under their own names.
put_fields : Fields → PushMessage → PushMessage
put_fields no_more p = p
put_fields (entry k v f) p = put_fields f (put_ext k v p)

set_sound : String → PushMessage → PushMessage
unfolding has_suffix string_of
set_sound s p =
    if has_suffix (codes s) (codes ".caf")
    then record p { sound = s; ext_params = Dict.put p.ext_params "sound" (Value.str s) }
    else record p {
      sound = string_of (codes s ++ codes ".caf");
      ext_params = Dict.put p.ext_params "sound" (Value.str s);
    }

set_duration : Option ℤ → PushMessage → PushMessage
set_duration none p = p
set_duration (some n) p = put_ext "soundduration" (Value.num n) p

set_badge : Option ℤ → PushMessage → PushMessage
set_badge none p = p
set_badge (some n) p = record p { badge = n; has_badge = true }

-- strings.TrimSpace(strings.Trim(val, "`"))
bare_icon : String → String
bare_icon s = string_of (trim_space (trim (λ c. nat_eq c b'`') (codes s)))

module _ (lower : ℕ → ℕ) where
  -- The switch over a parameter that is a text.
  absorb_text : String → String → PushMessage → PushMessage
  unfolding set_sound set_duration set_badge bare_icon
  absorb_text key s p =
      let word = lowered lower key in
      if word == codes "id"
      then record p { id = s; ext_params = Dict.put p.ext_params "id" (Value.str s) }
      else if word == codes "device_key"
      then record p { device_key = s }
      else if word == codes "subtitle"
      then record p { subtitle = s }
      else if word == codes "title"
      then record p { title = s }
      else if word == codes "body"
      then record p { body = s }
      else if word == codes "sound"
      then set_sound s p
      else if word == codes "soundduration"
      then set_duration (to_int (codes s)) p
      else if word == codes "foregroundshow"
      then put_ext "foregroundShow" (Value.str s) p
      else if word == codes "badge"
      then set_badge (to_int (codes s)) p
      else if word == codes "platform"
      then put_ext "_platform" (Value.str s) p
      else if word == codes "icon"
      then put_ext "icon" (Value.str (bare_icon s)) p
      else put_ext (string_of word) (Value.str s) p

  unfoldable pub absorb : String → Value → PushMessage → PushMessage
  unfolding absorb_text put_fields
  absorb key (Value.str s) p = absorb_text key s p
  absorb key (Value.obj f) p = put_fields f p
  absorb key v p = put_ext key v p

  unfoldable pub absorb_all : List (String × Value) → PushMessage → PushMessage
  unfolding absorb
  absorb_all [] p = p
  absorb_all ((key, v) ∷ l) p = absorb_all l (absorb key v p)

-- A badge that is no text.
unfoldable pub normalize_badge : PushMessage → PushMessage
unfolding set_badge
normalize_badge p = elim (Dict.get p.ext_params "badge") [
  | none ↦ p
  | some v ↦ if p.has_badge then p else del_ext "badge" (set_badge (to_int (number_to_string v)) p)
]

-- The id is a text, in the message and in its parameters.
unfoldable pub normalize_id : PushMessage → PushMessage
normalize_id p = elim (Dict.get p.ext_params "id") [
  | none ↦ p
  | some v ↦
      let s = string_of (number_to_string v) in
      record p {
        id = if p.id == "" then s else p.id;
        ext_params = Dict.put p.ext_params "id" (Value.str s);
      }
]

duration_under : String → PushMessage → PushMessage
unfolding set_duration
duration_under key p = elim (Dict.get p.ext_params key) [
  | none ↦ p
  | some v ↦ set_duration (to_int (number_to_string v)) (del_ext key p)
]

unfoldable pub normalize_sound_duration : PushMessage → PushMessage
unfolding duration_under
normalize_sound_duration p = duration_under "soundduration" (duration_under "soundDuration" p)

abbrev pub or_zero_int : Option ℤ → ℤ
or_zero_int none = pos 0
or_zero_int (some n) = n

foreground_under : String → PushMessage → PushMessage
foreground_under key p = elim (Dict.get p.ext_params key) [
  | none ↦ p
  | some v ↦
      put_ext "foregroundShow" (Value.num (or_zero_int (to_int (number_to_string v))))
        (del_ext key p)
]

unfoldable pub normalize_foreground_show : PushMessage → PushMessage
unfolding foreground_under
normalize_foreground_show p =
    foreground_under "foregroundshow" (foreground_under "foregroundShow" p)

abbrev put_lines : List String → PushMessage → PushMessage
put_lines [] p = p
put_lines (s ∷ l) p = put_ext "inboxcontent" (Value.strs (s ∷ l)) p

module _ (arrays : Arrays) where
  inbox_under : String → PushMessage → PushMessage
  inbox_under key p = elim (Dict.get p.ext_params key) [
    | none ↦ p
    | some v ↦ put_lines (to_inbox_strings arrays v) (del_ext key p)
  ]

  unfoldable pub normalize_inbox_content : PushMessage → PushMessage
  unfolding inbox_under
  normalize_inbox_content p = inbox_under "inboxcontent" (inbox_under "inboxContent" p)

module _ (lower : ℕ → ℕ) where
  unfoldable pub is_delete_key : String → Bool
  is_delete_key key = lowered lower key == codes "delete"

  -- One round of the walk over ExtParams that is changed meanwhile: an entry that is gone is not
  -- visited, and one that was written anew is visited with its new value.
  unfoldable pub delete_round : String → Extras → Extras
  unfolding is_delete_key
  delete_round key ext = elim (Dict.get ext key) [
    | none ↦ ext
    | some v ↦
        if is_delete_key key
        then (if is_truthy_flag lower v
            then Dict.put (Dict.del ext key) "delete" (Value.str "1")
            else Dict.del ext key)
        else ext
  ]

  unfoldable pub delete_rounds : List (String × Value) → Extras → Extras
  unfolding delete_round
  delete_rounds [] ext = ext
  delete_rounds ((key, _) ∷ l) ext = delete_rounds l (delete_round key ext)

  unfoldable pub normalize_delete : PushMessage → PushMessage
  unfolding delete_rounds
  normalize_delete p = record p { ext_params = delete_rounds p.ext_params.entries p.ext_params }

  -- The message of a request, as push goes on with it.
  unfoldable pub message_of : Arrays → Extras → PushMessage
  unfolding absorb_all normalize_badge normalize_id normalize_sound_duration
      normalize_foreground_show normalize_inbox_content normalize_delete
  message_of arrays params = normalize_delete (
      normalize_inbox_content arrays (
        normalize_foreground_show (
          normalize_sound_duration
            (normalize_id (normalize_badge (absorb_all lower params.entries new_message))))))
