-- ===== src/Harmony/Tests.antt =====
-- A token source and replies, and the theorems at them.
use timelynotify_server.Base.{
  String, false, ◌&&◌, Option, none, some, ℤ, pos, ◌≡◌, refl, if◌then◌else◌,
}
use timelynotify_server.Harmony.{
  TokenSource, Reply, json, judge, expired_code, with_retry, force_invalidate,
}
use text.Mathlib.Text.{◌==◌ as str_eq}
use timelynotify_server.Base.{List, [], ◌∷◌, arith, str_eq_iff, string_key, pos, ℕ, leb, ◌+◌, codes}
use timelynotify_server.Base.Dict
use timelynotify_server.Base.Dict.{Dict}
use timelynotify_server.Gotify.Value.{Value, Extras}
use timelynotify_server.Harmony.Click.{
  Json, string_at, parse_data_field, merge_notice_click_target, merge_notice_click_target_lem,
  click_target, fields_of,
}
use timelynotify_server.Base.Strings.{trim_space, has_suffix}
use timelynotify_server.Harmony.Send.{normalize_sound_name}

sign : ℤ → Option String
sign now = some "jwt"

abbrev idle : TokenSource
idle = force_invalidate (pos 0) (record { cached = "old"; cached_exp = pos 5 })

expired : String → Reply
expired t = json 401 expired_code

accepted : String → Reply
accepted t = json 200 (pos 80000000)

recovered : (with_retry sign (pos 0) (pos 7, expired) (pos 8, accepted) idle).0.failed ≡ false
unfolding with_retry sign expired accepted judge
recovered = refl

-- A codec for documents whose one member is the action.
encode_action : List (String × Value) → Option String
encode_action ((k, Value.str s) ∷ []) = if str_eq k "tn_action" then some s else none
encode_action _ = none

action_of : String → Extras
action_of t = record { entries = ("tn_action", Value.str t) ∷ [] }

encoded_action :
    (l : List (String × Value)) (t : String)
    → encode_action l ≡ some t
    → l ≡ ("tn_action", Value.str t) ∷ []
unfolding encode_action
encoded_action ((k, Value.str s) ∷ []) t e = ground (arith, e, str_eq_iff k "tn_action")
encoded_action l t e = ground (arith, e)

action-encode :
    (v : Extras) (t : String)
    → encode_action v.entries ≡ some t
    → (w : Extras) × (some (action_of t) ≡ some w)
      × ((key : String) → string_at (Dict.get w key) ≡ string_at (Dict.get v key))
unfolding action_of Dict.get
action-encode v t e = (action_of t, refl, λ key. rw (encoded_action v.entries t e) refl)

abbrev action_json : Json
action_json = record {
  parse = λ t. some (action_of t);
  encode = λ v. encode_action v.entries;
  parse-encode = action-encode;
}

merge_notice_click_target_lem_example :
    string_at (
      Dict.get
        (parse_data_field action_json (merge_notice_click_target action_json "" "alert" "" 0))
        "tn_action")
    ≡ some "alert"
unfolding encode_action click_target Dict.del Dict.put fields_of
merge_notice_click_target_lem_example =
    merge_notice_click_target_lem action_json "" "alert" "" 0 "alert" "tn_action" refl

ascii_lower : ℕ → ℕ
ascii_lower c = if leb b'A' c && leb c b'Z' then c + 32 else c

sound_names :
    (normalize_sound_name ascii_lower (codes " Bell.CAF ") ≡ codes "Bell.mp3")
    × (normalize_sound_name ascii_lower (codes "a.WAV") ≡ codes "a.WAV")
unfolding normalize_sound_name ascii_lower trim_space has_suffix
sound_names = (refl, refl)
