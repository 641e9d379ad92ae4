-- ===== src/Push/Tests.antt =====
-- Concrete pushes, and the theorems at them.
use timelynotify_server.Base.{
  ℕ, ◌+◌, ◌&&◌, leb, if◌then◌else◌, true, false, String, List, [], ◌∷◌, Option, none, some, pos,
  Text, ◌≡◌, refl, codes, text_key, string_key, ◌==◌, select, arith, All,
}
use timelynotify_server.Base.Strings.{trim_space, equal_fold, string_of}
use timelynotify_server.Base.Strconv.{parse_int}
use timelynotify_server.Base.Dict
use timelynotify_server.Base.Dict.{Dict}
use timelynotify_server.Database.{DeviceInfo, ios, harmony}
use timelynotify_server.Gotify.Value.{Value, Extras, sprint}
use timelynotify_server.Gotify.Memory.{MemoryStore, new_memory_store, add}
use timelynotify_server.Gotify.Service
use timelynotify_server.Gotify.Service.{store_published}
use timelynotify_server.Harmony.Click.{Json, string_at}
use timelynotify_server.Push.Values.{Arrays, is_truthy_flag, lowered, to_int}
use timelynotify_server.Gotify.Model.{as_string, extra_id_of}
use timelynotify_server.PushPolicy.{
  harmony_passive, lookup_fold, encrypted_placeholder, should_publish_history,
}
use timelynotify_server.Push.Message.{
  PushMessage, new_message, message_of, is_delete_key, is_delete, delete_rounds,
}
use timelynotify_server.Push.Flag.{is_visited, wants_delete, delete_rounds_lem}
use timelynotify_server.Push.Harmony.{text_param, is_encrypted, harmony_call}
use timelynotify_server.Push.Deliver.{
  Env, World, Status, ok, deliver_all, deliver, fan_out, gotify_publish_with_id, push_to_apns,
}
use timelynotify_server.Push.Request.{
  push, push_message, push_delete, is_target, has_harmony, record_history, is_harmony, is_ios,
}
use timelynotify_server.Push.Parse.{
  device_keys, split_comma, extract_url_path_params, put_path, put_args, push_all,
}
use timelynotify_server.Push.Batch.{Answers, push_all-Answers}
use timelynotify_server.Push.Apns.{
  mutable_content, content_available, custom, PushType, background, Notification, Response, status,
  head_parts, custom_parts, notification_for, push_apns, reply_of, IsQuiet,
  notification_for-IsQuiet,
}
use timelynotify_server.Push.Outcomes.{push_message_lem, arrives}
use timelynotify_server.Push.Refusals.{IsRefusal, Settled, push_delete-Settled, push-refused}
use timelynotify_server.Push.Secrets.{harmony_call-encrypted, deliver_all-passive}
use timelynotify_server.Push.Tombstone.{EndsIn, remove_at, push_delete-EndsIn}

ascii_lower : ℕ → ℕ
ascii_lower c = if leb b'A' c && leb c b'Z' then c + 32 else c

-- A codec that refuses everything, and arrays that are none.
parse-encode_none :
    (v : Extras) (t : String)
    → none ≡ some t
    → (w : Extras) × (◌≡◌ {A = Option Extras} none (some w))
      × ((key : String) → string_at (Dict.get w key) ≡ string_at (Dict.get v key))
parse-encode_none v t e = cc

abbrev no_json : Json
no_json = record { parse = λ t. none; encode = λ v. none; parse-encode = parse-encode_none }

abbrev no_arrays : Arrays
no_arrays = record { strings = λ t. none; items = λ t. none }

-- A registry is the list of its records.
cleared : Text → Text → List DeviceInfo → List DeviceInfo
cleared key platform [] = []
cleared key platform (d ∷ ds) =
    (if (d.key == key) && (d.platform == platform) then record d { token = [] } else d)
    ∷ cleared key platform ds

known : Text → List DeviceInfo → Option (List DeviceInfo)
known key ds = elim (select (λ (d : DeviceInfo). d.key == key) ds) [
  | [] ↦ none
  | d ∷ l ↦ some (d ∷ l)
]

stored : String → String → ℕ → Extras → MemoryStore → Option ℕ × MemoryStore
stored title body priority extras s =
    let m = Service.message_of (pos 9) "now" title body (pos priority) extras in
    let (id, s') = store_published (pos 9) m s in (some id, s')

-- APNs says that the token is dead, and Push Kit accepts.
abbrev env : Env (List DeviceInfo) MemoryStore
env = record {
  lower = ascii_lower;
  json = no_json;
  arrays = no_arrays;
  plain = λ s. s;
  devices_by_key = known;
  clear = cleared;
  publish = stored;
  remove = remove_at (pos 9);
  instance_id = "here";
  harmony_ready = true;
  apns_reply = λ p. (410, some (codes "Unregistered"));
  harmony_reply = λ c. (pos 80000000, false);
  revoke_reply = λ tokens id. (pos 80000000, false);
}

abbrev phone : DeviceInfo
phone = record { key = codes "me"; token = codes "t1"; platform = ios }

abbrev tablet : DeviceInfo
tablet = record { key = codes "me"; token = codes "t2"; platform = harmony }

abbrev world : World (List DeviceInfo) MemoryStore
world = record { registry = phone ∷ tablet ∷ []; history = new_memory_store 9; sent = [] }

abbrev hello : Extras
hello = Dict.put (Dict.put Dict.empty "device_key" (Value.str "me")) "Body" (Value.str "hi")

abbrev as_listed : List DeviceInfo → List DeviceInfo
as_listed ds = ds

pushed : Status × World (List DeviceInfo) MemoryStore
unfolding push cleared message_of Dict.get Dict.put lowered ascii_lower is_delete known is_target
    text_param as_string deliver_all fan_out deliver has_harmony harmony_passive lookup_fold
    should_publish_history gotify_publish_with_id stored store_published extra_id_of
    Service.message_of add
pushed = push env as_listed hello world

pushed_ok : pushed.0 ≡ ok
unfolding pushed
pushed_ok = refl

-- The token that APNs calls dead is gone.
phone_is_cleared : pushed.1.registry ≡ record phone { token = [] } ∷ tablet ∷ []
unfolding pushed
phone_is_cleared = refl

one_message : pushed.1.history.order ≡ 1 ∷ []
unfolding pushed
one_message = refl

keyed : PushMessage
keyed = record new_message { device_key = "me"; id = "7" }

push_message_lem_example : (push_message env as_listed keyed world).0 ≡ ok
unfolding keyed known is_target text_param as_string Dict.get has_harmony harmony_passive
    lookup_fold record_history should_publish_history gotify_publish_with_id stored store_published
    extra_id_of Service.message_of add arrives
push_message_lem_example = push_message_lem env as_listed (λ ds P. refl) keyed world

push-refused_example : (push env as_listed Dict.empty world).1 ≡ world
unfolding push message_of Dict.get
push-refused_example = push-refused env as_listed Dict.empty world (refl, omega arith)

push_delete-Settled_example : Settled env keyed world (push_delete env keyed world)
push_delete-Settled_example = push_delete-Settled env keyed world

deleted : Status × World (List DeviceInfo) MemoryStore
unfolding push_delete keyed known is_target text_param as_string Dict.get to_int parse_int
    trim_space is_harmony is_ios push_to_apns
deleted = push_delete env keyed world

deleted_ok : deleted.0 ≡ ok
unfolding deleted
deleted_ok = refl

not_refused : ¬ IsRefusal deleted.0
not_refused (failed, low) = cc (failed, deleted_ok)

push_delete-EndsIn_example : EndsIn "me" (codes "7") (push_delete env keyed world).1.history.dels
unfolding keyed deleted
push_delete-EndsIn_example = push_delete-EndsIn env (pos 9) refl keyed world not_refused

both_spellings : Extras
both_spellings = Dict.put (Dict.put Dict.empty "delete" (Value.str "0")) "Delete" (Value.flag true)

unvisited :
    (k : String) → is_visited k both_spellings.entries ≡ false → Dict.get both_spellings k ≡ none
unfolding both_spellings Dict.get Dict.put
unvisited k h = ground (arith, h)

delete_rounds_lem_example :
    Dict.get (delete_rounds ascii_lower both_spellings.entries both_spellings) "delete"
    ≡ some (Value.str "1")
unfolding both_spellings is_delete_key lowered is_truthy_flag ascii_lower wants_delete Dict.get
    Dict.put trim_space
delete_rounds_lem_example =
    delete_rounds_lem ascii_lower refl refl both_spellings.entries both_spellings "delete" unvisited

secret : String → String → PushMessage
secret title ciphertext = record new_message {
  device_key = "me";
  title = title;
  ext_params = Dict.put Dict.empty "ciphertext" (Value.str ciphertext);
}

harmony_call-encrypted_example :
    harmony_call no_json (λ s. s) no_arrays (secret "a" "x") (codes "t2") "here" 1
    ≡ harmony_call no_json (λ s. s) no_arrays (secret "b" "y") (codes "t2") "here" 1
unfolding secret is_encrypted text_param as_string Dict.get Dict.put trim_space
    encrypted_placeholder lookup_fold equal_fold
harmony_call-encrypted_example =
    harmony_call-encrypted no_json (λ s. s) no_arrays (secret "a" "x") (secret "b" "y") (codes "t2")
      "here" 1 refl refl
      (record {
        id = refl;
        badge = refl;
        has_badge = refl;
        placeholder = refl;
        url = refl;
        action = refl;
        sound = refl;
        duration = refl;
        foreground = refl;
      })

deliver_all-passive_example :
    deliver_all env keyed true (some 1) (tablet ∷ tablet ∷ []) world ≡ (ok, world)
deliver_all-passive_example =
    deliver_all-passive env keyed (some 1) tablet (tablet ∷ []) world (refl, (refl, tt))

-- The second push ends first; nobody knows its device.
push_all-Answers_example :
    Answers env
      (λ s. some s)
      (λ i. as_listed)
      (pos 2)
      ("me" ∷ "you" ∷ [])
      world
      (push_all env
        (λ s. some s)
        (λ i. as_listed)
        (pos 2)
        (1 ∷ 0 ∷ [])
        ("me" ∷ "you" ∷ [])
        hello
        world)
push_all-Answers_example =
    push_all-Answers env (λ s. some s) (λ i. as_listed) (pos 2) (1 ∷ 0 ∷ []) "me" ("you" ∷ []) hello
      world (λ i h. ground arith)

named_devices : device_keys (some (Value.str "me,you,")) ≡ some ("me" ∷ "you" ∷ "" ∷ [])
unfolding device_keys split_comma string_of
named_devices = refl

body_and_badge : Option Extras → Option Value × Option Value
body_and_badge none = (none, none)
body_and_badge (some params) = (Dict.get params "body", Dict.get params "badge")

-- The path wins over the arguments.
from_path :
    body_and_badge (
      extract_url_path_params
        (λ s. some s)
        (record {
          content_type = [];
          query = [];
          post = [];
          form = [];
          body = none;
          path_device_key = "me";
          path_subtitle = "";
          path_title = "";
          path_body = "hello";
        })
        (put_args ascii_lower (("Body", "no") ∷ ("BADGE", "1") ∷ []) Dict.empty))
    ≡ (some (Value.str "hello"), some (Value.str "1"))
unfolding body_and_badge extract_url_path_params put_path put_args lowered ascii_lower string_of
    Dict.get Dict.put
from_path = refl

erased : PushMessage
erased = record new_message {
  ext_params = Dict.put (Dict.put Dict.empty "delete" (Value.str "1")) "Sound" (Value.str "bell");
}

notification_for-IsQuiet_example :
    (◌≡◌ {A = PushType} (notification_for ascii_lower erased).push_type background)
    × All (IsQuiet ascii_lower) (notification_for ascii_lower erased).payload
unfolding erased is_delete Dict.get Dict.put
notification_for-IsQuiet_example = notification_for-IsQuiet ascii_lower erased refl

-- The client says that the token is dead.
gone : Notification → Response
gone n = status 410 (codes "Unregistered")

gone_code : (push_apns ascii_lower gone erased).0 ≡ 410
unfolding push_apns gone reply_of
gone_code = refl

-- The sound is left out of the parameters, and the flag goes along.
erased_payload :
    (notification_for ascii_lower erased).payload
    ≡ mutable_content ∷ content_available ∷ custom (codes "delete") (codes "1") ∷ []
unfolding erased notification_for head_parts custom_parts is_delete Dict.get Dict.put lowered
    ascii_lower sprint
erased_payload = refl
