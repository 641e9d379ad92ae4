-- ===== src/Push/Deliver.antt =====
-- route_push.go: the delivery of a push to its targets, pushToAPNs, pushToHarmony and the fan-out, and
-- gotify_publish.go, gotifyPublishWithID.
use timelynotify_server.Base.{
  ℕ, ◌+◌, String, Bool, true, false, not, ◌&&◌, ◌||◌, List, [], ◌∷◌, ◌++◌, Option, none, some, ℤ,
  pos, Text, codes, text_key, string_key, if◌then◌else◌, ◌==◌, nat_eq, is_some, ltb,
}
use timelynotify_server.Base.Strings.{contains_text}
use timelynotify_server.Base.Dict
use timelynotify_server.Database.{DeviceInfo, harmony}
use timelynotify_server.Gotify.Value.{Value, Extras}
use timelynotify_server.Gotify.Publish.{gotify_priority}
use timelynotify_server.Harmony.{int_eq}
use timelynotify_server.Harmony.Click.{Json}
use timelynotify_server.Harmony.Send.{Call}
use timelynotify_server.Push.Values.{Arrays}
use timelynotify_server.Push.Message.{PushMessage}
use timelynotify_server.Push.Harmony.{harmony_call, readable_body}

-- What push works with: the registry (states R) and the history (states H), which other modules
-- implement, and the replies of the push services. An error of a clear, and one of a removal, is only
-- logged. A publish returns the id, or none on an error.
pub record Env (R H : Type 0) : Type 0 where
  pub lower : ℕ → ℕ
  pub json : Json
  pub arrays : Arrays
  pub plain : String → String
  pub devices_by_key : Text → R → Option (List DeviceInfo)
  pub clear : Text → Text → R → R
  pub publish : String → String → ℕ → Extras → H → Option ℕ × H
  pub remove : String → String → H → H
  pub instance_id : String
  pub harmony_ready : Bool
  -- The status of APNs, and the text of an error.
  pub apns_reply : PushMessage → ℕ × Option Text
  -- The business code of Push Kit, and whether there is an error.
  pub harmony_reply : Call → ℤ × Bool
  pub revoke_reply : List Text → ℤ → ℤ × Bool

-- What has left for the push services.
pub data Sent : Type 0 where
  to_apns : PushMessage → Sent
  to_harmony : Call → Sent
  to_revoke : List Text → ℤ → Sent

pub record World (R H : Type 0) : Type 0 where
  pub registry : R
  pub history : H
  pub sent : List Sent

-- The code of a reply, and whether there is an error.
pub record Status : Type 0 where
  pub code : ℕ
  pub failed : Bool

abbrev pub ok : Status
ok = record { code = 200; failed = false }

abbrev pub failure : ℕ → Status
failure code = record { code = code; failed = true }

abbrev pub dead_token_code : ℤ
dead_token_code = pos 80200001

-- APNs says that the token is dead. An error comes with the status 400.
unfoldable pub is_dead : ℕ → Option Text → Bool
is_dead code none = nat_eq code 410
is_dead code (some e) =
    nat_eq code 410 || (nat_eq code 400 && contains_text e (codes "BadDeviceToken"))

abbrev pub with_subtitle : PushMessage → Extras
with_subtitle p =
    if p.subtitle == ""
    then p.ext_params
    else Dict.put p.ext_params "subtitle" (Value.str p.subtitle)

-- The id of a history entry, 0 where there is none.
abbrev pub entry_id : Option ℕ → ℕ
entry_id none = 0
entry_id (some id) = id

module _ {R H : Type 0} (env : Env R H) where
  -- The call of pushToHarmony; the instance is named with an entry of the history.
  abbrev pub call_to : PushMessage → Text → ℕ → Call
  call_to p token history_id =
      harmony_call env.json env.plain env.arrays p token
        (if nat_eq history_id 0 then "" else env.instance_id) history_id

  -- gotifyPublishWithID
  unfoldable pub gotify_publish_with_id : PushMessage → H → Option ℕ × H
  gotify_publish_with_id p h =
      let extras = Dict.put (with_subtitle p) "device_key" (Value.str p.device_key) in
      env.publish (if p.title == "" then "TimelyNotify" else p.title) (readable_body env.plain p)
        (gotify_priority env.lower extras) extras h

  abbrev noted : Sent → World R H → World R H
  noted s w = record w { sent = w.sent ++ s ∷ [] }

  abbrev clear_token : String → Text → World R H → World R H
  clear_token key platform w = record w { registry = env.clear (codes key) platform w.registry }

  -- pushToAPNs
  unfoldable pub push_to_apns : DeviceInfo → PushMessage → World R H → Status × World R H
  unfolding is_dead
  push_to_apns d p w =
      let (code, e) = env.apns_reply p in
      let w' = noted (to_apns p) w in
      (
        if is_some e then failure 500 else ok,
        if is_dead code e then clear_token p.device_key d.platform w' else w',
      )

  -- pushToHarmony
  unfoldable pub push_to_harmony : DeviceInfo → PushMessage → ℕ → World R H → Status × World R H
  push_to_harmony d p history_id w =
      if not env.harmony_ready
      then (failure 500, w)
      else (let c = call_to p d.token history_id in
          let (code, failed) = env.harmony_reply c in
          let w' = noted (to_harmony c) w in
          (
            if failed then failure 500 else ok,
            if failed && int_eq code dead_token_code
                then clear_token p.device_key d.platform w'
                else w',
          ))

  -- pushToDevice
  unfoldable pub push_to_device : DeviceInfo → PushMessage → ℕ → World R H → Status × World R H
  unfolding push_to_apns push_to_harmony
  push_to_device d p history_id w =
      let m = record p { device_token = d.token } in
      if d.platform == harmony then push_to_harmony d m history_id w else push_to_apns d m w

  -- The closure `deliver`: whether the push is passive for Harmony, and what became of the history,
  -- none if its write failed.
  unfoldable pub deliver :
      PushMessage → Bool → Option ℕ → DeviceInfo → World R H → Status × World R H
  unfolding push_to_device
  deliver p passive history d w =
      if (d.platform == harmony) && passive
      then (if is_some history then ok else failure 500, w)
      else push_to_device d p (entry_id history) w

  -- The goroutines in the order in which they end, with the number of successes and the last failure.
  unfoldable pub fan_out :
      PushMessage
      → Bool
      → Option ℕ
      → List DeviceInfo
      → ℕ × Status × World R H
      → ℕ × Status × World R H
  fan_out p passive history [] (n, last, w) = (n, last, w)
  fan_out p passive history (d ∷ ds) (n, last, w) =
      let (status, w') = deliver p passive history d w in
      fan_out p passive history ds
        (if status.failed then n else n + 1, if status.failed then status else last, w')

  -- The tail of push: one target is delivered to directly; of several, one success is enough. At last
  -- stands the answer for the case that nothing has failed either.
  unfoldable pub deliver_all :
      PushMessage → Bool → Option ℕ → List DeviceInfo → World R H → Status × World R H
  deliver_all p passive history (d ∷ []) w = deliver p passive history d w
  deliver_all p passive history ds w =
      let (n, last, w') = fan_out p passive history ds (0, failure 500, w) in
      (if ltb 0 n then ok else last, w')
