-- ===== src/Push/Request.antt =====
-- route_push.go: push and pushDelete, from the parameters of a request to its status.
use timelynotify_server.Base.{
  ℕ, ◌+◌, String, Bool, false, not, ◌&&◌, ◌||◌, List, [], ◌∷◌, ◌++◌, Option, none, some, Text,
  codes, text_key, string_key, if◌then◌else◌, ◌==◌, nat_eq, ltb, length, select, map, is_pos_ℤ,
}
use timelynotify_server.Database.{DeviceInfo, ios, harmony}
use timelynotify_server.Gotify.Value.{Extras}
use timelynotify_server.Harmony.{int_eq}
use timelynotify_server.PushPolicy.{harmony_passive, should_publish_history}
use timelynotify_server.Push.Values.{to_int}
use timelynotify_server.Push.Message.{PushMessage, is_empty_alert, is_delete, message_of}
use timelynotify_server.Push.Harmony.{text_param}
use timelynotify_server.Push.Deliver.{
  Env, World, to_revoke, Status, ok, failure, dead_token_code, gotify_publish_with_id, push_to_apns,
  deliver_all,
}

-- wellKnownProbeKeys
unfoldable pub is_probe_key : String → Bool
is_probe_key key =
    (key == ".env")
    || (key == ".git")
    || (key == "api")
    || (key == "events")
    || (key == "favicon.ico")
    || (key == "robots.txt")
    || (key == "sitemap.xml")
    || (key == "sse")
    || (key == "stream")

-- A record with a token, on the platform that the request names, if it names one.
unfoldable pub is_target : Text → DeviceInfo → Bool
is_target platform d = not (d.token == []) && ((platform == []) || (d.platform == platform))

-- The reply for a key that the registry does not find.
abbrev pub unknown_device : String → Status
unknown_device key = if is_probe_key key then failure 404 else failure 400

unfoldable pub is_harmony : DeviceInfo → Bool
is_harmony d = d.platform == harmony

unfoldable pub is_ios : DeviceInfo → Bool
is_ios d = d.platform == ios

-- Some target is a HarmonyOS device.
unfoldable pub has_harmony : List DeviceInfo → Bool
has_harmony [] = false
has_harmony (d ∷ ds) = (d.platform == harmony) || has_harmony ds

-- An empty alert gets a body.
abbrev pub with_body : PushMessage → PushMessage
with_body p = if is_empty_alert p then record p { body = "Empty Message" } else p

-- The id of a notification that can be withdrawn.
unfoldable pub has_notify_id : PushMessage → Bool
has_notify_id p = elim (to_int (codes p.id)) [ none ↦ false | some n ↦ is_pos_ℤ n ]

module _ {R H : Type 0} (env : Env R H) where
  abbrev is_kept : PushMessage → List DeviceInfo → Bool
  is_kept p targets = should_publish_history p.ext_params (has_harmony targets)

  -- The id of the history entry, 0 where none is to be kept and none where its write has failed.
  unfoldable pub record_history : PushMessage → List DeviceInfo → H → Option ℕ × H
  record_history p targets h =
      if is_kept p targets then gotify_publish_with_id env p h else (some 0, h)

  -- push, for the targets of a message. `order` gives the order in which deliveries end.
  unfoldable pub push_to_targets :
      (List DeviceInfo → List DeviceInfo)
      → PushMessage
      → List DeviceInfo
      → World R H
      → Status × World R H
  unfolding record_history
  push_to_targets order p targets w =
      let passive = has_harmony targets && harmony_passive p.ext_params in
      let (history, h) = record_history p targets w.history in
      deliver_all env p passive history (order targets) (record w { history = h })

  -- revokeHarmonyTokens
  unfoldable pub revoke_harmony_tokens : PushMessage → List Text → World R H → Status × World R H
  revoke_harmony_tokens p tokens w = elim (to_int (codes p.id)) [
    | none ↦ (failure 400, w)
    | some notify_id ↦
        if not (is_pos_ℤ notify_id)
        then (failure 400, w)
        else if not env.harmony_ready
        then (failure 500, w)
        else (let (code, failed) = env.revoke_reply tokens notify_id in
            let w' = record w { sent = w.sent ++ to_revoke tokens notify_id ∷ [] } in
            (
              if failed then failure 500 else ok,
              if failed && int_eq code dead_token_code
                  then record w' { registry = env.clear (codes p.device_key) harmony w'.registry }
                  else w',
            ))
  ]

  -- The silent pushes, with the number of successes and the last failure so far.
  unfoldable pub delete_on_ios :
      PushMessage → List DeviceInfo → ℕ × Status × World R H → ℕ × Status × World R H
  delete_on_ios p [] (n, last, w) = (n, last, w)
  delete_on_ios p (d ∷ ds) (n, last, w) =
      let (status, w') = push_to_apns env d (record p { device_token = d.token }) w in
      delete_on_ios p ds
        (if status.failed then n else n + 1, if status.failed then status else last, w')

  unfoldable pub delete_on_harmony : PushMessage → List Text → World R H → ℕ × Status × World R H
  delete_on_harmony p [] w = (0, failure 500, w)
  delete_on_harmony p (t ∷ ts) w =
      let (status, w') = revoke_harmony_tokens p (t ∷ ts) w in
      (if status.failed then 0 else 1, if status.failed then status else failure 500, w')

  -- pushDelete for the devices of its key, with a positive id: the history is cleaned in any case.
  unfoldable pub delete_on_targets : PushMessage → List DeviceInfo → World R H → Status × World R H
  unfolding delete_on_harmony delete_on_ios revoke_harmony_tokens
  delete_on_targets p targets w =
      let tokens = map (λ (d : DeviceInfo). d.token) (select is_harmony targets) in
      let phones = select is_ios targets in
      if nat_eq (length tokens) 0 && nat_eq (length phones) 0
      then (failure 400, w)
      else (let (n, last, w') = delete_on_ios p phones (delete_on_harmony p tokens w) in
          (
            if ltb 0 n then ok else last,
            record w' { history = env.remove p.device_key p.id w'.history },
          ))

  -- pushDelete
  unfoldable pub push_delete : PushMessage → World R H → Status × World R H
  unfolding delete_on_targets has_notify_id
  push_delete p w = elim (env.devices_by_key (codes p.device_key) w.registry) [
    | none ↦ (unknown_device p.device_key, w)
    | some devices ↦
        if not (has_notify_id p)
        then (failure 400, w)
        else delete_on_targets p (select (is_target (codes (text_param p "_platform"))) devices) w
  ]

  unfoldable pub push_message :
      (List DeviceInfo → List DeviceInfo) → PushMessage → World R H → Status × World R H
  unfolding push_to_targets
  push_message order p w = elim (env.devices_by_key (codes p.device_key) w.registry) [
    | none ↦ (unknown_device p.device_key, w)
    | some devices ↦ elim (select (is_target (codes (text_param p "_platform"))) devices) [
      | [] ↦ (failure 400, w)
      | d ∷ ds ↦ push_to_targets order p (d ∷ ds) w
    ]
  ]

  unfoldable pub dispatch :
      (List DeviceInfo → List DeviceInfo) → PushMessage → World R H → Status × World R H
  unfolding push_delete push_message
  dispatch order p w =
      if p.device_key == ""
      then (failure 400, w)
      else if is_delete p
      then push_delete p w
      else push_message order (with_body p) w

  -- push
  unfoldable pub push :
      (List DeviceInfo → List DeviceInfo) → Extras → World R H → Status × World R H
  unfolding dispatch
  push order params w = dispatch order (message_of env.lower env.arrays params) w
