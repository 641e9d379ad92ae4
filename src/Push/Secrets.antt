-- ===== src/Push/Secrets.antt =====
-- route_push.go, pushToHarmony: what an encrypted push shows, and where a passive push goes.
use timelynotify_server.Base.{
  ℕ, String, true, List, [], ◌∷◌, Option, none, some, Text, text_key, string_key, if◌then◌else◌,
  ◌==◌, is_some, length, ◌+◌, All, ◌≡◌, refl, arith, ◌∙◌,
}
use timelynotify_server.Base.Dict
use timelynotify_server.Database.{DeviceInfo, harmony}
use timelynotify_server.Harmony.Click.{Json}
use timelynotify_server.PushPolicy.{encrypted_placeholder}
use timelynotify_server.Push.Values.{Arrays}
use timelynotify_server.Push.Message.{PushMessage}
use timelynotify_server.Push.Harmony.{
  is_encrypted, harmony_call, encrypted_call, text_param, int_param, foreground_show, click_text,
  click_action, notify_id,
}
use timelynotify_server.Push.Deliver.{
  Env, World, Status, ok, failure, deliver, deliver_all, fan_out,
}

-- The two messages agree on the id, the badge, six parameters and the kind of placeholder. They may
-- differ in the title, the subtitle, the body, the ciphertext, the markdown, the icon, the data, and
-- all other parameters.
pub record SameShown (p q : PushMessage) : Type 0 where
  pub id : p.id ≡ q.id
  pub badge : p.badge ≡ q.badge
  pub has_badge : p.has_badge ≡ q.has_badge
  pub placeholder : encrypted_placeholder p.ext_params ≡ encrypted_placeholder q.ext_params
  pub url : Dict.get p.ext_params "url" ≡ Dict.get q.ext_params "url"
  pub action : Dict.get p.ext_params "action" ≡ Dict.get q.ext_params "action"
  pub sound : Dict.get p.ext_params "sound" ≡ Dict.get q.ext_params "sound"
  pub duration : Dict.get p.ext_params "soundduration" ≡ Dict.get q.ext_params "soundduration"
  pub foreground : Dict.get p.ext_params "foregroundShow" ≡ Dict.get q.ext_params "foregroundShow"

module _ (json : Json) (plain : String → String) (arrays : Arrays) where
  click_text-same :
      (p q : PushMessage) (text instance_id : String) (history_id : ℕ)
      → SameShown p q
      → click_text json plain arrays p text instance_id history_id
        ≡ click_text json plain arrays q text instance_id history_id
  unfolding click_text click_action text_param
  click_text-same p q text instance_id history_id s = cc (s.url, s.action)

  foreground_show-same :
      (p q : PushMessage)
      → is_encrypted p ≡ true
      → is_encrypted q ≡ true
      → SameShown p q
      → foreground_show p ≡ foreground_show q
  unfolding foreground_show
  foreground_show-same p q hp hq s = cc (s.foreground, hp, hq)

  encrypted_call-same :
      (p q : PushMessage) (token : Text) (instance_id : String) (history_id : ℕ)
      → is_encrypted p ≡ true
      → is_encrypted q ≡ true
      → SameShown p q
      → encrypted_call json plain arrays p token instance_id history_id
        ≡ encrypted_call json plain arrays q token instance_id history_id
  unfolding encrypted_call text_param int_param notify_id
  encrypted_call-same p q token instance_id history_id hp hq s = cc (
    click_text-same p q "" instance_id history_id s,
    foreground_show-same p q hp hq s,
    s.sound,
    s.duration,
    s.id,
    s.badge,
    s.has_badge,
    s.placeholder,
  )

  -- An encrypted push to HarmonyOS keeps its content secret: what is sent to Push Kit is the same for
  -- any two encrypted messages that agree on the id, the badge, the url, the action, the sound, its
  -- duration, the display in the foreground and the kind of placeholder.
  pub harmony_call-encrypted :
      (p q : PushMessage) (token : Text) (instance_id : String) (history_id : ℕ)
      → is_encrypted p ≡ true
      → is_encrypted q ≡ true
      → SameShown p q
      → harmony_call json plain arrays p token instance_id history_id
        ≡ harmony_call json plain arrays q token instance_id history_id
  unfolding harmony_call
  harmony_call-encrypted p q token instance_id history_id hp hq s =
      rw (hp, hq) (encrypted_call-same p q token instance_id history_id hp hq s)

module _ {R H : Type 0} (env : Env R H) where
  -- The status of the deliveries of a passive push.
  abbrev stored : Option ℕ → Status
  stored history = if is_some history then ok else failure 500

  deliver-passive :
      (p : PushMessage) (history : Option ℕ) (d : DeviceInfo) (w : World R H)
      → (d.platform == harmony) ≡ true
      → deliver env p true history d w ≡ (stored history, w)
  unfolding deliver
  deliver-passive p history d w h = rw h refl

  fan_out-stored :
      (p : PushMessage) (id : ℕ) (ds : List DeviceInfo) (n : ℕ) (last : Status) (w : World R H)
      → All (λ d. (d.platform == harmony) ≡ true) ds
      → fan_out env p true (some id) ds (n, last, w) ≡ (n + length ds, last, w)
  unfolding fan_out
  fan_out-stored p id [] n last w h = ground arith
  fan_out-stored p id (d ∷ ds) n last w h =
      rw (fan_out, deliver-passive p (some id) d w h.0)
        (fan_out-stored p id ds (n + 1) last w h.1 ∙ ground arith)

  fan_out-lost :
      (p : PushMessage) (ds : List DeviceInfo) (n : ℕ) (w : World R H)
      → All (λ d. (d.platform == harmony) ≡ true) ds
      → fan_out env p true none ds (n, failure 500, w) ≡ (n, failure 500, w)
  unfolding fan_out
  fan_out-lost p [] n w h = refl
  fan_out-lost p (d ∷ ds) n w h =
      rw (fan_out, deliver-passive p none d w h.0) (fan_out-lost p ds n w h.1)

  -- A passive push to HarmonyOS devices alone sends nothing: it is accepted exactly if the history has
  -- taken it.
  pub deliver_all-passive :
      (p : PushMessage) (history : Option ℕ) (d : DeviceInfo) (ds : List DeviceInfo) (w : World R H)
      → All (λ e. (e.platform == harmony) ≡ true) (d ∷ ds)
      → deliver_all env p true history (d ∷ ds) w
        ≡ ((if is_some history then ok else failure 500), w)
  unfolding deliver_all
  deliver_all-passive p history d [] w h = deliver-passive p history d w h.0
  deliver_all-passive p (some id) d (e ∷ ds) w h =
      rw (fan_out-stored p id (d ∷ e ∷ ds) 0 (failure 500) w h) (ground arith)
  deliver_all-passive p none d (e ∷ ds) w h = rw (fan_out-lost p (d ∷ e ∷ ds) 0 w h) refl
