-- ===== src/Push/Refusals.antt =====
-- route_push.go: a request that push or pushDelete refuses changes nothing, and a deletion that is not
-- refused cleans the history.
use text.Mathlib.Text.{◌==◌ as str_eq}
use timelynotify_server.Base.{
  ℕ, ◌+◌, ◌<◌, Bool, true, false, not, ◌&&◌, List, [], ◌∷◌, Text, codes, text_key, string_key,
  if◌then◌else◌, nat_eq, is_some, ltb, select, length, ◌≡◌, refl, arith, Bool-cases, Option-cases,
  ◌⊎◌, inl, inr, ◌∙◌, ap, map,
}
use timelynotify_server.Database.{DeviceInfo}
use timelynotify_server.Gotify.Value.{Extras}
use timelynotify_server.Push.Values.{to_int}
use timelynotify_server.Push.Message.{PushMessage, is_delete, message_of}
use timelynotify_server.Push.Deliver.{Env, World, Status, ok, failure, push_to_apns}
use timelynotify_server.Push.Request.{
  is_probe_key, push_message, push_to_targets, revoke_harmony_tokens, delete_on_ios,
  delete_on_harmony, delete_on_targets, has_notify_id, push_delete, is_harmony, is_ios, dispatch,
  push, with_body,
}
use timelynotify_server.Push.Outcomes.{status_of, deliver_all-arrives, List-cases, targets_of}

-- The reply is an error of the request and not of a push service.
abbrev pub IsRefusal : Status → Type 0
IsRefusal s = (s.failed ≡ true) × (s.code < 500)

module _ {R H : Type 0} (env : Env R H) where
  -- A reply that is one of a push service.
  abbrev pub FromService : Status → Type 0
  FromService s = (arrived : Bool) × (s ≡ status_of arrived)

  not_refused : (s : Status) → FromService s → IsRefusal s → ⊥
  not_refused s (true, e) (failed, low) = cc (ap (λ (t : Status). t.failed) e)
  not_refused s (false, e) (failed, low) = omega (arith, ap (λ (t : Status). t.code) e)

  either :
      (b : Bool) (s t : Status) → FromService s → FromService t → FromService (if b then s else t)
  either true s t f g = f
  either false s t f g = g

  apns-FromService :
      (d : DeviceInfo) (p : PushMessage) (w : World R H)
      → FromService (push_to_apns env d p w).0 × ((push_to_apns env d p w).1.history ≡ w.history)
  unfolding push_to_apns
  apns-FromService d p w = ((not (is_some (env.apns_reply p).1), ground arith), ground arith)

  revoke-FromService :
      (p : PushMessage) (tokens : List Text) (w : World R H)
      → has_notify_id p ≡ true
      → FromService (revoke_harmony_tokens env p tokens w).0
        × ((revoke_harmony_tokens env p tokens w).1.history ≡ w.history)
  unfolding revoke_harmony_tokens has_notify_id
  revoke-FromService p tokens w h = elim (Option-cases (to_int (codes p.id))) [
    | inl e ↦ ground (arith, h, e)
    | inr (n, e) ↦
        rw (e, revoke_harmony_tokens)
          (
            (env.harmony_ready && not (env.revoke_reply tokens n).1, ground (arith, h, e)),
            ground (arith, h, e),
          )
  ]

  delete_on_ios-keeps :
      (p : PushMessage) (ds : List DeviceInfo) (n : ℕ) (last : Status) (w : World R H)
      → FromService last
      → FromService (delete_on_ios env p ds (n, last, w)).1
        × ((delete_on_ios env p ds (n, last, w)).2.history ≡ w.history)
  unfolding delete_on_ios
  delete_on_ios-keeps p [] n last w f = (f, refl)
  delete_on_ios-keeps p (d ∷ ds) n last w f =
      let m = record p { device_token = d.token } in
      let (served, kept) = apns-FromService d m w in
      let (status, w') = push_to_apns env d m w in
      let (g, same) =
        delete_on_ios-keeps p ds (if status.failed then n else n + 1)
          (if status.failed then status else last) w' (either status.failed status last served f) in
      (g, same ∙ kept)

  delete_on_harmony-keeps :
      (p : PushMessage) (tokens : List Text) (w : World R H)
      → has_notify_id p ≡ true
      → FromService (delete_on_harmony env p tokens w).1
        × ((delete_on_harmony env p tokens w).2.history ≡ w.history)
  unfolding delete_on_harmony
  delete_on_harmony-keeps p [] w h = ((false, refl), refl)
  delete_on_harmony-keeps p (t ∷ ts) w h =
      let (served, kept) = revoke-FromService p (t ∷ ts) w h in
      let status = (revoke_harmony_tokens env p (t ∷ ts) w).0 in
      (either status.failed status (failure 500) served (false, refl), kept)

  -- What a request for deletion comes to.
  abbrev pub Settled : PushMessage → World R H → Status × World R H → Type 0
  Settled p w (s, w') =
      (IsRefusal s × (w' ≡ w))
      ⊎ (FromService s × (w'.history ≡ env.remove p.device_key p.id w.history))

  delete_on_targets-Settled :
      (p : PushMessage) (targets : List DeviceInfo) (w : World R H)
      → has_notify_id p ≡ true
      → Settled p w (delete_on_targets env p targets w)
  unfolding delete_on_targets
  delete_on_targets-Settled p targets w h =
      let tokens = map (λ (d : DeviceInfo). d.token) (select is_harmony targets) in
      let phones = select is_ios targets in
      let (n, last, w') = delete_on_harmony env p tokens w in
      let (from_harmony, kept) = delete_on_harmony-keeps p tokens w h in
      let (from_ios, still) = delete_on_ios-keeps p phones n last w' from_harmony in
      let end = delete_on_ios env p phones (n, last, w') in
      elim (Bool-cases (nat_eq (length tokens) 0 && nat_eq (length phones) 0)) [
        | inl nobody ↦ rw (nobody, delete_on_targets) (inl ((refl, omega arith), refl))
        | inr somebody ↦
            rw (somebody, delete_on_targets)
              (inr (
                either (ltb 0 end.0) ok end.1 (true, refl) from_ios,
                ap (env.remove p.device_key p.id) (still ∙ kept),
              ))
      ]

  -- pushDelete refuses a request with 400 or 404 and leaves everything as it was, or it answers 200 or
  -- 500 and has removed the message with the id from the history of the key, whatever the push services
  -- say.
  pub push_delete-Settled : (p : PushMessage) (w : World R H) → Settled p w (push_delete env p w)
  unfolding push_delete
  push_delete-Settled p w =
      elim (Option-cases (env.devices_by_key (codes p.device_key) w.registry)) [
        | inl e ↦ elim (Bool-cases (is_probe_key p.device_key)) [
          | inl probe ↦ rw (e, push_delete, probe) (inl ((refl, omega arith), refl))
          | inr other ↦ rw (e, push_delete, other) (inl ((refl, omega arith), refl))
        ]
        | inr (devices, e) ↦ elim (Bool-cases (has_notify_id p)) [
          | inl good ↦
              rw (e, push_delete, good) (delete_on_targets-Settled p (targets_of p devices) w good)
          | inr bad ↦ rw (e, push_delete, bad) (inl ((refl, omega arith), refl))
        ]
      ]

  push_to_targets-FromService :
      (order : List DeviceInfo → List DeviceInfo) (p : PushMessage) (ds : List DeviceInfo)
      (w : World R H)
      → FromService (push_to_targets env order p ds w).0
  unfolding push_to_targets
  push_to_targets-FromService order p ds w = (_, deliver_all-arrives env p _ _ (order ds) _)

  refused_push :
      (order : List DeviceInfo → List DeviceInfo) (p : PushMessage) (w : World R H)
      → IsRefusal (push_message env order p w).0
      → (push_message env order p w).1 ≡ w
  unfolding push_message
  refused_push order p w =
      elim (Option-cases (env.devices_by_key (codes p.device_key) w.registry)) [
        | inl e ↦ rw (e, push_message) (λ _. refl)
        | inr (devices, e) ↦ elim (List-cases (targets_of p devices)) [
          | inl none_left ↦ rw (e, push_message, none_left) (λ _. refl)
          | inr (d, ds, some_left) ↦
              rw (e, push_message, some_left)
                (λ h. absurd (not_refused _ (push_to_targets-FromService order p (d ∷ ds) w) h))
        ]
      ]

  refused_delete :
      (p : PushMessage) (w : World R H)
      → IsRefusal (push_delete env p w).0
      → (push_delete env p w).1 ≡ w
  refused_delete p w h = elim (push_delete-Settled p w) [
    | inl (_, same) ↦ same
    | inr (served, _) ↦ absurd (not_refused _ served h)
  ]

  -- A request that push refuses with an error of its own, below 500, has sent nothing and changed
  -- neither the registry nor the history.
  pub push-refused :
      (order : List DeviceInfo → List DeviceInfo) (params : Extras) (w : World R H)
      → IsRefusal (push env order params w).0
      → (push env order params w).1 ≡ w
  unfolding push dispatch
  push-refused order params w =
      let p = message_of env.lower env.arrays params in
      elim (Bool-cases (str_eq p.device_key "")) [
        | inl e ↦ rw (e, dispatch) (λ _. refl)
        | inr e ↦ elim (Bool-cases (is_delete p)) [
          | inl withdraw ↦ rw (e, dispatch, withdraw) (refused_delete p w)
          | inr deliver ↦ rw (e, dispatch, deliver) (refused_push order (with_body p) w)
        ]
      ]
