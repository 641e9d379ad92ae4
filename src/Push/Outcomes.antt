-- ===== src/Push/Outcomes.antt =====
-- route_push.go: the status of a push, from what becomes of its deliveries.
use timelynotify_server.Base.{
  ℕ, ◌+◌, Bool, false, not, ◌&&◌, ◌||◌, List, [], ◌∷◌, Option, none, some, codes, text_key,
  string_key, if◌then◌else◌, ◌==◌, is_some, ltb, select, ◌≡◌, refl, arith, Option-cases, ◌⊎◌, inl,
  inr, ◌∙◌, ap,
}
use timelynotify_server.Database.{DeviceInfo, harmony}
use timelynotify_server.PushPolicy.{harmony_passive}
use timelynotify_server.Push.Message.{PushMessage}
use timelynotify_server.Push.Harmony.{text_param}
use timelynotify_server.Push.Deliver.{
  Env, World, entry_id, call_to, Status, ok, failure, deliver, fan_out, deliver_all,
}
use timelynotify_server.Push.Request.{
  is_target, unknown_device, has_harmony, record_history, push_to_targets, push_message,
}

abbrev pub any {ℓ} : {A : Type ℓ} → (A → Bool) → List A → Bool
any P [] = false
any P (x ∷ xs) = P x || any P xs

-- The two lists have the same members.
abbrev pub SameMembers : List DeviceInfo → List DeviceInfo → Type 0
SameMembers xs ys = (P : DeviceInfo → Bool) → any P xs ≡ any P ys

pub List-cases {ℓ} :
    {A : Type ℓ} (xs : List A) → (xs ≡ []) ⊎ ((y : A) × (ys : List A) × (xs ≡ y ∷ ys))
List-cases [] = inl refl
List-cases (y ∷ ys) = inr (y, ys, refl)

abbrev pub status_of : Bool → Status
status_of arrived = if arrived then ok else failure 500

-- The targets of a message among the devices of its key.
abbrev pub targets_of : PushMessage → List DeviceInfo → List DeviceInfo
targets_of p devices = select (is_target (codes (text_param p "_platform"))) devices

module _ {R H : Type 0} (env : Env R H) where
  -- What Push Kit, APNs or the history says of a target.
  unfoldable pub arrives : PushMessage → Bool → Option ℕ → DeviceInfo → Bool
  arrives p passive history d =
      let m = record p { device_token = d.token } in
      if d.platform == harmony
      then (if passive
          then is_some history
          else env.harmony_ready
            && not (env.harmony_reply (call_to env m d.token (entry_id history))).1)
      else not (is_some (env.apns_reply m).1)

  deliver-arrives :
      (p : PushMessage) (passive : Bool) (history : Option ℕ) (d : DeviceInfo) (w : World R H)
      → (deliver env p passive history d w).0 ≡ status_of (arrives p passive history d)
  unfolding deliver arrives
  deliver-arrives p passive history d w = ground arith

  fan_out-arrives :
      (p : PushMessage) (passive : Bool) (history : Option ℕ) (ds : List DeviceInfo) (n : ℕ)
      (w : World R H)
      → let (m, last, _) = fan_out env p passive history ds (n, failure 500, w) in
        (last ≡ failure 500) × (ltb 0 m ≡ (ltb 0 n || any (arrives p passive history) ds))
  unfolding fan_out
  fan_out-arrives p passive history [] n w = (refl, ground arith)
  fan_out-arrives p passive history (d ∷ ds) n w =
      let w' = (deliver env p passive history d w).1 in
      ground (
        arith,
        deliver-arrives p passive history d w,
        fan_out-arrives p passive history ds (n + 1) w',
        fan_out-arrives p passive history ds n w',
      )

  -- One target is enough, whatever the order is.
  pub deliver_all-arrives :
      (p : PushMessage) (passive : Bool) (history : Option ℕ) (ds : List DeviceInfo) (w : World R H)
      → (deliver_all env p passive history ds w).0 ≡ status_of (any (arrives p passive history) ds)
  unfolding deliver_all
  deliver_all-arrives p passive history [] w =
      ground (arith, fan_out-arrives p passive history [] 0 w)
  deliver_all-arrives p passive history (d ∷ []) w =
      ground (arith, deliver-arrives p passive history d w)
  deliver_all-arrives p passive history (d ∷ e ∷ ds) w =
      ground (arith, fan_out-arrives p passive history (d ∷ e ∷ ds) 0 w)

  -- A target is reached, given what the history made of the message.
  abbrev pub any_arrives : PushMessage → List DeviceInfo → H → Bool
  any_arrives p targets h =
      any
        (arrives p (has_harmony targets && harmony_passive p.ext_params)
          (record_history env p targets h).0)
        targets

  push_to_targets-arrives :
      (order : List DeviceInfo → List DeviceInfo)
      → ((ds : List DeviceInfo) → SameMembers (order ds) ds)
      → (p : PushMessage) (targets : List DeviceInfo) (w : World R H)
      → (push_to_targets env order p targets w).0 ≡ status_of (any_arrives p targets w.history)
  unfolding push_to_targets
  push_to_targets-arrives order same p targets w =
      let passive = has_harmony targets && harmony_passive p.ext_params in
      let (history, h) = record_history env p targets w.history in
      deliver_all-arrives p passive history (order targets) (record w { history = h })
      ∙ ap status_of (same targets (arrives p passive history))

  -- The status of a push by what it finds: 404 or 400 for an unknown key, 400 where no device is left
  -- that has a token and the platform asked for, 200 where at least one target is reached, and 500
  -- where none is, whatever the order in which the deliveries end.
  pub push_message_lem :
      (order : List DeviceInfo → List DeviceInfo)
      → ((ds : List DeviceInfo) → SameMembers (order ds) ds)
      → (p : PushMessage) (w : World R H)
      → (push_message env order p w).0
        ≡ elim (env.devices_by_key (codes p.device_key) w.registry) as (λ _. Status) [
          | none ↦ unknown_device p.device_key
          | some devices ↦ elim (targets_of p devices) as (λ _. Status) [
            | [] ↦ failure 400
            | d ∷ ds ↦ status_of (any_arrives p (d ∷ ds) w.history)
          ]
        ]
  unfolding push_message push_to_targets
  push_message_lem order same p w =
      elim (Option-cases (env.devices_by_key (codes p.device_key) w.registry)) [
        | inl e ↦ rw (e, push_message) refl
        | inr (devices, e) ↦ elim (List-cases (targets_of p devices)) [
          | inl none_left ↦ rw (e, push_message, none_left) refl
          | inr (d, ds, some_left) ↦
              rw (e, push_message, some_left) (push_to_targets-arrives order same p (d ∷ ds) w)
        ]
      ]
