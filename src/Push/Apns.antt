-- ===== src/Push/Apns.antt =====
-- apns/apns.go, Push: the notification that goes to APNs. A payload of the library apns2 is the list of
-- the calls that build it; the client and its reply are parameters. Go leaves open in which order Push
-- walks the parameters. A token and an expiry of 24 hours are not modelled further.
use timelynotify_server.Base.{
  ℕ, String, Bool, true, false, not, ◌||◌, List, [], ◌∷◌, ◌++◌, Option, none, some, ℤ, Text, codes,
  text_key, string_key, if◌then◌else◌, ◌==◌, nat_eq, is_some, ◌≡◌, refl, arith, All, All-append,
  Bool-cases, inl, inr,
}
use timelynotify_server.Base.Dict
use timelynotify_server.Gotify.Value.{Value, sprint}
use timelynotify_server.Push.Values.{lowered}
use timelynotify_server.Push.Message.{PushMessage, is_delete}

-- The calls on a payload.
pub data Part : Type 0 where
  mutable_content content_available : Part
  alert_title alert_subtitle alert_body sound category : String → Part
  badge : ℤ → Part
  thread_id : Text → Part
  custom : Text → Text → Part

pub data PushType : Type 0 where
  alert background : PushType

pub record Notification : Type 0 where
  pub collapse_id : String
  pub device_token : Text
  pub topic : String
  pub payload : List Part
  pub push_type : PushType

-- What the client returns: an error, or a status with a reason.
pub data Response : Type 0 where
  lost : Text → Response
  status : ℕ → Text → Response

abbrev pub topic : String
topic = "me.fin.bark"

-- The group of a message, unless it is nil.
unfoldable pub thread_part : Option Value → List Part
thread_part none = []
thread_part (some Value.null) = []
thread_part (some v) = thread_id (sprint v) ∷ []

-- What is built before the parameters are walked.
unfoldable pub head_parts : PushMessage → List Part
unfolding thread_part
head_parts p =
    if is_delete p
    then mutable_content ∷ content_available ∷ []
    else (mutable_content
        ∷ alert_title p.title
        ∷ alert_subtitle p.subtitle
        ∷ alert_body p.body
        ∷ sound p.sound
        ∷ category "myNotificationCategory"
        ∷ (if p.has_badge then badge p.badge ∷ [] else []))
      ++ thread_part (Dict.get p.ext_params "group")

module _ (lower : ℕ → ℕ) where
  abbrev pub is_carried : Text → Bool
  is_carried key = (key == codes "sound") || (key == codes "soundduration")

  unfoldable pub custom_parts : List (String × Value) → List Part
  custom_parts [] = []
  custom_parts ((k, v) ∷ l) =
      let rest = custom_parts l in
      if is_carried (lowered lower k) then rest else custom (lowered lower k) (sprint v) ∷ rest

  unfoldable pub notification_for : PushMessage → Notification
  unfolding head_parts custom_parts
  notification_for p = record {
    collapse_id = p.id;
    device_token = p.device_token;
    topic = topic;
    payload = head_parts p ++ custom_parts p.ext_params.entries;
    push_type = if is_delete p then background else alert;
  }

  -- The status, and the text of an error.
  unfoldable pub reply_of : Response → ℕ × Option Text
  reply_of (lost e) = (500, some e)
  reply_of (status code reason) = if nat_eq code 200 then (200, none) else (code, some reason)

  -- Push
  unfoldable pub push_apns : (Notification → Response) → PushMessage → ℕ × Option Text
  unfolding notification_for reply_of
  push_apns client p = reply_of (client (notification_for p))

  -- What a notification shows, and what it carries.
  abbrev pub is_shown : Part → Bool
  is_shown (alert_title _) = true
  is_shown (alert_subtitle _) = true
  is_shown (alert_body _) = true
  is_shown (sound _) = true
  is_shown (badge _) = true
  is_shown _ = false

  abbrev pub IsQuiet : Part → Type 0
  IsQuiet part = is_shown part ≡ false

  abbrev pub IsFresh : Part → Type 0
  IsFresh (custom key _) = is_carried key ≡ false
  IsFresh _ = Unit

  custom_parts-IsQuiet : (l : List (String × Value)) → All IsQuiet (custom_parts l)
  unfolding custom_parts
  custom_parts-IsQuiet [] = tt
  custom_parts-IsQuiet ((k, v) ∷ l) = elim (Bool-cases (is_carried (lowered lower k))) [
    | inl carried ↦ rw carried (custom_parts-IsQuiet l)
    | inr fresh ↦ rw fresh (refl, custom_parts-IsQuiet l)
  ]

  custom_parts-IsFresh : (l : List (String × Value)) → All IsFresh (custom_parts l)
  unfolding custom_parts
  custom_parts-IsFresh [] = tt
  custom_parts-IsFresh ((k, v) ∷ l) = elim (Bool-cases (is_carried (lowered lower k))) [
    | inl carried ↦ rw carried (custom_parts-IsFresh l)
    | inr fresh ↦ rw fresh (fresh, custom_parts-IsFresh l)
  ]

  thread_part-IsFresh : (v : Option Value) → All IsFresh (thread_part v)
  unfolding thread_part
  thread_part-IsFresh none = tt
  thread_part-IsFresh (some Value.null) = tt
  thread_part-IsFresh (some v) = ground arith

  head_parts-IsFresh : (p : PushMessage) → All IsFresh (head_parts p)
  unfolding head_parts
  head_parts-IsFresh p =
      let group = thread_part (Dict.get p.ext_params "group") in
      elim (Bool-cases (is_delete p)) [
        | inl deletes ↦ rw deletes (tt, (tt, tt))
        | inr shows ↦ elim (Bool-cases p.has_badge) [
          | inl marked ↦
              rw (shows, marked)
                (
                  tt,
                  (
                    tt,
                    (
                      tt,
                      (tt, (tt, (tt, (tt, thread_part-IsFresh (Dict.get p.ext_params "group"))))),
                    ),
                  ),
                )
          | inr plain ↦
              rw (shows, plain)
                (
                  tt,
                  (tt, (tt, (tt, (tt, (tt, thread_part-IsFresh (Dict.get p.ext_params "group")))))),
                )
        ]
      ]

  -- A deletion is silent: its notification goes out as a background push, and nothing in its payload
  -- is an alert, a sound or a badge.
  pub notification_for-IsQuiet :
      (p : PushMessage)
      → is_delete p ≡ true
      → (◌≡◌ {A = PushType} (notification_for p).push_type background)
        × All IsQuiet (notification_for p).payload
  unfolding notification_for head_parts
  notification_for-IsQuiet p deletes =
      rw deletes (refl, (refl, (refl, custom_parts-IsQuiet p.ext_params.entries)))

  reply_of-code : (r : Response) → nat_eq (reply_of r).0 200 ≡ not (is_some (reply_of r).1)
  unfolding reply_of
  reply_of-code (lost e) = refl
  reply_of-code (status code reason) = ground arith

  -- Push reports the status 200 exactly where it reports no error, whatever the client says, and the
  -- parameters sound and soundduration never stand in the payload under a name of their own.
  pub push_apns_lem :
      (client : Notification → Response) (p : PushMessage)
      → (nat_eq (push_apns client p).0 200 ≡ not (is_some (push_apns client p).1))
        × All IsFresh (notification_for p).payload
  unfolding push_apns notification_for head_parts
  push_apns_lem client p = (
    reply_of-code (client (notification_for p)),
    All-append IsFresh (head_parts p) (custom_parts p.ext_params.entries) (head_parts-IsFresh p)
        (custom_parts-IsFresh p.ext_params.entries),
  )
