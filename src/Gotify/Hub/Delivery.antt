-- ===== src/Gotify/Hub/Delivery.antt =====
-- internal/gotifycompat/hub.go: who receives a message.
use timelynotify_server.Base.{
  ℕ, ◌≤◌, ◌<◌, List, [], ◌∷◌, ◌++◌, Option, none, some, length, nat_key, string_key, ◌≡◌, refl,
  arith, Option-cases, Bool-cases, inl, inr, true, false, ◌⊎◌, ◌==◌, ltb,
}
use timelynotify_server.Base.Dict
use timelynotify_server.Base.Dict.{value_at}
use timelynotify_server.Gotify.Model.{Message, source_device}
use timelynotify_server.Gotify.Hub.{Subscriber, Hub, wants, send, send_all, publish}

-- What a subscription gets of a message.
abbrev pub sent : Message → Option Subscriber → Option Subscriber
sent m none = none
sent m (some s) = some (send m s)

value_at-send_all :
    (m : Message) (id : ℕ) (subs : List (ℕ × Subscriber))
    → value_at id (send_all m subs) ≡ sent m (value_at id subs)
unfolding send_all value_at
value_at-send_all m id [] = refl
value_at-send_all m id ((j, s) ∷ subs) = ground (arith, value_at-send_all m id subs)

-- Publish sends the message to every subscription.
pub publish-sent :
    (m : Message) (id : ℕ) (h : Hub) → Dict.get (publish m h).subs id ≡ sent m (Dict.get h.subs id)
unfolding publish Dict.get
publish-sent m id h = value_at-send_all m id h.subs.entries

-- What a subscription is before and after a message, by the device it asked for and by the messages
-- that wait for its reader.
pub data Offered (m : Message) : Option Subscriber → Option Subscriber → Type 0 where
  absent : Offered m none none
  delivered :
      (s : Subscriber)
      → (s.device ≡ "") ⊎ (source_device m ≡ s.device)
      → length s.ch < 32
      → Offered m (some s) (some (record { ch = s.ch ++ m ∷ []; device = s.device }))
  filtered :
      (s : Subscriber)
      → ¬ (s.device ≡ "")
      → ¬ (source_device m ≡ s.device)
      → Offered m (some s) (some s)
  dropped : (s : Subscriber) → 32 ≤ length s.ch → Offered m (some s) (some s)

module _ (m : Message) (s : Subscriber) where
  wanted : wants s m ≡ true → (s.device ≡ "") ⊎ (source_device m ≡ s.device)
  unfolding wants
  wanted h = elim (Bool-cases (s.device == "")) [
    | inl all ↦ inl ((string_key.same_iff s.device "").0 all)
    | inr one ↦ inr ((string_key.same_iff (source_device m) s.device).0 (ground (arith, h, one)))
  ]

  unwanted : wants s m ≡ false → (¬ (s.device ≡ "")) × (¬ (source_device m ≡ s.device))
  unfolding wants
  unwanted h = (
    λ all. absurd (ground (arith, h, (string_key.same_iff s.device "").1 all)),
    λ one. absurd (ground (arith, h, (string_key.same_iff (source_device m) s.device).1 one)),
  )

  send-Offered : Offered m (some s) (some (send m s))
  unfolding send
  send-Offered = elim (Bool-cases (wants s m)) [
    | inr other ↦ rw other (filtered s (unwanted other).0 (unwanted other).1)
    | inl own ↦ elim (Bool-cases (ltb (length s.ch) 32)) [
      | inl room ↦ rw (own, room) (delivered s (wanted own) (ground (arith, room)))
      | inr full ↦ rw (own, full) (dropped s (ground (arith, full)))
    ]
  ]

-- Who gets a published message: a subscription without a device or with the device of the message,
-- if fewer than 32 messages wait for it, gets it behind these; one with another device, one with 32
-- messages waiting and one that is not there are left as they were.
pub get-publish :
    (m : Message) (id : ℕ) (h : Hub)
    → Offered m (Dict.get h.subs id) (Dict.get (publish m h).subs id)
get-publish m id h = elim (Option-cases (Dict.get h.subs id)) [
  | inl none_there ↦ rw (publish-sent m id h, none_there) absent
  | inr (s, there) ↦ rw (publish-sent m id h, there) (send-Offered m s)
]
