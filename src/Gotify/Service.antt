-- ===== src/Gotify/Service.antt =====
-- internal/gotifycompat/service.go: publishing a message, over the in-memory store that Init falls
-- back to. `clock` is time.Now().Unix() and `date` the formatted time of the call.
mod Tests
use timelynotify_server.Base.{
  ℕ, ◌^◌, ◌<◌, String, Bool, true, false, ◌&&◌, ◌||◌, not, List, [], ◌∷◌, Option, none, some, ℤ,
  pos, ◌+ℤ◌, Text, text_key, string_key, nat_key, if◌then◌else◌, ◌==◌, ◌≡◌, refl, arith, Bool-cases,
  Option-cases, inl, inr, ◌⊎◌,
}
use mathlib.Core.List.{reverse}
use text.Mathlib.Text.{◌==◌ as str_eq}
use timelynotify_server.Base.Strconv.{wrap_int64}
use timelynotify_server.Base.Dict
use timelynotify_server.Base.Dict.{Dict, get-put}
use timelynotify_server.Gotify.Value.{Extras}
use timelynotify_server.Gotify.Model.{Message, device_of, extra_id_of, ttl_from_extras}
use timelynotify_server.Gotify.Memory
use timelynotify_server.Gotify.Memory.{MemoryStore, upsert_by_extra_id, store_message, find_extra}
use timelynotify_server.Gotify.Memory.Valid.{IsValid}
use timelynotify_server.Gotify.Memory.Keeps.{HasRoom}
use timelynotify_server.Gotify.Memory.Outcomes.{upsert_outcome}
use timelynotify_server.Gotify.Memory.Tombstones.{get-add}
use timelynotify_server.Gotify.Hub
use timelynotify_server.Gotify.Hub.{Hub}
use timelynotify_server.Gotify.Hub.Delivery.{sent, publish-sent}

pub record Service : Type 0 where
  pub store : MemoryStore
  pub hub : Hub

-- The deadline of a push with a ttl, 0 without one.
deadline : ℤ → Option ℤ → ℤ
unfolding ◌+ℤ◌ wrap_int64
deadline clock none = pos 0
deadline clock (some ttl) = wrap_int64 (clock +ℤ ttl)

-- The message that PublishWithID builds.
unfoldable pub message_of : ℤ → String → String → String → ℤ → Extras → Message
unfolding deadline
message_of clock date title body priority extras = record {
  id = 0;
  app_id = 1;
  title = title;
  message = body;
  priority = priority;
  extras = extras;
  date = date;
  device_key = device_of extras;
  expires_at = deadline clock (ttl_from_extras extras);
}

-- The message overwrites the one with its extras.id, or it is a new one.
unfoldable pub store_published : ℤ → Message → MemoryStore → ℕ × MemoryStore
store_published clock m s =
    if not (extra_id_of m == []) && not (str_eq m.device_key "")
    then (let ((id, _), s') = upsert_by_extra_id clock m.device_key (extra_id_of m) m s in (id, s'))
    else Memory.add clock m s

unfoldable pub publish_message : ℤ → Message → Service → ℕ × Service
unfolding store_published
publish_message clock m v =
    let (id, s) = store_published clock m v.store in
    (id, record { store = s; hub = Hub.publish (record m { id = id }) v.hub })

-- PublishWithID
unfoldable pub publish_with_id : ℤ → String → String → String → ℤ → Extras → Service → ℕ × Service
unfolding message_of publish_message
publish_with_id clock date title body priority extras v =
    publish_message clock (message_of clock date title body priority extras) v

upsert_result :
    (clock : ℤ) (device : String) (extra_id : Text) (m : Message) (s : MemoryStore)
    → (upsert_by_extra_id clock device extra_id m s
        ≡ (((Memory.add clock m s).0, false), (Memory.add clock m s).1))
      ⊎ ((id : ℕ) × (upsert_by_extra_id clock device extra_id m s
            ≡ ((id, true), store_message id m s)))
unfolding upsert_by_extra_id
upsert_result clock device extra_id m s = elim (Bool-cases ((extra_id == []) || str_eq device "")) [
  | inl skip ↦ inl (rw (skip, upsert_by_extra_id) refl)
  | inr go ↦ elim (Option-cases (find_extra s device extra_id (reverse s.order))) [
    | inl e ↦ inl (rw (go, e, upsert_by_extra_id) refl)
    | inr (id, e) ↦ inr (id, rw (go, e, upsert_by_extra_id) refl)
  ]
]

get-store_published :
    (clock : ℤ) (m : Message) (s : MemoryStore)
    → 0 < s.max
    → HasRoom s.seq
    → IsValid s
    → Dict.get (store_published clock m s).1.msgs (store_published clock m s).0
      ≡ some (record m { id = (store_published clock m s).0 })
unfolding store_published store_message
get-store_published clock m s some_room room v =
    elim (Bool-cases (not (extra_id_of m == []) && not (str_eq m.device_key ""))) [
      | inr plain ↦ rw (plain, store_published) (get-add clock m s some_room room v)
      | inl keyed ↦ elim (upsert_result clock m.device_key (extra_id_of m) m s) [
        | inl e ↦ rw (keyed, e, store_published) (get-add clock m s some_room room v)
        | inr (id, e) ↦
            rw (keyed, e, store_published)
              (ground (arith, get-put s.msgs id id (record m { id = id })))
      ]
    ]

-- A published message is stored under the id that the call returns, and the same message with this id
-- is offered to every subscriber, as long as the store is valid, holds at least one message and has
-- an id left.
pub publish_message_lem :
    (clock : ℤ) (m : Message) (v : Service) (subscriber : ℕ)
    → 0 < v.store.max
    → HasRoom v.store.seq
    → IsValid v.store
    → (Dict.get (publish_message clock m v).1.store.msgs (publish_message clock m v).0
        ≡ some (record m { id = (publish_message clock m v).0 }))
      × (Dict.get (publish_message clock m v).1.hub.subs subscriber
          ≡ sent (record m { id = (publish_message clock m v).0 }) (Dict.get v.hub.subs subscriber))
unfolding publish_message
publish_message_lem clock m v subscriber some_room room valid = (
  get-store_published clock m v.store some_room room valid,
  publish-sent (record m { id = (store_published clock m v.store).0 }) subscriber v.hub,
)
