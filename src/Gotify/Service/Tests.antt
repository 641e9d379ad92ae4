-- ===== src/Gotify/Service/Tests.antt =====
-- A published message, and the theorem at it.
use timelynotify_server.Base.{nat_key, string_key, some, pos, ◌≡◌, arith}
use timelynotify_server.Base.Dict
use timelynotify_server.Gotify.Value.{Value, Extras}
use timelynotify_server.Gotify.Model.{Message}
use timelynotify_server.Gotify.Memory.{new_memory_store}
use timelynotify_server.Gotify.Memory.Valid.{new_memory_store-IsValid}
use timelynotify_server.Gotify.Hub.{new_hub, subscribe_by_device}
use timelynotify_server.Gotify.Hub.Delivery.{sent}
use timelynotify_server.Gotify.Service.{Service, message_of, publish_message, publish_message_lem}

abbrev extras : Extras
extras = Dict.put (Dict.put Dict.empty "device_key" (Value.str "phone")) "id" (Value.str "9")

abbrev service : Service
service = record { store = new_memory_store 10; hub = (subscribe_by_device "phone" new_hub).1 }

abbrev news : Message
news = message_of (pos 100) "2026-01-01" "title" "body" (pos 1) extras

publish_message_lem_example :
    (Dict.get
        (publish_message (pos 100) news service).1.store.msgs
        (publish_message (pos 100) news service).0
      ≡ some (record news { id = (publish_message (pos 100) news service).0 }))
    × (Dict.get (publish_message (pos 100) news service).1.hub.subs 0
        ≡ sent
            (record news { id = (publish_message (pos 100) news service).0 })
            (Dict.get service.hub.subs 0))
unfolding subscribe_by_device
publish_message_lem_example =
    publish_message_lem (pos 100) news service 0 (omega arith) (omega arith)
      (new_memory_store-IsValid 10)
