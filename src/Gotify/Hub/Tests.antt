-- ===== src/Gotify/Hub/Tests.antt =====
-- A message for the subscribers of a hub, and the theorem at it.
use timelynotify_server.Base.{nat_key}
use timelynotify_server.Base.Dict
use timelynotify_server.Gotify.Model.{Message}
use timelynotify_server.Gotify.Memory.{zero_message}
use timelynotify_server.Gotify.Hub.{Hub, new_hub, subscribe_by_device, publish}
use timelynotify_server.Gotify.Hub.Delivery.{Offered, get-publish}

abbrev news : Message
news = record zero_message { device_key = "phone"; id = 3 }

abbrev watched : Hub
watched = (subscribe_by_device "phone" new_hub).1

get-publish_example :
    Offered news (Dict.get watched.subs 0) (Dict.get (publish news watched).subs 0)
get-publish_example = get-publish news 0 watched
