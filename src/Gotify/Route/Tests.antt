-- ===== src/Gotify/Route/Tests.antt =====
-- Concrete requests for the message list, and the theorem at one.
use timelynotify_server.Base.{
  ℕ, ◌+◌, ◌&&◌, leb, if◌then◌else◌, true, false, [], pos, ◌≡◌, refl, codes, text_key, string_key,
}
use timelynotify_server.Base.Strconv.{parse_uint}
use timelynotify_server.Gotify.Params.{parse_cursor, validate_message_list_params}
use timelynotify_server.Gotify.Model.{Message}
use timelynotify_server.Gotify.Memory.{MemoryStore, new_memory_store, zero_message, add}
use timelynotify_server.Gotify.Route.{
  device_message, Admissible, device_message-Admissible, parse_message_query, unauthorized,
  bad_request,
}

ascii_lower : ℕ → ℕ
ascii_lower c = if leb b'A' c && leb c b'Z' then c + 32 else c

abbrev hello : Message
hello = record zero_message { message = "hello"; device_key = "phone" }

abbrev store : MemoryStore
store = (add (pos 1) hello (new_memory_store 2)).1

refused : device_message ascii_lower "phone" store false (pos 100) [] [] [] [] ≡ unauthorized
unfolding device_message
refused = refl

both_cursors :
    device_message ascii_lower "phone" store true (pos 100) (codes "7") [] (codes "1") []
    ≡ bad_request
unfolding device_message parse_message_query parse_cursor parse_uint validate_message_list_params
both_cursors = refl

device_message-Admissible_example :
    Admissible
      (device_message ascii_lower "phone" store true (pos 500) [] [] (codes "0") (codes "1"))
device_message-Admissible_example =
    device_message-Admissible ascii_lower "phone" store true (pos 500) [] [] (codes "0") (codes "1")
