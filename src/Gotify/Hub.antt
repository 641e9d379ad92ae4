-- ===== src/Gotify/Hub.antt =====
-- internal/gotifycompat/hub.go: the fan-out of new messages to the live subscribers. A channel is the
-- list of the messages in its buffer, oldest first; the mutex makes each operation one step.
pub mod Delivery
mod Tests
use text.Mathlib.Text.{◌==◌ as str_eq}
use timelynotify_server.Base.{
  ℕ, ◌+◌, String, Bool, true, false, ◌&&◌, ◌||◌, not, List, [], ◌∷◌, ◌++◌, Option, none, some,
  length, ltb, if◌then◌else◌, nat_key, string_key, ◌==◌,
}
use timelynotify_server.Base.Dict
use timelynotify_server.Base.Dict.{Dict}
use timelynotify_server.Gotify.Model.{Message, source_device, succ_uint64}

pub record Subscriber : Type 0 where
  pub ch : List Message
  pub device : String

pub record Hub : Type 0 where
  pub next : ℕ
  pub subs : Dict ℕ Subscriber

abbrev pub new_hub : Hub
new_hub = record { next = 0; subs = Dict.empty }

-- The size of a channel's buffer.
abbrev pub buffer_size : ℕ
buffer_size = 32

-- SubscribeByDevice; the id stands for the channel and its Unsubscribe function.
unfoldable pub subscribe_by_device : String → Hub → ℕ × Hub
subscribe_by_device device h = (
  h.next,
  record {
    next = succ_uint64 h.next;
    subs = Dict.put h.subs h.next (record { ch = []; device = device });
  },
)

-- The function that SubscribeByDevice returns.
unfoldable pub unsubscribe : ℕ → Hub → Hub
unsubscribe id h = record h { subs = Dict.del h.subs id }

abbrev pub subscriber_count : Hub → ℕ
subscriber_count h = Dict.size h.subs

-- The filter of a subscriber, with "" for every message.
unfoldable pub wants : Subscriber → Message → Bool
wants s m = str_eq s.device "" || (source_device m == s.device)

-- The message goes into the buffer, unless that is full.
unfoldable pub send : Message → Subscriber → Subscriber
unfolding wants
send m s =
    if wants s m
    then if ltb (length s.ch) buffer_size then record s { ch = s.ch ++ m ∷ [] } else s
    else s

unfoldable pub send_all : Message → List (ℕ × Subscriber) → List (ℕ × Subscriber)
unfolding send
send_all m [] = []
send_all m ((id, s) ∷ subs) = (id, send m s) ∷ send_all m subs

-- Publish
unfoldable pub publish : Message → Hub → Hub
unfolding send_all
publish m h = record h { subs = record { entries = send_all m h.subs.entries } }
