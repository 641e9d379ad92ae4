-- ===== src/Gotify/Bolt/Mirror/Calls.antt =====
-- internal/gotifycompat/store.go: Add, and a removal with the count, on a bboltStore that holds what a
-- memoryStore holds.
use timelynotify_server.Base.{
  ℕ, ◌+◌, ◌^◌, ◌<◌, true, [], ◌∷◌, some, ℤ, ◌≡◌, refl, arith, string_key, text_key, nat_key, length,
  length-append,
}
use timelynotify_server.Base.Ascending.{mem}
use timelynotify_server.Gotify.Model.{Message, source_device, succ_uint64}
use timelynotify_server.Gotify.Memory
use timelynotify_server.Gotify.Memory.{
  MemoryStore, message_at, or_zero, append_message, store_message, remove_logged, of_device,
  remove_locked,
}
use timelynotify_server.Gotify.Memory.Keeps.{HasRoom}
use timelynotify_server.Gotify.Memory.Valid.{IsBounded, IsValid, append_message-IsBounded}
use timelynotify_server.Gotify.Memory.Logged.{IsLogged, IsLogged-same}
use timelynotify_server.Gotify.Bolt
use timelynotify_server.Gotify.Bolt.{
  Format, BoltStore, with_id, less_one, delete_message, remove_found,
}
use timelynotify_server.Gotify.Bolt.Mirror.{Accepts, Travels, Simulates, with_count-Mirrors}
use timelynotify_server.Gotify.Bolt.Mirror.Removal.{remove_logged_tx-Mirrors}
use timelynotify_server.Gotify.Bolt.Mirror.Adds.{append-Mirrors}
use timelynotify_server.Gotify.Bolt.Mirror.Evictions.{length-remove_logged, settle-mirrors}

module _ {B : Type 0} (format : Format B) (accepts : Accepts format) (b : BoltStore B)
    (s : MemoryStore) (h : Simulates format accepts b s) (valid : IsValid s) (v : IsLogged s) where
  -- Add of a message that travels succeeds, returns the id that the memoryStore returns, and keeps the
  -- stores alike.
  pub add-mirrors :
      (now : ℤ) (m : Message)
      → Travels format accepts m
      → HasRoom s.seq
      → HasRoom s.del_seq
      → s.max + 1 < 2 ^ 64
      → (b' : BoltStore B) × (Bolt.add format now m b ≡ some ((Memory.add now m s).0, b'))
        × Simulates format accepts b' (Memory.add now m s).1
  unfolding Bolt.add Memory.add append_message store_message
  add-mirrors now m travels room room_log small =
      let id = succ_uint64 s.seq in
      let t = append_message id m s in
      let (raw, encoded, decoded) = travels.stored id in
      let (b1, put, mirrors, counted) =
        append-Mirrors format accepts m b s raw h.0 valid.assigned room travels decoded in
      let bounded : IsBounded (s.max + 1) t =
        append_message-IsBounded id m s.max s (omega arith) valid in
      let longer : length t.order ≡ length s.order + 1 = length-append s.order (id ∷ []) in
      let (b2, settled, simulates) =
        settle-mirrors format accepts now b1 t mirrors bounded.ascending
          (IsLogged-same s t refl refl refl v) room_log (omega (arith, h.1, counted, longer))
          (omega (arith, bounded.sized)) in
      (b2, rw (h.0.seq, encoded, put, settled) refl, simulates)

  -- A removal that succeeds on both sides, with the count.
  pub delete_message-mirrors :
      (now : ℤ) (id : ℕ) (m : Message)
      → HasRoom s.del_seq
      → mem id s.order ≡ true
      → source_device m ≡ source_device (message_at s id)
      → format.fits (source_device (message_at s id)) ≡ true
      → (b' : BoltStore B) × (delete_message format now id m b ≡ some (true, b'))
        × Simulates format accepts b' (remove_logged now id s)
  unfolding delete_message source_device
  delete_message-mirrors now id m room stored own fit =
      let (b', removed, mirrors, counted) =
        remove_logged_tx-Mirrors format accepts b s h.0 id valid.ascending fit v now room in
      let left = less_one b.count in
      (
        record b' { count = left },
        rw (own, removed) refl,
        (
          with_count-Mirrors format accepts b' (remove_logged now id s) left mirrors,
          omega (arith, h.1, length-remove_logged now id s stored),
        ),
      )
