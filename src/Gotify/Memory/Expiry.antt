-- ===== src/Gotify/Memory/Expiry.antt =====
-- memoryStore.ExpireMessages: it removes the messages that are due, and no other.
use timelynotify_server.Base.{
  ℕ, ◌&&◌, List, [], ◌∷◌, none, ℤ, ◌≡◌, refl, ◌∙◌, arith, nat_eq, Bool-cases, Option-cases, inl,
  inr, nat_key, string_key, if◌then◌else◌,
}
use timelynotify_server.Base.Ascending.{mem}
use timelynotify_server.Base.Dict
use timelynotify_server.Base.Dict.{Dict, get-del}
use timelynotify_server.Gotify.Model.{single_row, source_device}
use timelynotify_server.Gotify.Memory.{MemoryStore, message_at, remove_locked, remove_logged}
use timelynotify_server.Gotify.Memory.Frame.{msgs-add_deletion}
use timelynotify_server.Gotify.Memory.Sweeps.{
  is_due, due_ids, expire_one, expire_loop, expire_messages,
}
use timelynotify_server.Gotify.Memory.Valid.{IsValid}

pub get-remove_logged :
    (now : ℤ) (id j : ℕ) (s : MemoryStore)
    → Dict.get (remove_logged now id s).msgs j ≡ (if nat_eq id j then none else Dict.get s.msgs j)
unfolding remove_logged remove_locked
get-remove_logged now id j s = ground (
  arith,
  msgs-add_deletion now (single_row (source_device (message_at s id)) id) (remove_locked id s),
  get-del s.msgs id j,
)

get-expire_one :
    (clock : ℤ) (id n j : ℕ) (s : MemoryStore)
    → Dict.get (expire_one clock id (n, s)).1.msgs j
      ≡ (if nat_eq id j then none else Dict.get s.msgs j)
unfolding expire_one
get-expire_one clock id n j s = elim (Option-cases (Dict.get s.msgs id)) [
  | inl e ↦ rw (e, expire_one) (ground (arith, e))
  | inr (m, e) ↦ rw (e, expire_one) (get-remove_logged clock id j s)
]

get-expire_loop :
    (clock : ℤ) (ids : List ℕ) (acc : ℕ × MemoryStore) (j : ℕ)
    → Dict.get (expire_loop clock ids acc).1.msgs j
      ≡ (if mem j ids then none else Dict.get acc.1.msgs j)
unfolding expire_loop
get-expire_loop clock [] acc j = refl
get-expire_loop clock (id ∷ ids) (n, s) j =
    ground (
      arith,
      get-expire_loop clock ids (expire_one clock id (n, s)) j,
      get-expire_one clock id n j s,
    )

mem-due_ids :
    (expires : Dict ℕ ℤ) (now : ℤ) (ids : List ℕ) (j : ℕ)
    → mem j (due_ids expires now ids) ≡ (is_due expires now j && mem j ids)
unfolding due_ids
mem-due_ids expires now [] j = ground arith
mem-due_ids expires now (id ∷ ids) j = elim (Bool-cases (nat_eq id j)) [
  | inl same ↦ ground (arith, same, mem-due_ids expires now ids j)
  | inr other ↦ ground (arith, other, mem-due_ids expires now ids j)
]

-- In a valid store, ExpireMessages removes exactly the messages whose deadline has come.
pub get-expire_messages :
    (clock now : ℤ) (s : MemoryStore) (j : ℕ)
    → IsValid s
    → Dict.get (expire_messages clock now s).1.msgs j
      ≡ (if is_due s.expires now j then none else Dict.get s.msgs j)
unfolding expire_messages
get-expire_messages clock now s j v =
    get-expire_loop clock (due_ids s.expires now s.order) (0, s) j
    ∙ ground (arith, mem-due_ids s.expires now s.order j, v.tracked j)
