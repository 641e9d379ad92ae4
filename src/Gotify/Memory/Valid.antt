-- ===== src/Gotify/Memory/Valid.antt =====
-- The invariant of memoryStore's messages, and that the operations on them keep it.
use timelynotify_server.Base.{
  ℕ, ◌+◌, ◌≤◌, ◌<◌, true, false, [], ◌∷◌, none, some, ℤ, ◌≡◌, arith, is_some, nat_key, string_key,
  length, All, length-append, All-append,
}
use timelynotify_server.Base.Dict
use timelynotify_server.Base.Dict.{Dict, dict_laws, get-del, get-put, get-empty}
use timelynotify_server.Base.Ascending.{
  mem, Ascending, Ascending-append, Ascending-remove, mem-remove, mem-append, length-remove-le,
  All-remove, All-le_mono,
}
use timelynotify_server.Gotify.Model.{Message, source_device, single_row, DeletionRecord}
use timelynotify_server.Gotify.Memory.Frame.{log_frame}
use timelynotify_server.Gotify.Memory.{
  MemoryStore, message_at, new_memory_store, add_deletion, remove_locked, remove_logged,
  store_message, append_message,
}

-- `order` holds the ids of the messages in the order of their allocation, each once and at most
-- `n` of them; a message carries its id; a deadline belongs to a stored message.
pub record IsBounded (n : ℕ) (s : MemoryStore) : Type 0 where
  pub ascending : Ascending 0 s.order
  pub assigned : All (λ id. id ≤ s.seq) s.order
  pub tracked : (id : ℕ) → is_some (Dict.get s.msgs id) ≡ mem id s.order
  pub ids : (id : ℕ) (m : Message) → Dict.get s.msgs id ≡ some m → m.id ≡ id
  pub deadlines : (id : ℕ) → mem id s.order ≡ false → Dict.get s.expires id ≡ none
  pub sized : length s.order ≤ n

abbrev pub IsValid : MemoryStore → Type 0
IsValid s = IsBounded s.max s

pub new_memory_store-IsValid : (max : ℕ) → IsValid (new_memory_store max)
new_memory_store-IsValid max = record {
  ascending = tt;
  assigned = tt;
  tracked = λ id. simp dict_laws;
  ids = λ id m h. cc (get-empty {V = Message} id);
  deadlines = λ id h. get-empty id;
  sized = omega arith;
}

-- An entry of the log does not touch the messages.
pub add_deletion-IsBounded :
    (now : ℤ) (r : DeletionRecord) (n : ℕ) (s : MemoryStore)
    → IsBounded n s
    → IsBounded n (add_deletion now r s).1
add_deletion-IsBounded now r n s v = record {
  ascending = simp log_frame v.ascending;
  assigned = simp log_frame v.assigned;
  tracked = λ id. simp log_frame (v.tracked id);
  ids = λ id m. simp log_frame (v.ids id m);
  deadlines = λ id. simp log_frame (v.deadlines id);
  sized = simp log_frame v.sized;
}

pub remove_locked-IsBounded :
    (id n : ℕ) (s : MemoryStore) → IsBounded n s → IsBounded n (remove_locked id s)
unfolding remove_locked
remove_locked-IsBounded id n s v = record {
  ascending = Ascending-remove id 0 s.order v.ascending;
  assigned = All-remove _ id s.order v.assigned;
  tracked =
      λ j. ground (arith, get-del s.msgs id j, v.tracked j, mem-remove id j 0 s.order v.ascending);
  ids = λ j m h. ground (arith, get-del s.msgs id j, v.ids j m);
  deadlines = λ j h.
      ground (arith, get-del s.expires id j, v.deadlines j, mem-remove id j 0 s.order v.ascending);
  sized = omega (arith, length-remove-le id s.order);
}

pub remove_logged-IsBounded :
    (now : ℤ) (id n : ℕ) (s : MemoryStore) → IsBounded n s → IsBounded n (remove_logged now id s)
unfolding remove_logged
remove_logged-IsBounded now id n s v =
    add_deletion-IsBounded now (single_row (source_device (message_at s id)) id) n
      (remove_locked id s) (remove_locked-IsBounded id n s v)

pub store_message-IsBounded :
    (id : ℕ) (m : Message) (n : ℕ) (s : MemoryStore)
    → mem id s.order ≡ true
    → IsBounded n s
    → IsBounded n (store_message id m s)
unfolding store_message
store_message-IsBounded id m n s h v = record {
  ascending = v.ascending;
  assigned = v.assigned;
  tracked = λ j. ground (arith, get-put s.msgs id j (record m { id = id }), v.tracked j);
  ids = λ j x e. ground (arith, get-put s.msgs id j (record m { id = id }), v.ids j x);
  deadlines = λ j e. ground (arith, get-put s.expires id j m.expires_at, v.deadlines j);
  sized = v.sized;
}

-- A message that is appended under a fresh id makes the history one longer.
pub append_message-IsBounded :
    (id : ℕ) (m : Message) (n : ℕ) (s : MemoryStore)
    → s.seq < id
    → IsBounded n s
    → IsBounded (n + 1) (append_message id m s)
unfolding append_message store_message
append_message-IsBounded id m n s h v = record {
  ascending = Ascending-append 0 s.seq id s.order (omega arith) h v.ascending v.assigned;
  assigned =
      All-append _ s.order (id ∷ []) (All-le_mono s.seq id s.order (omega arith) v.assigned)
        (omega arith, tt);
  tracked = λ j.
      ground
        (arith, get-put s.msgs id j (record m { id = id }), v.tracked j, mem-append j id s.order);
  ids = λ j x e. ground (arith, get-put s.msgs id j (record m { id = id }), v.ids j x);
  deadlines = λ j e.
      ground (arith, get-put s.expires id j m.expires_at, v.deadlines j, mem-append j id s.order);
  sized = omega (arith, length-append s.order (id ∷ []), v.sized);
}
