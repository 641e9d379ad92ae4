-- ===== src/Gotify/Memory/Logged.antt =====
-- The invariant of memoryStore's deletion log, and that a new row keeps it.
pub mod Prune
pub mod Calls
pub mod Gap
pub mod Resets
pub mod Tombstones
use timelynotify_server.Base.{
  ℕ, suc, ◌+◌, ◌^◌, ◌≤◌, ◌<◌, String, Bool, true, false, ◌&&◌, ◌||◌, not, List, [], ◌∷◌, ◌++◌,
  Option, none, some, ℤ, ◌≡◌, refl, ap, arith, length, All, All-append, map, is_some, nat_eq,
  if◌then◌else◌, ◌==◌, nat_key, string_key, str_eq_iff, Option-cases, Bool-cases, inl, inr, ◌⊎◌,
}
use timelynotify_server.Base.Ascending.{Ascending, Ascending-append, All-le_mono}
use timelynotify_server.Base.Dict
use timelynotify_server.Base.Dict.{Dict, get-put, get-empty, dict_laws}
use timelynotify_server.Gotify.Model.{DeletionRecord, DeletionKind, single, succ_uint64}
use timelynotify_server.Gotify.Memory.{
  MemoryStore, new_memory_store, is_single, or_empty, cursor_of, set_cursor, stamped, append_row,
  add_deletion,
}
use timelynotify_server.Gotify.Memory.Keeps.{HasRoom}

abbrev pub cursors : List DeletionRecord → List ℕ
cursors [] = []
cursors (r ∷ rows) = r.id ∷ cursors rows

abbrev pub is_single_of : String → ℕ → DeletionRecord → Bool
is_single_of device id r = is_single r.kind && (r.device_key == device) && nat_eq r.message_id id

-- The cursor of the row that records the deletion of one message.
unfoldable pub find_single : String → ℕ → List DeletionRecord → Option ℕ
find_single device id [] = none
find_single device id (r ∷ rows) =
    let rest = find_single device id rows in if is_single_of device id r then some r.id else rest

-- No message has two rows of its own.
abbrev pub Distinct : List DeletionRecord → Type 0
Distinct [] = Unit
Distinct (r ∷ rows) =
    (is_single r.kind ≡ true → find_single r.device_key r.message_id rows ≡ none) × Distinct rows

-- Cursors ascend and stay within the counter, and the index finds the rows of single messages.
pub record IsLogged (s : MemoryStore) : Type 0 where
  pub ascending : Ascending 0 (cursors s.dels)
  pub issued : All (λ c. c ≤ s.del_seq) (cursors s.dels)
  pub indexed :
      (device : String) (id : ℕ) → cursor_of s.del_msg device id ≡ find_single device id s.dels
  pub distinct : Distinct s.dels

cursors-append :
    (rows : List DeletionRecord) (r : DeletionRecord)
    → cursors (rows ++ r ∷ []) ≡ cursors rows ++ r.id ∷ []
cursors-append [] r = refl
cursors-append (x ∷ rows) r = ap (◌∷◌ x.id) (cursors-append rows r)

pub find_single-append :
    (device : String) (id : ℕ) (rows : List DeletionRecord) (r : DeletionRecord)
    → find_single device id rows ≡ none
    → find_single device id (rows ++ r ∷ [])
      ≡ (if is_single_of device id r then some r.id else none)
unfolding find_single
find_single-append device id [] r h = refl
find_single-append device id (x ∷ rows) r h = ground (arith, find_single-append device id rows r)

pub find_single-append_some :
    (device : String) (id c : ℕ) (rows : List DeletionRecord) (r : DeletionRecord)
    → find_single device id rows ≡ some c
    → find_single device id (rows ++ r ∷ []) ≡ some c
unfolding find_single
find_single-append_some device id c [] r h = cc
find_single-append_some device id c (x ∷ rows) r h =
    ground (arith, find_single-append_some device id c rows r)

pub cursor_of-set :
    (d : Dict String (Dict ℕ ℕ)) (device dev : String) (id i c : ℕ)
    → cursor_of (set_cursor d device id c) dev i
      ≡ (if (device == dev) && nat_eq id i then some c else cursor_of d dev i)
unfolding cursor_of set_cursor
cursor_of-set d device dev id i c = ground (
  arith,
  get-put d device dev (Dict.put (or_empty (Dict.get d device)) id c),
  get-put (or_empty (Dict.get d device)) id i c,
  str_eq_iff device dev,
)

pub cursor_of-empty : (device : String) (id : ℕ) → cursor_of Dict.empty device id ≡ none
unfolding cursor_of
cursor_of-empty device id = simp dict_laws

pub new_memory_store-IsLogged : (max : ℕ) → IsLogged (new_memory_store max)
new_memory_store-IsLogged max = record {
  ascending = tt;
  issued = tt;
  indexed = λ device id. unfold find_single in cursor_of-empty device id;
  distinct = tt;
}

Distinct-append :
    (rows : List DeletionRecord) (r : DeletionRecord)
    → (is_single r.kind ≡ true → find_single r.device_key r.message_id rows ≡ none)
    → Distinct rows
    → Distinct (rows ++ r ∷ [])
unfolding find_single
Distinct-append [] r new d = (λ h. refl, tt)
Distinct-append (x ∷ rows) r new d = (
  λ h. ground (
    arith,
    d.0 h,
    new,
    find_single-append x.device_key x.message_id rows r,
    str_eq_iff x.device_key r.device_key,
    str_eq_iff r.device_key x.device_key,
  ),
  Distinct-append rows r (λ h. ground (arith, new h)) d.1,
)

-- The index follows a row that is appended.
append_row-indexed :
    (r : DeletionRecord) (s : MemoryStore)
    → (is_single r.kind ≡ true → find_single r.device_key r.message_id s.dels ≡ none)
    → ((device : String) (i : ℕ) → cursor_of s.del_msg device i ≡ find_single device i s.dels)
    → (device : String) (i : ℕ)
    → cursor_of (append_row r s).1.del_msg device i ≡ find_single device i (append_row r s).1.dels
unfolding append_row
append_row-indexed r s new old device i =
    let id = succ_uint64 s.del_seq in
    let row = record r { id = id } in
    elim (Option-cases (find_single device i s.dels)) [
      | inl e ↦ ground (
        arith,
        e,
        old device i,
        find_single-append device i s.dels row e,
        cursor_of-set s.del_msg r.device_key device r.message_id i id,
      )
      | inr (c, e) ↦ ground (
        arith,
        e,
        new,
        old device i,
        find_single-append_some device i c s.dels row e,
        cursor_of-set s.del_msg r.device_key device r.message_id i id,
        str_eq_iff r.device_key device,
      )
    ]

-- A row that is not yet in the log is appended.
append_row-IsLogged :
    (r : DeletionRecord) (s : MemoryStore)
    → HasRoom s.del_seq
    → (is_single r.kind ≡ true → find_single r.device_key r.message_id s.dels ≡ none)
    → IsLogged s
    → IsLogged (append_row r s).1
unfolding append_row
append_row-IsLogged r s room new v =
    let id = succ_uint64 s.del_seq in
    let row = record r { id = id } in
    record {
      ascending = rw (cursors-append s.dels row) (
          Ascending-append 0 s.del_seq id (cursors s.dels) (omega arith) (omega arith) v.ascending
            v.issued);
      issued = rw (cursors-append s.dels row) (
          All-append _ (cursors s.dels) (id ∷ [])
            (All-le_mono s.del_seq id (cursors s.dels) (omega arith) v.issued) (omega arith, tt));
      indexed = λ device i. append_row-indexed r s new v.indexed device i;
      distinct = Distinct-append s.dels row new v.distinct;
    }

-- Only the log matters to its invariant.
pub IsLogged-same :
    (s t : MemoryStore)
    → t.del_seq ≡ s.del_seq
    → t.dels ≡ s.dels
    → t.del_msg ≡ s.del_msg
    → IsLogged s
    → IsLogged t
IsLogged-same s t seq rows index v = record {
  ascending = rw rows v.ascending;
  issued = rw (rows, seq) v.issued;
  indexed = λ device i. rw (rows, index) (v.indexed device i);
  distinct = rw rows v.distinct;
}

module _ (now : ℤ) (r : DeletionRecord) (s : MemoryStore) where
  -- A row is dropped where the index knows one for the message, and appended otherwise.
  pub add_deletion_outcome :
      ((c : ℕ) × (is_single r.kind ≡ true)
        × (cursor_of s.del_msg r.device_key r.message_id ≡ some c)
        × (add_deletion now r s ≡ (c, s)))
      ⊎ (is_single r.kind ≡ true → cursor_of s.del_msg r.device_key r.message_id ≡ none)
        × (add_deletion now r s ≡ append_row (stamped now r) s)
  unfolding add_deletion
  add_deletion_outcome = elim (Bool-cases (is_single r.kind)) [
    | inr e ↦ inr (λ h. cc, rw (e, add_deletion))
    | inl e ↦ elim (Option-cases (cursor_of s.del_msg r.device_key r.message_id)) [
      | inl new ↦ inr (λ h. new, rw (e, new, add_deletion))
      | inr (c, old) ↦ inl (c, e, old, rw (e, old, add_deletion))
    ]
  ]

  pub add_deletion-IsLogged : HasRoom s.del_seq → IsLogged s → IsLogged (add_deletion now r s).1
  unfolding stamped
  add_deletion-IsLogged room v = elim add_deletion_outcome [
    | inl (c, e, old, same) ↦ rw same v
    | inr (new, appended) ↦ rw appended (
        append_row-IsLogged (stamped now r) s room
          (λ h. ground (arith, new, v.indexed r.device_key r.message_id)) v)
  ]
