-- ===== src/Gotify/Bolt/Mirror.antt =====
-- internal/gotifycompat/store.go: when a bboltStore holds what a memoryStore holds.
pub mod Reads
pub mod After
pub mod Log
pub mod Rows
pub mod Removal
pub mod Adds
pub mod Evictions
pub mod Calls
pub mod Deletes
pub mod Upserts
pub mod Run
pub mod Answers
use mathlib.Core.Path.{subst}
use mathlib.Core.List.{reverse, reverse_aux}
use timelynotify_server.Base.{
  ℕ, String, Bool, true, false, List, [], ◌∷◌, ◌++◌, Option, none, some, ◌≡◌, refl, ap, arith, ◌==◌,
  nat_eq, string_key, All, select, map, length, if◌then◌else◌, Bool-cases, nat_eq→≡, ◌||◌, Text,
  pos, text_key, nat_key, inl, inr,
}
use timelynotify_server.Base.Ascending.{mem}
use timelynotify_server.Gotify.Value.{Extras}
use timelynotify_server.Gotify.Model.{Message, source_device, extra_id_of, DeletionRecord}
use timelynotify_server.Gotify.Memory.{MemoryStore, message_at}
use timelynotify_server.Gotify.Memory.Logged.{cursors}
use timelynotify_server.Gotify.Memory.Log.Range.{rows_of}
use timelynotify_server.Gotify.Bolt.{Format, BoltStore, with_id}
use timelynotify_server.Gotify.Bolt.Table
use timelynotify_server.Gotify.Bolt.Table.{keys}

-- The ids of the device's messages.
abbrev pub owned : MemoryStore → String → List ℕ → List ℕ
owned s device = select (λ id. source_device (message_at s id) == device)

-- The index entry of a message, and of a row of the log.
abbrev pub entry {ℓ} : {V : Type ℓ} → MemoryStore → ℕ × V → ℕ × String
entry s (id, _) = (id, source_device (message_at s id))

abbrev pub row_entry : DeletionRecord → ℕ × String
row_entry r = (r.id, r.device_key)

pub map-append {ℓ κ} :
    {A : Type ℓ} {B : Type κ} (f : A → B) (xs : List A) (x : A)
    → map f (xs ++ x ∷ []) ≡ map f xs ++ f x ∷ []
map-append f [] x = refl
map-append f (y ∷ xs) x = ap (◌∷◌ (f y)) (map-append f xs x)

pub ids_of-entry {ℓ} :
    {V : Type ℓ} (s : MemoryStore) (device : String) (rows : List (ℕ × V))
    → Table.ids_of (map (entry s) rows) device ≡ owned s device (keys rows)
unfolding Table.ids_of
ids_of-entry s device [] = refl
ids_of-entry s device ((id, v) ∷ t) =
    elim (Bool-cases (source_device (message_at s id) == device)) [
      | inl own ↦ rw own (ap (◌∷◌ id) (ids_of-entry s device t))
      | inr foreign ↦ rw foreign (ids_of-entry s device t)
    ]

pub ids_of-row_entry :
    (device : String) (rows : List DeletionRecord)
    → Table.ids_of (map row_entry rows) device ≡ cursors (rows_of device rows)
unfolding Table.ids_of
ids_of-row_entry device [] = refl
ids_of-row_entry device (r ∷ rows) = elim (Bool-cases (r.device_key == device)) [
  | inl own ↦ rw own (ap (◌∷◌ r.id) (ids_of-row_entry device rows))
  | inr foreign ↦ rw foreign (ids_of-row_entry device rows)
]

-- What bbolt and encoding/json do with what the store writes.
pub record Accepts {B : Type 0} (format : Format B) : Type 0 where
  -- The extras after json.Marshal and json.Unmarshal, where for example an int is a float64.
  pub read_extras : Extras → Extras
  -- Rows of the log fit, and read back as they were, if their device and their extra id do.
  pub room : Text → Bool
  pub room-empty : room [] ≡ true
  pub encodes_row :
      (r : DeletionRecord)
      → format.fits r.device_key ≡ true
      → room r.extra_id ≡ true
      → (raw : B) × (format.encode_row r ≡ some raw) × (format.decode_row raw ≡ some r)

module _ {B : Type 0} (format : Format B) (accepts : Accepts format) where
  -- What is left of a message that was written and read: DeviceKey and ExpiresAt stay out of JSON.
  abbrev pub seen : Message → Message
  seen m = record m { extras = accepts.read_extras m.extras; device_key = ""; expires_at = pos 0 }

  -- A message that can be written under any id, and whose device and extras.id survive.
  pub record Travels (m : Message) : Type 0 where
    pub stored :
        (id : ℕ)
        → (raw : B) × (format.encode (with_id m id) ≡ some raw)
          × (format.decode raw ≡ some (seen (with_id m id)))
    pub device : source_device (seen m) ≡ source_device m
    pub extra : extra_id_of (seen m) ≡ extra_id_of m
    pub fits : format.fits (source_device m) ≡ true

  -- The raw value under the id can be decoded to what is left of the message `x`.
  pub record Shows (x : Message) (id : ℕ) (raw : B) : Type 0 where
    pub read : Message
    pub decoded : format.decode raw ≡ some read
    pub same : with_id read id ≡ seen x
    pub device : source_device read ≡ source_device x
    pub extra : extra_id_of read ≡ extra_id_of x
    pub fits : format.fits (source_device x) ≡ true

  -- The row shows the message that the memoryStore has under its id.
  abbrev pub ReadsAs : MemoryStore → ℕ × B → Type 0
  ReadsAs s (id, raw) = Shows (message_at s id) id raw

  -- The messages, and the index of the devices.
  pub record MirrorsMessages (b : BoltStore B) (s : MemoryStore) : Type 0 where
    pub ids : keys b.msgs ≡ s.order
    pub reads : All (ReadsAs s) b.msgs
    pub index : b.dev_msgs ≡ map (entry s) b.msgs

module _ {B : Type 0} (format : Format B) where
  -- The row can be decoded to the row that the memoryStore has in the same place.
  abbrev pub MirrorsRows : List (ℕ × B) → List DeletionRecord → Type 0
  MirrorsRows [] [] = Unit
  MirrorsRows ((id, raw) ∷ t) (r ∷ rows) =
      (id ≡ r.id) × (format.decode_row raw ≡ some r) × MirrorsRows t rows
  MirrorsRows _ _ = ⊥

  -- The log, and its index of the devices.
  pub record MirrorsLog (b : BoltStore B) (s : MemoryStore) : Type 0 where
    pub rows : MirrorsRows b.dels s.dels
    pub index : b.del_dev ≡ map row_entry s.dels

module _ {ℓ} {V : Type ℓ} where
  keys-reverse_aux : (l a : List (ℕ × V)) → keys (reverse_aux l a) ≡ reverse_aux (keys l) (keys a)
  keys-reverse_aux [] a = refl
  keys-reverse_aux (p ∷ l) a = keys-reverse_aux l (p ∷ a)

  pub keys-reverse : (l : List (ℕ × V)) → keys (reverse l) ≡ reverse (keys l)
  keys-reverse l = keys-reverse_aux l []

module _ {ℓ κ} {A : Type ℓ} (P : A → Type κ) where
  All-reverse_aux : (l a : List A) → All P l → All P a → All P (reverse_aux l a)
  All-reverse_aux [] a h k = k
  All-reverse_aux (x ∷ l) a h k = All-reverse_aux l (x ∷ a) h.1 (h.0, k)

  pub All-reverse : (l : List A) → All P l → All P (reverse l)
  All-reverse l h = All-reverse_aux l [] h tt

module _ {B : Type 0} (format : Format B) (accepts : Accepts format) where
  -- The store holds the messages and the log of the memoryStore, and its counters.
  pub record Mirrors (b : BoltStore B) (s : MemoryStore) : Type 0 where
    pub messages : MirrorsMessages format accepts b s
    pub log : MirrorsLog format b s
    pub seq : b.seq ≡ s.seq
    pub max : b.max ≡ s.max
    pub del_seq : b.del_seq ≡ s.del_seq
    pub del_msg : b.del_msg ≡ s.del_msg

  -- The number of the messages is kept as well.
  abbrev pub Simulates : BoltStore B → MemoryStore → Type 0
  Simulates b s = Mirrors b s × (b.count ≡ length s.order)

  -- The count plays no part in what is read.
  pub with_count-Mirrors :
      (b : BoltStore B) (s : MemoryStore) (n : ℕ) → Mirrors b s → Mirrors (record b { count = n }) s
  with_count-Mirrors b s n h = record {
    messages = record { ids = h.messages.ids; reads = h.messages.reads; index = h.messages.index };
    log = record { rows = h.log.rows; index = h.log.index };
    seq = h.seq;
    max = h.max;
    del_seq = h.del_seq;
    del_msg = h.del_msg;
  }

  -- What a read under an id of the history finds.
  pub get-mirrors :
      (s : MemoryStore) (rows : List (ℕ × B)) (id : ℕ)
      → All (ReadsAs format accepts s) rows
      → mem id (keys rows) ≡ true
      → (raw : B) × (Table.get rows id ≡ some raw) × ReadsAs format accepts s (id, raw)
  unfolding Table.get
  get-mirrors s [] id h k = absurd (ground arith)
  get-mirrors s ((j, raw) ∷ t) id h k = elim (Bool-cases (nat_eq j id)) [
    | inl same ↦
        (raw, rw same refl, subst (λ i. ReadsAs format accepts s (i, raw)) (nat_eq→≡ j id same) h.0)
    | inr other ↦
        let (v, found, reads) = get-mirrors s t id h.1 (ground arith) in (v, rw other found, reads)
  ]

pub get-absent {ℓ} :
    {V : Type ℓ} (rows : List (ℕ × V)) (id : ℕ)
    → mem id (keys rows) ≡ false
    → Table.get rows id ≡ none
unfolding Table.get
get-absent [] id h = refl
get-absent ((j, v) ∷ t) id h =
    let other : nat_eq j id ≡ false = ground arith in rw other (get-absent t id (ground arith))
