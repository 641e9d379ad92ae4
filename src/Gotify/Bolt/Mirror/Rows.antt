-- ===== src/Gotify/Bolt/Mirror/Rows.antt =====
-- internal/gotifycompat/store.go: addDeletionTx on a bboltStore that holds what a memoryStore holds.
use timelynotify_server.Base.{
  ℕ, ◌+◌, ◌^◌, ◌<◌, true, List, [], ◌∷◌, ◌++◌, none, some, ℤ, ◌≡◌, refl, sym, ap, ◌∙◌, is_zero_ℤ,
  arith, All, if◌then◌else◌, Bool-cases, inl, inr,
}
use timelynotify_server.Gotify.Model.{DeletionRecord, succ_uint64}
use timelynotify_server.Gotify.Memory.{
  MemoryStore, is_single, cursor_of, stamped, append_row, add_deletion, set_cursor, message_at,
}
use timelynotify_server.Gotify.Memory.Logged.{cursors, IsLogged, add_deletion_outcome}
use timelynotify_server.Gotify.Bolt.{
  Format, BoltStore, put_pair, put_deletion, next_deletion, add_deletion_tx,
}
use timelynotify_server.Gotify.Bolt.Table
use timelynotify_server.Gotify.Bolt.Table.{keys}
use timelynotify_server.Gotify.Bolt.Entries.{Below, Below-le, put_last, index_put_last}
use timelynotify_server.Gotify.Bolt.Mirror.{map-append, row_entry, MirrorsRows, Accepts, Mirrors}

device_key-stamped : (now : ℤ) (r : DeletionRecord) → (stamped now r).device_key ≡ r.device_key
unfolding stamped
device_key-stamped now r = elim (Bool-cases (is_zero_ℤ r.created_at)) [
  | inl unset ↦ rw unset refl
  | inr set ↦ rw set refl
]

extra_id-stamped : (now : ℤ) (r : DeletionRecord) → (stamped now r).extra_id ≡ r.extra_id
unfolding stamped
extra_id-stamped now r = elim (Bool-cases (is_zero_ℤ r.created_at)) [
  | inl unset ↦ rw unset refl
  | inr set ↦ rw set refl
]

-- What holds of the cursors holds of the rows.
All-cursors {ℓ} :
    (P : ℕ → Type ℓ) (rows : List DeletionRecord) → All P (cursors rows) → All (λ r. P r.id) rows
All-cursors P [] h = tt
All-cursors P (r ∷ rows) h = (h.0, All-cursors P rows h.1)

module _ {B : Type 0} (format : Format B) where
  MirrorsRows-keys :
      (t : List (ℕ × B)) (rows : List DeletionRecord)
      → MirrorsRows format t rows
      → keys t ≡ cursors rows
  MirrorsRows-keys [] [] h = refl
  MirrorsRows-keys [] (r ∷ rows) h = elim h [ ]
  MirrorsRows-keys ((id, raw) ∷ t) [] h = elim h [ ]
  MirrorsRows-keys ((id, raw) ∷ t) (r ∷ rows) h =
      rw h.0 (ap (◌∷◌ r.id) (MirrorsRows-keys t rows h.2))

  MirrorsRows-append :
      (t : List (ℕ × B)) (rows : List DeletionRecord) (r : DeletionRecord) (raw : B)
      → MirrorsRows format t rows
      → format.decode_row raw ≡ some r
      → MirrorsRows format (t ++ (r.id, raw) ∷ []) (rows ++ r ∷ [])
  MirrorsRows-append [] [] r raw h d = (refl, d, tt)
  MirrorsRows-append [] (x ∷ rows) r raw h d = elim h [ ]
  MirrorsRows-append ((id, v) ∷ t) [] r raw h d = elim h [ ]
  MirrorsRows-append ((id, v) ∷ t) (x ∷ rows) r raw h d =
      (h.0, h.1, MirrorsRows-append t rows r raw h.2 d)

  module _ (now : ℤ) (r : DeletionRecord) (b : BoltStore B) where
    add_deletion_tx-fresh :
        (is_single r.kind ≡ true → cursor_of b.del_msg r.device_key r.message_id ≡ none)
        → add_deletion_tx format now r b ≡ next_deletion format (stamped now r) b
    unfolding add_deletion_tx
    add_deletion_tx-fresh new = elim (Bool-cases (is_single r.kind)) [
      | inl e ↦ rw (e, new e, add_deletion_tx) refl
      | inr e ↦ rw (e, add_deletion_tx) refl
    ]

    add_deletion_tx-known :
        (c : ℕ)
        → is_single r.kind ≡ true
        → cursor_of b.del_msg r.device_key r.message_id ≡ some c
        → add_deletion_tx format now r b ≡ some (c, b)
    unfolding add_deletion_tx
    add_deletion_tx-known c e old = rw (e, old, add_deletion_tx) refl

  module _ (accepts : Accepts format) (b : BoltStore B) (s : MemoryStore)
      (h : Mirrors format accepts b s) (v : IsLogged s) where
    -- A row that is appended on both sides.
    append_row-Mirrors :
        (r : DeletionRecord)
        → format.fits r.device_key ≡ true
        → accepts.room r.extra_id ≡ true
        → s.del_seq + 1 < 2 ^ 64
        → (b' : BoltStore B) × (next_deletion format r b ≡ some ((append_row r s).0, b'))
          × Mirrors format accepts b' (append_row r s).1
          × (b'.count ≡ b.count)
    unfolding next_deletion put_deletion put_pair append_row message_at
    append_row-Mirrors r fit short room =
        let id = succ_uint64 s.del_seq in
        let (raw, encoded, decoded) = accepts.encodes_row (record r { id = id }) fit short in
        let new : s.del_seq < id = omega arith in
        let b' : BoltStore B = record b {
          del_seq = id;
          dels = Table.put b.dels id raw;
          del_dev = Table.index_put b.del_dev id r.device_key;
          del_msg =
              if is_single r.kind
              then set_cursor b.del_msg r.device_key r.message_id id
              else b.del_msg;
        } in
        let below : Below id (keys b.dels) =
          rw (MirrorsRows-keys b.dels s.dels h.log.rows)
            (Below-le s.del_seq id (cursors s.dels) new v.issued) in
        let before : All (λ x. x.id < id) s.dels =
          All-cursors (λ c. c < id) s.dels (Below-le s.del_seq id (cursors s.dels) new v.issued) in
        (
          b',
          rw (h.del_seq, encoded, fit) refl,
          record {
            messages = record {
              ids = h.messages.ids;
              reads = h.messages.reads;
              index = h.messages.index;
            };
            log = record {
              rows =
                  rw (put_last b.dels id raw below) (
                    MirrorsRows-append b.dels s.dels (record r { id = id }) raw h.log.rows decoded);
              index =
                  rw (h.log.index, index_put_last row_entry s.dels id r.device_key before)
                    (sym (map-append row_entry s.dels (record r { id = id })));
            };
            seq = h.seq;
            max = h.max;
            del_seq = refl;
            del_msg = rw h.del_msg refl;
          },
          refl,
        )

    -- addDeletionTx of a row that fits succeeds, returns what the memoryStore returns, and keeps the stores alike.
    pub add_deletion_tx-Mirrors :
        (now : ℤ) (r : DeletionRecord)
        → format.fits r.device_key ≡ true
        → accepts.room r.extra_id ≡ true
        → s.del_seq + 1 < 2 ^ 64
        → (b' : BoltStore B) × (add_deletion_tx format now r b
            ≡ some ((add_deletion now r s).0, b'))
          × Mirrors format accepts b' (add_deletion now r s).1
          × (b'.count ≡ b.count)
    add_deletion_tx-Mirrors now r fit short room = elim (add_deletion_outcome now r s) [
      | inl (c, single, old, same) ↦
          rw (same, add_deletion_tx-known now r b c single (rw h.del_msg old)) (b, refl, h, refl)
      | inr (new, appended) ↦
          rw (appended, add_deletion_tx-fresh now r b (λ e. rw h.del_msg (new e)))
            (append_row-Mirrors (stamped now r) (ap format.fits (device_key-stamped now r) ∙ fit)
              (ap accepts.room (extra_id-stamped now r) ∙ short) room)
    ]
