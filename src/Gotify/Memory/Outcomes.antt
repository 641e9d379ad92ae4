-- ===== src/Gotify/Memory/Outcomes.antt =====
-- The writes of memoryStore that search or test first: what each does on each of its branches.
use mathlib.Core.List.{reverse}
use timelynotify_server.Base.{
  ℕ, ◌||◌, String, true, List, [], ◌∷◌, none, some, ℤ, ◌≡◌, ◌⊎◌, sym, ◌∙◌, arith, Text,
  Option-cases, Bool-cases, inl, inr, nat_key, string_key, text_key, str_eq_iff, ◌==◌,
}
use timelynotify_server.Base.Ascending.{mem, mem-reverse}
use timelynotify_server.Base.Strings.{text_eq_iff}
use timelynotify_server.Base.Dict
use timelynotify_server.Gotify.Model.{Message, source_device, extra_id_of, extra_row}
use timelynotify_server.Gotify.Memory.{
  MemoryStore, message_at, add_deletion, remove_logged, store_message, add, upsert_by_extra_id,
  delete_scoped, delete_by_extra_id, find_extra, of_device,
}

-- What the scan finds is one of the ids that it visits, and its message is of the device and
-- carries the extras.id.
pub find_extra-Fits :
    (s : MemoryStore) (device : String) (extra_id : Text) (ids : List ℕ) (id : ℕ)
    → find_extra s device extra_id ids ≡ some id
    → (mem id ids ≡ true)
      × (source_device (message_at s id) ≡ device)
      × (extra_id_of (message_at s id) ≡ extra_id)
unfolding find_extra
find_extra-Fits s device extra_id [] id h = cc
find_extra-Fits s device extra_id (x ∷ ids) id h = ground (
  arith,
  find_extra-Fits s device extra_id ids id,
  str_eq_iff (source_device (message_at s x)) device,
  text_eq_iff (extra_id_of (message_at s x)) extra_id,
)

module _ (now : ℤ) (device : String) (extra_id : Text) where
  -- An upsert appends, or it overwrites the message that the scan found.
  pub upsert_outcome :
      (m : Message) (s : MemoryStore)
      → ((upsert_by_extra_id now device extra_id m s).1 ≡ (add now m s).1)
        ⊎ ((id : ℕ) × (mem id s.order ≡ true)
            × (find_extra s device extra_id (reverse s.order) ≡ some id)
            × ((upsert_by_extra_id now device extra_id m s).1 ≡ store_message id m s))
  unfolding upsert_by_extra_id
  upsert_outcome m s = elim (Option-cases (find_extra s device extra_id (reverse s.order))) [
    | inl e ↦ inl (ground arith)
    | inr (id, e) ↦ elim (Bool-cases ((extra_id == []) || (device == ""))) [
      | inl skip ↦ inl (rw (skip, upsert_by_extra_id))
      | inr go ↦ inr (
        id,
        sym (mem-reverse id s.order) ∙ (find_extra-Fits s device extra_id (reverse s.order) id e).0,
        e,
        rw (go, e),
      )
    ]
  ]

  pub delete_by_extra_id_outcome :
      (s : MemoryStore)
      → (find_extra s device extra_id (reverse s.order) ≡ none)
          × ((delete_by_extra_id now device extra_id s).1
              ≡ (add_deletion now (extra_row device extra_id) s).1)
        ⊎ ((id : ℕ) × (mem id s.order ≡ true)
            × (find_extra s device extra_id (reverse s.order) ≡ some id)
            × ((delete_by_extra_id now device extra_id s).1
                ≡ (add_deletion now (extra_row device extra_id) (remove_logged now id s)).1))
  unfolding delete_by_extra_id
  delete_by_extra_id_outcome s =
      elim (Option-cases (find_extra s device extra_id (reverse s.order))) [
        | inl e ↦ inl (e, rw e)
        | inr (id, e) ↦ inr (
          id,
          (sym (mem-reverse id s.order)
              ∙ (find_extra-Fits s device extra_id (reverse s.order) id e).0),
          e,
          rw e,
        )
      ]

-- A scoped delete removes the message if it is stored and of the device, and does nothing else.
pub delete_scoped_outcome :
    (now : ℤ) (id : ℕ) (device : String) (s : MemoryStore)
    → ((delete_scoped now id device s).1 ≡ s)
      ⊎ ((m : Message) × (Dict.get s.msgs id ≡ some m)
          × (of_device device m ≡ true)
          × ((delete_scoped now id device s).1 ≡ remove_logged now id s))
unfolding delete_scoped
delete_scoped_outcome now id device s = elim (Option-cases (Dict.get s.msgs id)) [
  | inl e ↦ inl (rw (e, delete_scoped))
  | inr (m, e) ↦ elim (Bool-cases (of_device device m)) [
    | inl own ↦ inr (m, e, own, rw (e, own, delete_scoped))
    | inr other ↦ inl (rw (e, other, delete_scoped))
  ]
]
