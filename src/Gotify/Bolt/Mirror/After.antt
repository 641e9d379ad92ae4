-- ===== src/Gotify/Bolt/Mirror/After.antt =====
-- internal/gotifycompat/store.go: AfterByDevice of a bboltStore that holds what a memoryStore holds, by the
-- index of the devices.
use mathlib.Core.Path.{subst}
use mathlib.Core.List.{append-nil}
use timelynotify_server.Base.{
  ℕ, zero, suc, ◌+◌, String, true, false, List, [], ◌∷◌, ◌++◌, some, ℤ, pos, negsuc, map, ltb, leb,
  length, ◌≡◌, refl, sym, ap, arith, All, Bool-cases, inl, inr, ◌==◌, string_key, select, take,
  take-map, length-append, append_cons, All-select,
}
use timelynotify_server.Base.Ascending.{mem}
use timelynotify_server.Gotify.Model.{Message, source_device}
use timelynotify_server.Gotify.Memory.{MemoryStore, message_at, of_device}
use timelynotify_server.Gotify.Memory.Reads
use timelynotify_server.Gotify.Memory.Reads.{within, before, message_matches, page_of, max_int}
use timelynotify_server.Gotify.Memory.Reads.Pages
use timelynotify_server.Gotify.Memory.Reads.Pages.{history}
use timelynotify_server.Gotify.Bolt.{Format, BoltStore}
use timelynotify_server.Gotify.Bolt.Table
use timelynotify_server.Gotify.Bolt.Table.{keys}
use timelynotify_server.Gotify.Bolt.Reads.{after_loop, after_by_device}
use timelynotify_server.Gotify.Bolt.Mirror.Reads.{seen_page, page_of-map}
use timelynotify_server.Gotify.Bolt.Mirror.{
  Accepts, seen, get-mirrors, ids_of-entry, MirrorsMessages, owned,
}

All-mem_weaken :
    (x : ℕ) (xs ys : List ℕ)
    → All (λ id. mem id xs ≡ true) ys
    → All (λ id. mem id (x ∷ xs) ≡ true) ys
All-mem_weaken x xs [] h = tt
All-mem_weaken x xs (y ∷ ys) h = (ground arith, All-mem_weaken x xs ys h.1)

-- Each element of a list is a member of it.
All-mem : (xs : List ℕ) → All (λ id. mem id xs ≡ true) xs
All-mem [] = tt
All-mem (x ∷ xs) = (ground arith, All-mem_weaken x xs xs (All-mem xs))

map-map :
    (f : Message → Message) (s : MemoryStore) (ids : List ℕ)
    → map (λ id. f (message_at s id)) ids ≡ map f (map (message_at s) ids)
map-map f s [] = refl
map-map f s (id ∷ ids) = ap (◌∷◌ (f (message_at s id))) (map-map f s ids)

module _ {B : Type 0} (format : Format B) (accepts : Accepts format) (b : BoltStore B)
    (s : MemoryStore) (h : MirrorsMessages format accepts b s) where
  abbrev newer : ℕ → List ℕ → List ℕ
  newer after = select (ltb after)

  -- What is left of the message under the id.
  abbrev left_at : ℕ → Message
  left_at id = seen format accepts (message_at s id)

  -- With room for `k` more rows the walk behind the prefix appends the first `k` newer messages.
  after_loop-take :
      (after : ℕ) (ids : List ℕ) (limit k : ℕ) (out : List Message)
      → All (λ id. mem id (keys b.msgs) ≡ true) ids
      → length out + k ≡ limit + 1
      → after_loop format b.msgs after limit ids out
        ≡ some (out ++ take k (map left_at (newer after ids)))
  unfolding after_loop
  after_loop-take after [] limit zero out stored room = rw append-nil refl
  after_loop-take after [] limit (suc k) out stored room = rw append-nil refl
  after_loop-take after (id ∷ ids) limit zero out stored room =
      let full : ltb (length out) (limit + 1) ≡ false = ground arith in rw (full, append-nil) refl
  after_loop-take after (id ∷ ids) limit (suc k) out stored room =
      let open_ : ltb (length out) (limit + 1) ≡ true = ground arith in
      let (raw, found, reads) = get-mirrors format accepts s b.msgs id h.reads stored.0 in
      elim (Bool-cases (ltb after id)) [
        | inr old ↦
            let seen : leb id after ≡ true = ground arith in
            rw (open_, seen, old) (after_loop-take after ids limit (suc k) out stored.1 room)
        | inl new ↦
            let unseen : leb id after ≡ false = ground arith in
            let one : length (out ++ left_at id ∷ []) + k ≡ limit + 1 =
              omega (arith, length-append out (left_at id ∷ [])) in
            rw
              (
                open_,
                unseen,
                new,
                found,
                reads.decoded,
                reads.same,
                after_loop-take after ids limit k (out ++ left_at id ∷ []) stored.1 one,
                append_cons out (left_at id) (take k (map left_at (newer after ids))),
              )
              refl
      ]

  index_ids : (device : String) → Table.ids_of b.dev_msgs device ≡ owned s device s.order
  index_ids device = rw (h.index, ids_of-entry s device b.msgs) (ap (owned s device) h.ids)

  stored_ids : All (λ id. mem id (keys b.msgs) ≡ true) s.order
  stored_ids = subst (λ l. All (λ id. mem id l ≡ true) s.order) (sym h.ids) (All-mem s.order)

  -- The index and the history name the same messages.
  history-owned :
      (device : String) (after : ℕ) (ids : List ℕ)
      → (device == "") ≡ false
      → map (message_at s) (newer after (owned s device ids)) ≡ history s device (ltb after) ids
  unfolding history of_device
  history-owned device after [] named = refl
  history-owned device after (id ∷ ids) named =
      let rest = history-owned device after ids named in
      elim (Bool-cases (source_device (message_at s id) == device)) [
        | inr foreign ↦ elim (Bool-cases (ltb after id)) [
          | inl new ↦ rw (foreign, named, new) rest
          | inr old ↦ rw (foreign, old) rest
        ]
        | inl own ↦ elim (Bool-cases (ltb after id)) [
          | inl new ↦ rw (own, named, new) (ap (◌∷◌ (message_at s id)) rest)
          | inr old ↦ rw (own, old) rest
        ]
      ]

  owned-stored :
      (device : String) (ids : List ℕ)
      → All (λ id. mem id (keys b.msgs) ≡ true) ids
      → All (λ id. mem id (keys b.msgs) ≡ true) (owned s device ids)
  owned-stored device ids = All-select _ (λ id. source_device (message_at s id) == device) ids

  -- AfterByDevice of a bboltStore that holds what a memoryStore holds returns what is left of what the
  -- memoryStore returns, for a device that is not empty.
  pub after_by_device-mirrors :
      (device : String) (after : ℕ) (limit : ℤ)
      → (device == "") ≡ false
      → after_by_device format device after limit b
        ≡ seen_page format accepts (Reads.after_by_device device after limit s)
  unfolding after_by_device Reads.after_by_device
  after_by_device-mirrors device after (negsuc n) named = refl
  after_by_device-mirrors device after (pos zero) named = refl
  after_by_device-mirrors device after (pos (suc n)) named =
      let put = seen format accepts in
      let found = history s device (ltb after) s.order in
      elim (Bool-cases (ltb (suc n) max_int)) [
        | inr last ↦ rw last refl
        | inl next ↦
            rw
              (
                next,
                index_ids device,
                after_loop-take after (owned s device s.order) (suc n) (suc (suc n)) []
                    (owned-stored device s.order stored_ids) (omega arith),
                map-map put s (newer after (owned s device s.order)),
                history-owned device after s.order named,
                take-map put (suc (suc n)) found,
                page_of-map format accepts (suc n) (take (suc (suc n)) found),
                Pages.after_loop-take s device after s.order (suc n) (suc n) [] (omega arith),
              )
              refl
      ]
