-- ===== src/Gotify/Memory/Reads/Pages.antt =====
-- The pages of memoryStore against the history as a list.
use mathlib.Core.List.{reverse, append-nil}
use timelynotify_server.Base.{
  ℕ, zero, suc, ◌+◌, String, Bool, true, false, ◌&&◌, List, [], ◌∷◌, ◌++◌, none, some, ℤ, pos,
  negsuc, nat_eq, ltb, if◌then◌else◌, length, take, ◌≡◌, refl, ap, arith, Bool-cases, inl, inr,
  length-append, append_cons,
}
use timelynotify_server.Gotify.Model.{Message}
use timelynotify_server.Gotify.Memory.{MemoryStore, message_at, of_device}
use timelynotify_server.Gotify.Memory.Reads.{
  before, visit, recent_loop, recent_by_device, page_of, max_int, recent_page_by_device, after_loop,
  after_by_device,
}

-- The messages of the device among `ids` whose id passes a test, in the order of `ids`.
unfoldable pub history : MemoryStore → String → (ℕ → Bool) → List ℕ → List Message
history s device fits [] = []
history s device fits (id ∷ ids) =
    let rest = history s device fits ids in
    if fits id && of_device device (message_at s id) then message_at s id ∷ rest else rest

module _ (s : MemoryStore) (device : String) where
  -- A loop with room for `k` more rows appends the first `k` of the history.
  recent_loop-take :
      (since : ℕ) (ids : List ℕ) (limit k : ℕ) (out : List Message)
      → length out + k ≡ limit
      → recent_loop s device (pos limit) since ids out
        ≡ out ++ take k (history s device (before since) ids)
  unfolding recent_loop history visit
  recent_loop-take since [] limit zero out h = rw append-nil
  recent_loop-take since [] limit (suc k) out h = rw append-nil
  recent_loop-take since (id ∷ ids) limit zero out h =
      let full : ltb (length out) limit ≡ false = ground arith in rw (full, append-nil)
  recent_loop-take since (id ∷ ids) limit (suc k) out h =
      let room : ltb (length out) limit ≡ true = ground arith in
      let m = message_at s id in
      elim (Bool-cases (before since id && of_device device m)) [
        | inl fits ↦
            let one : length (out ++ m ∷ []) + k ≡ limit =
              omega (arith, length-append out (m ∷ [])) in
            rw (room, fits, recent_loop-take since ids limit k (out ++ m ∷ []) one)
              (append_cons out m _)
        | inr misses ↦ rw (room, misses, recent_loop-take since ids limit (suc k) out h)
      ]

  -- Without a limit it appends all of it.
  recent_loop-all :
      (since n : ℕ) (ids : List ℕ) (out : List Message)
      → recent_loop s device (negsuc n) since ids out ≡ out ++ history s device (before since) ids
  unfolding recent_loop history visit
  recent_loop-all since n [] out = rw append-nil
  recent_loop-all since n (id ∷ ids) out =
      let m = message_at s id in
      ground (
        arith,
        append_cons out m (history s device (before since) ids),
        recent_loop-all since n ids (out ++ m ∷ []),
        recent_loop-all since n ids out,
      )

  pub after_loop-take :
      (after : ℕ) (ids : List ℕ) (limit k : ℕ) (out : List Message)
      → length out + k ≡ limit
      → after_loop s device after limit ids out
        ≡ out ++ take (suc k) (history s device (ltb after) ids)
  unfolding after_loop history
  after_loop-take after [] limit k out h = rw append-nil
  after_loop-take after (id ∷ ids) limit zero out h =
      let m = message_at s id in
      elim (Bool-cases (ltb after id && of_device device m)) [
        | inl fits ↦
            let full : nat_eq (length (out ++ m ∷ [])) (limit + 1) ≡ true =
              ground (arith, length-append out (m ∷ [])) in
            rw (fits, full)
        | inr misses ↦ rw (misses, after_loop-take after ids limit zero out h)
      ]
  after_loop-take after (id ∷ ids) limit (suc k) out h =
      let m = message_at s id in
      elim (Bool-cases (ltb after id && of_device device m)) [
        | inl fits ↦
            let one : length (out ++ m ∷ []) + k ≡ limit =
              omega (arith, length-append out (m ∷ [])) in
            let room : nat_eq (length (out ++ m ∷ [])) (limit + 1) ≡ false = ground arith in
            rw (fits, room, after_loop-take after ids limit k (out ++ m ∷ []) one)
              (append_cons out m _)
        | inr misses ↦ rw (misses, after_loop-take after ids limit (suc k) out h)
      ]

module _ {ℓ} {A : Type ℓ} where
  length-take-suc :
      (n : ℕ) (rows : List A) → ltb n (length (take (suc n) rows)) ≡ ltb n (length rows)
  length-take-suc n [] = refl
  length-take-suc zero (x ∷ rows) = ground arith
  length-take-suc (suc n) (x ∷ rows) = ground (arith, length-take-suc n rows)

  take-take-suc : (n : ℕ) (rows : List A) → take n (take (suc n) rows) ≡ take n rows
  take-take-suc zero rows = refl
  take-take-suc (suc n) [] = refl
  take-take-suc (suc n) (x ∷ rows) = ap (◌∷◌ x) (take-take-suc n rows)

  take_within :
      (n : ℕ) (rows : List A) → ltb n (length rows) ≡ false → take (suc n) rows ≡ take n rows
  take_within zero [] h = refl
  take_within (suc n) [] h = refl
  take_within zero (x ∷ rows) h = absurd (ground arith)
  take_within (suc n) (x ∷ rows) h = ap (◌∷◌ x) (take_within n rows (ground arith))

-- One row more than the page holds decides whether more is behind it.
page_of-take :
    (n : ℕ) (rows : List Message)
    → page_of n (take (suc n) rows) ≡ (take n rows, ltb n (length rows))
page_of-take n rows = elim (Bool-cases (ltb n (length rows))) [
  | inl more ↦ rw (length-take-suc n rows, more, take-take-suc n rows)
  | inr last ↦ rw (length-take-suc n rows, last, take_within n rows last)
]

-- What the documentation of the Store interface promises of a page of `rows`.
abbrev pub page : ℤ → List Message → List Message × Bool
page (negsuc _) rows = ([], false)
page (pos zero) rows = ([], false)
page (pos (suc n)) rows = (take (suc n) rows, ltb (suc n) (length rows))

-- The page has room for one row more: the limit is below the largest int.
abbrev pub has_next : ℤ → Bool
has_next (negsuc _) = true
has_next (pos n) = ltb n max_int

-- A negative limit keeps all rows, any other the first `limit`.
abbrev pub capped : ℤ → List Message → List Message
capped (negsuc _) rows = rows
capped (pos n) rows = take n rows

module _ (device : String) (s : MemoryStore) where
  -- The device's messages with an id below `since` (all of them at 0), newest first.
  abbrev pub newest : ℕ → List Message
  newest since = history s device (before since) (reverse s.order)

  -- The device's messages with an id above `after`, oldest first.
  abbrev pub oldest : ℕ → List Message
  oldest after = history s device (ltb after) s.order

  -- RecentPageByDevice returns the first `limit` of the device's messages below `since`, newest
  -- first, and reports more exactly when there are more than `limit`; at a limit of zero or less
  -- the page is empty and reports nothing. At math.MaxInt it panics, which is none.
  pub recent_page_by_device_lem :
      (limit : ℤ) (since : ℕ)
      → recent_page_by_device device limit since s
        ≡ (if has_next limit then some (page limit (newest since)) else none)
  unfolding recent_page_by_device
  recent_page_by_device_lem (negsuc n) since = refl
  recent_page_by_device_lem (pos zero) since = refl
  recent_page_by_device_lem (pos (suc n)) since =
      rw
        (
          recent_loop-take s device since (reverse s.order) (suc n + 1) (suc (suc n)) []
              (omega arith),
          page_of-take (suc n) (newest since),
        )
        refl

  -- AfterByDevice returns the first `limit` of the device's messages above `after`, oldest first,
  -- and reports more exactly when there are more than `limit`; at a limit of zero or less the page
  -- is empty and reports nothing. At math.MaxInt it panics, which is none.
  pub after_by_device_lem :
      (after : ℕ) (limit : ℤ)
      → after_by_device device after limit s
        ≡ (if has_next limit then some (page limit (oldest after)) else none)
  unfolding after_by_device
  after_by_device_lem after (negsuc n) = refl
  after_by_device_lem after (pos zero) = refl
  after_by_device_lem after (pos (suc n)) =
      rw
        (
          after_loop-take s device after s.order (suc n) (suc n) [] (omega arith),
          page_of-take (suc n) (oldest after),
        )
        refl

  -- RecentByDevice.
  pub recent_by_device_lem :
      (limit : ℤ) (since : ℕ) → recent_by_device device limit since s ≡ capped limit (newest since)
  unfolding recent_by_device
  recent_by_device_lem (negsuc n) since = recent_loop-all s device since n (reverse s.order) []
  recent_by_device_lem (pos zero) since = refl
  recent_by_device_lem (pos (suc n)) since =
      recent_loop-take s device since (reverse s.order) (suc n) (suc n) [] (omega arith)
