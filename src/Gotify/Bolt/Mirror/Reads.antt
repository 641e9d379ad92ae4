-- ===== src/Gotify/Bolt/Mirror/Reads.antt =====
-- internal/gotifycompat/store.go: the reads of a bboltStore that holds what a
-- memoryStore holds.
use mathlib.Core.List.{reverse}
use timelynotify_server.Base.{
  ℕ, zero, suc, ◌+◌, Bool, Option, none, ltb, length-map, take-map, String, ◌&&◌, List, [], ◌∷◌,
  ◌++◌, some, ℤ, pos, negsuc, is_zero_ℤ, Text, map, length, ◌≡◌, refl, sym, ap, ◌∙◌, All,
  Bool-cases, inl, inr, if◌then◌else◌, string_key,
}
use timelynotify_server.Gotify.Model.{Message}
use timelynotify_server.Gotify.Memory.{MemoryStore, message_at, of_device}
use timelynotify_server.Gotify.Memory.Reads
use timelynotify_server.Gotify.Memory.Reads.{within, before, message_matches, page_of, max_int}
use timelynotify_server.Gotify.Bolt.{Format, BoltStore}
use timelynotify_server.Gotify.Bolt.Table.{keys}
use timelynotify_server.Gotify.Bolt.Reads.{
  recent_loop, recent_by_device, recent_page_by_device, search_loop, search_by_device,
}
use timelynotify_server.Gotify.Bolt.Mirror.{
  Accepts, Shows, seen, map-append, ReadsAs, MirrorsMessages, keys-reverse, All-reverse,
}

module _ {B : Type 0} (format : Format B) (accepts : Accepts format) where
  -- What is left of the rows of an answer, and of a page that may fail.
  abbrev pub seen_rows {ℓ} : {A : Type ℓ} → List Message × A → List Message × A
  seen_rows (rows, rest) = (map (seen format accepts) rows, rest)

  abbrev pub seen_page : Option (List Message × Bool) → Option (List Message × Bool)
  seen_page none = none
  seen_page (some p) = some (seen_rows p)

  pub page_of-map :
      (n : ℕ) (rows : List Message)
      → page_of n (map (seen format accepts) rows) ≡ seen_rows (page_of n rows)
  page_of-map n rows = elim (Bool-cases (ltb n (length rows))) [
    | inl more ↦ rw (length-map, more, take-map) refl
    | inr last ↦ rw (length-map, last) refl
  ]

-- The decoded message has the device of the message that it shows.
pub of_device-shown :
    {B : Type 0} (format : Format B) (accepts : Accepts format) (device : String) (x : Message)
    (id : ℕ) (raw : B) (h : Shows format accepts x id raw)
    → of_device device h.read ≡ of_device device x
unfolding of_device
of_device-shown format accepts device x id raw h = rw h.device refl

message_matches-shown :
    {B : Type 0} (format : Format B) (accepts : Accepts format) (lower : ℕ → ℕ) (keyword : Text)
    (x : Message) (id : ℕ) (raw : B) (h : Shows format accepts x id raw)
    → message_matches lower h.read keyword ≡ message_matches lower x keyword
unfolding message_matches
message_matches-shown format accepts lower keyword x id raw h =
    ap (λ m. message_matches lower m keyword) h.same

module _ {B : Type 0} (format : Format B) (accepts : Accepts format) (device : String) where
  recent_loop-mirrors :
      (s : MemoryStore) (limit : ℤ) (since : ℕ) (rows : List (ℕ × B)) (out : List Message)
      → All (ReadsAs format accepts s) rows
      → recent_loop format device limit since rows (map (seen format accepts) out)
        ≡ some (map (seen format accepts) (Reads.recent_loop s device limit since (keys rows) out))
  unfolding recent_loop Reads.recent_loop Reads.visit
  recent_loop-mirrors s limit since [] out h = refl
  recent_loop-mirrors s limit since ((id, raw) ∷ t) out h =
      let shown = h.0 in
      let x = message_at s id in
      let own = of_device-shown format accepts device x id raw shown in
      let next = sym (map-append (seen format accepts) out x) in
      elim (Bool-cases (within limit (length out))) [
        | inr full ↦ rw (length-map, full) refl
        | inl room ↦ elim (Bool-cases (before since id)) [
          | inr late ↦ rw (length-map, room, late) (recent_loop-mirrors s limit since t out h.1)
          | inl early ↦ elim (Bool-cases (of_device device x)) [
            | inl fits ↦
                rw (length-map, room, early, shown.decoded, shown.same, own, fits, next)
                  (recent_loop-mirrors s limit since t (out ++ x ∷ []) h.1)
            | inr misses ↦
                rw (length-map, room, early, shown.decoded, own, misses)
                  (recent_loop-mirrors s limit since t out h.1)
          ]
        ]
      ]

  search_loop-mirrors :
      (lower : ℕ → ℕ) (s : MemoryStore) (keyword : Text) (limit : ℤ) (since : ℕ)
      (rows : List (ℕ × B)) (out : List Message) (total : ℕ)
      → All (ReadsAs format accepts s) rows
      → search_loop format lower device keyword limit since rows
          (map (seen format accepts) out, total)
        ≡ some (
            seen_rows format accepts
              (Reads.search_loop lower s device keyword limit since (keys rows) (out, total)))
  unfolding search_loop Reads.search_loop
  search_loop-mirrors lower s keyword limit since [] out total h = refl
  search_loop-mirrors lower s keyword limit since ((id, raw) ∷ t) out total h =
      let shown = h.0 in
      let x = message_at s id in
      let own = of_device-shown format accepts device x id raw shown in
      let hit = message_matches-shown format accepts lower keyword x id raw shown in
      let next = sym (map-append (seen format accepts) out x) in
      let fits = of_device device x && message_matches lower x keyword in
      let total' = if fits then total + 1 else total in
      let all = before since id && of_device device x && message_matches lower x keyword in
      let step : Reads.search_loop lower s device keyword limit since (id ∷ keys t) (out, total)
          ≡ Reads.search_loop lower s device keyword limit since (keys t) (
            if all && within limit (length out) then out ++ x ∷ [] else out,
            if all then total + 1 else total,
          ) =
        refl in
      elim (Bool-cases (before since id)) [
        | inr late ↦
            rw (step, late) (search_loop-mirrors lower s keyword limit since t out total h.1)
        | inl early ↦ elim (Bool-cases (fits && within limit (length out))) [
          | inl room ↦
              rw (step, early, shown.decoded, shown.same, own, hit, length-map, room, next)
                (search_loop-mirrors lower s keyword limit since t (out ++ x ∷ []) total' h.1)
          | inr none_left ↦
              rw (step, early, shown.decoded, own, hit, length-map, none_left)
                (search_loop-mirrors lower s keyword limit since t out total' h.1)
        ]
      ]

module _ {B : Type 0} (format : Format B) (accepts : Accepts format) (b : BoltStore B)
    (s : MemoryStore) (h : MirrorsMessages format accepts b s) where
  newest_first-ids : keys (reverse b.msgs) ≡ reverse s.order
  newest_first-ids = keys-reverse b.msgs ∙ ap reverse h.ids

  newest_first-reads : All (ReadsAs format accepts s) (reverse b.msgs)
  newest_first-reads = All-reverse (ReadsAs format accepts s) b.msgs h.reads

  recent-mirrors :
      (device : String) (limit : ℤ) (since : ℕ)
      → recent_loop format device limit since (reverse b.msgs) []
        ≡ some (
            map (seen format accepts) (Reads.recent_loop s device limit since (reverse s.order) []))
  recent-mirrors device limit since = rw (sym newest_first-ids) (
      recent_loop-mirrors format accepts device s limit since (reverse b.msgs) []
        newest_first-reads)

  -- RecentByDevice of a bboltStore that holds what a memoryStore holds returns what is left of what the
  -- memoryStore returns.
  pub recent_by_device-mirrors :
      (device : String) (limit : ℤ) (since : ℕ)
      → recent_by_device format device limit since b
        ≡ some (map (seen format accepts) (Reads.recent_by_device device limit since s))
  unfolding recent_by_device Reads.recent_by_device
  recent_by_device-mirrors device limit since = elim (Bool-cases (is_zero_ℤ limit)) [
    | inl none_asked ↦ rw none_asked refl
    | inr other ↦ rw other (recent-mirrors device limit since)
  ]

  pub recent_page_by_device-mirrors :
      (device : String) (limit : ℤ) (since : ℕ)
      → recent_page_by_device format device limit since b
        ≡ seen_page format accepts (Reads.recent_page_by_device device limit since s)
  unfolding recent_page_by_device Reads.recent_page_by_device
  recent_page_by_device-mirrors device (negsuc n) since = refl
  recent_page_by_device-mirrors device (pos zero) since = refl
  recent_page_by_device-mirrors device (pos (suc n)) since =
      elim (Bool-cases (ltb (suc n) max_int)) [
        | inl next ↦
            rw
              (
                next,
                recent-mirrors device (pos (suc n + 1)) since,
                page_of-map format accepts (suc n),
              )
              refl
        | inr last ↦ rw last refl
      ]

  pub search_by_device-mirrors :
      (lower : ℕ → ℕ) (device : String) (keyword : Text) (limit : ℤ) (since : ℕ)
      → search_by_device format lower device keyword limit since b
        ≡ some
            (seen_rows format accepts (Reads.search_by_device lower device keyword limit since s))
  unfolding search_by_device Reads.search_by_device
  search_by_device-mirrors lower device keyword limit since = rw (sym newest_first-ids) (
      search_loop-mirrors format accepts device lower s (map lower keyword) limit since
        (reverse b.msgs) [] 0 newest_first-reads)
