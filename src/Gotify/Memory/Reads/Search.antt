-- ===== src/Gotify/Memory/Reads/Search.antt =====
-- SearchByDevice of memoryStore against the history as a list.
use mathlib.Core.List.{reverse, append-nil}
use timelynotify_server.Base.{
  ℕ, zero, suc, ◌+◌, String, Bool, true, false, ◌&&◌, List, [], ◌∷◌, ◌++◌, ℤ, pos, negsuc, ltb,
  Text, length, take, map, select, ◌≡◌, ◌∙◌, arith, Bool-cases, inl, inr, length-append,
  append_cons,
}
use timelynotify_server.Gotify.Model.{Message}
use timelynotify_server.Gotify.Memory.{MemoryStore, message_at, of_device}
use timelynotify_server.Gotify.Memory.Reads.{before, message_matches, search_loop, search_by_device}
use timelynotify_server.Gotify.Memory.Reads.Pages.{history, newest, capped}

-- The messages that match the keyword.
abbrev pub matching : (ℕ → ℕ) → Text → List Message → List Message
matching lower keyword = select (λ m. message_matches lower m keyword)

module _ (lower : ℕ → ℕ) (s : MemoryStore) (device : String) (keyword : Text) where
  hits : ℕ → List ℕ → List Message
  hits since ids =
      select (λ m. message_matches lower m keyword) (history s device (before since) ids)

  abbrev pass : ℕ → ℕ → Bool
  pass since id =
      before since id
      && of_device device (message_at s id)
      && message_matches lower (message_at s id) keyword

  hits-pass :
      (since id : ℕ) (ids : List ℕ)
      → pass since id ≡ true
      → hits since (id ∷ ids) ≡ message_at s id ∷ hits since ids
  unfolding hits history
  hits-pass since id ids h = ground arith

  hits-fail :
      (since id : ℕ) (ids : List ℕ) → pass since id ≡ false → hits since (id ∷ ids) ≡ hits since ids
  unfolding hits history
  hits-fail since id ids h = ground arith

  -- The loop with room for `k` more rows keeps the first `k` hits and counts all of them.
  search_loop-take :
      (since : ℕ) (ids : List ℕ) (limit k : ℕ) (out : List Message) (total : ℕ)
      → length out + k ≡ limit
      → search_loop lower s device keyword (pos limit) since ids (out, total)
        ≡ (out ++ take k (hits since ids), total + length (hits since ids))
  unfolding search_loop
  search_loop-take since [] limit zero out total h =
      unfold hits history in (rw append-nil (ground arith))
  search_loop-take since [] limit (suc k) out total h =
      unfold hits history in (rw append-nil (ground arith))
  search_loop-take since (id ∷ ids) limit zero out total h =
      let full : ltb (length out) limit ≡ false = ground arith in
      elim (Bool-cases (pass since id)) [
        | inl p ↦
            rw
              (
                hits-pass since id ids p,
                p,
                full,
                search_loop-take since ids limit zero out (total + 1) h,
              )
              (ground arith)
        | inr p ↦
            rw (hits-fail since id ids p, p, search_loop-take since ids limit zero out total h)
      ]
  search_loop-take since (id ∷ ids) limit (suc k) out total h =
      let m = message_at s id in
      let room : ltb (length out) limit ≡ true = ground arith in
      elim (Bool-cases (pass since id)) [
        | inl p ↦
            let one : length (out ++ m ∷ []) + k ≡ limit =
              omega (arith, length-append out (m ∷ [])) in
            rw
              (
                hits-pass since id ids p,
                p,
                room,
                search_loop-take since ids limit k (out ++ m ∷ []) (total + 1) one,
              )
              (ground (arith, append_cons out m (take k (hits since ids))))
        | inr p ↦
            rw (hits-fail since id ids p, p, search_loop-take since ids limit (suc k) out total h)
      ]

  search_loop-all :
      (since n : ℕ) (ids : List ℕ) (out : List Message) (total : ℕ)
      → search_loop lower s device keyword (negsuc n) since ids (out, total)
        ≡ (out ++ hits since ids, total + length (hits since ids))
  unfolding search_loop
  search_loop-all since n [] out total = unfold hits history in (rw append-nil (ground arith))
  search_loop-all since n (id ∷ ids) out total = elim (Bool-cases (pass since id)) [
    | inl p ↦
        rw
          (
            hits-pass since id ids p,
            p,
            search_loop-all since n ids (out ++ message_at s id ∷ []) (total + 1),
          )
          (ground (arith, append_cons out (message_at s id) (hits since ids)))
    | inr p ↦ rw (hits-fail since id ids p, p, search_loop-all since n ids out total)
  ]

-- SearchByDevice returns the newest matches up to the limit and counts all of them: the total does
-- not depend on the limit.
pub search_by_device_lem :
    (lower : ℕ → ℕ) (device : String) (keyword : Text) (limit : ℤ) (since : ℕ) (s : MemoryStore)
    → search_by_device lower device keyword limit since s ≡ (
      capped limit (matching lower (map lower keyword) (newest device s since)),
      length (matching lower (map lower keyword) (newest device s since)),
    )
unfolding search_by_device hits
search_by_device_lem lower device keyword (negsuc n) since s =
    search_loop-all lower s device (map lower keyword) since n (reverse s.order) [] 0 ∙ ground arith
search_by_device_lem lower device keyword (pos n) since s =
    search_loop-take lower s device (map lower keyword) since (reverse s.order) n n [] 0
      (omega arith)
    ∙ ground arith
