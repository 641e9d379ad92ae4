-- ===== src/Gotify/Memory/Reads.antt =====
-- internal/gotifycompat/store.go, the reads of memoryStore: pages of the history, newest first or
-- oldest first, the keyword search and the export walk.
pub mod Pages
pub mod Search
use mathlib.Core.List.{reverse}
use timelynotify_server.Base.{
  ℕ, zero, suc, ◌+◌, ◌-◌, ◌^◌, String, Bool, true, false, ◌&&◌, ◌||◌, List, [], ◌∷◌, ◌++◌, Option,
  none, some, ℤ, pos, negsuc, is_zero_ℤ, Text, codes, nat_eq, ltb, leb, if◌then◌else◌, nat_key,
  text_key, length, take, map, ◌==◌,
}
use timelynotify_server.Base.Dict
use timelynotify_server.Base.Dict.{Dict}
use timelynotify_server.Base.Strings.{contains_text}
use timelynotify_server.Gotify.Model.{Message}
use timelynotify_server.Gotify.Memory.{MemoryStore, message_at, of_device}

-- The loop test `limit < 0 || len(out) < limit`.
abbrev pub within : ℤ → ℕ → Bool
within (pos n) len = ltb len n
within (negsuc _) len = true

-- `since == 0 || id < since`
abbrev pub before : ℕ → ℕ → Bool
before since id = nat_eq since 0 || ltb id since

-- One round of the newest-first loops: the message is appended if its id and device fit.
unfoldable pub visit : MemoryStore → String → ℕ → ℕ → List Message → List Message
visit s device since id out =
    let m = message_at s id in if before since id && of_device device m then out ++ m ∷ [] else out

unfoldable pub recent_loop : MemoryStore → String → ℤ → ℕ → List ℕ → List Message → List Message
unfolding visit
recent_loop s device limit since [] out = out
recent_loop s device limit since (id ∷ ids) out =
    let rest = recent_loop s device limit since ids (visit s device since id out) in
    if within limit (length out) then rest else out

unfoldable pub recent_by_device : String → ℤ → ℕ → MemoryStore → List Message
unfolding recent_loop
recent_by_device device limit since s =
    if is_zero_ℤ limit then [] else recent_loop s device limit since (reverse s.order) []

unfoldable pub recent : ℤ → ℕ → MemoryStore → List Message
unfolding recent_by_device
recent limit since s = recent_by_device "" limit since s

-- The page and whether more is behind it, from one row more than the page holds.
abbrev pub page_of : ℕ → List Message → List Message × Bool
page_of limit out =
    let has_more = ltb limit (length out) in (if has_more then take limit out else out, has_more)

-- math.MaxInt on a 64-bit machine.
abbrev pub max_int : ℕ
max_int = 2 ^ 63 - 1

-- RecentPageByDevice. The limit is an int: at the largest one limit+1 wraps around to a negative number,
-- and none is the panic of make at this capacity.
unfoldable pub recent_page_by_device : String → ℤ → ℕ → MemoryStore → Option (List Message × Bool)
unfolding recent_loop
recent_page_by_device device (negsuc _) since s = some ([], false)
recent_page_by_device device (pos zero) since s = some ([], false)
recent_page_by_device device (pos (suc n)) since s =
    if ltb (suc n) max_int
    then some (page_of (suc n) (recent_loop s device (pos (suc n + 1)) since (reverse s.order) []))
    else none

unfoldable pub after_loop : MemoryStore → String → ℕ → ℕ → List ℕ → List Message → List Message
after_loop s device after limit [] out = out
after_loop s device after limit (id ∷ ids) out =
    let m = message_at s id in
    let fits = ltb after id && of_device device m in
    let out' : List Message = if fits then out ++ m ∷ [] else out in
    let rest = after_loop s device after limit ids out' in
    if fits && nat_eq (length out') (limit + 1) then out' else rest

-- AfterByDevice, with the panic of RecentPageByDevice at the largest int.
unfoldable pub after_by_device : String → ℕ → ℤ → MemoryStore → Option (List Message × Bool)
unfolding after_loop
after_by_device device after (negsuc _) s = some ([], false)
after_by_device device after (pos zero) s = some ([], false)
after_by_device device after (pos (suc n)) s =
    if ltb (suc n) max_int
    then some (page_of (suc n) (after_loop s device after (suc n) s.order []))
    else none

-- What strings.ToLower does to a rune comes from the tables of the unicode package.
module _ (lower : ℕ → ℕ) where
  -- The keyword is in lower case already.
  unfoldable pub message_matches : Message → Text → Bool
  message_matches m keyword =
      (keyword == [])
      || contains_text (map lower (codes m.title)) keyword
      || contains_text (map lower (codes m.message)) keyword

  unfoldable pub search_loop :
      MemoryStore → String → Text → ℤ → ℕ → List ℕ → List Message × ℕ → List Message × ℕ
  search_loop s device keyword limit since [] (out, total) = (out, total)
  search_loop s device keyword limit since (id ∷ ids) (out, total) =
      let m = message_at s id in
      let fits = before since id && of_device device m && message_matches m keyword in
      search_loop s device keyword limit since ids (
        if fits && within limit (length out) then out ++ m ∷ [] else out,
        if fits then total + 1 else total,
      )

  unfoldable pub search_by_device : String → Text → ℤ → ℕ → MemoryStore → List Message × ℕ
  unfolding search_loop
  search_by_device device keyword limit since s =
      search_loop s device (map lower keyword) limit since (reverse s.order) ([], 0)

  module _ {ℓ} {A : Type ℓ} (fn : Message → A → A × Bool) where
    -- The walk outside the lock: `at` is the message map that the next round finds, since other
    -- calls run between the rounds. `fn` says whether it failed.
    for_each_loop : (ℕ → Dict ℕ Message) → String → Text → List ℕ → ℕ → ℕ → A → ℕ × A × Bool
    for_each_loop at device keyword [] round total a = (total, a, false)
    for_each_loop at device keyword (id ∷ ids) round total a = elim (Dict.get (at round) id) [
      | none ↦ for_each_loop at device keyword ids (suc round) total a
      | some m ↦ elim (of_device device m && message_matches m keyword) [
        | false ↦ for_each_loop at device keyword ids (suc round) total a
        | true ↦
            let (a', failed) = fn m a in
            elim failed [
              | true ↦ (total + 1, a', true)
              | false ↦ for_each_loop at device keyword ids (suc round) (total + 1) a'
            ]
      ]
    ]

    snapshot : ℕ → List ℕ → List ℕ
    snapshot since [] = []
    snapshot since (id ∷ ids) =
        let rest = snapshot since ids in if before since id then id ∷ rest else rest

    unfoldable pub for_each_by_device :
        (ℕ → Dict ℕ Message) → String → Text → ℕ → MemoryStore → A → ℕ × A × Bool
    unfolding for_each_loop snapshot
    for_each_by_device at device keyword since s a =
        for_each_loop at device (map lower keyword) (snapshot since (reverse s.order)) 0 0 a
