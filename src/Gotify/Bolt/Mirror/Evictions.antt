-- ===== src/Gotify/Bolt/Mirror/Evictions.antt =====
-- internal/gotifycompat/store.go: the eviction behind Add, on a bboltStore that holds what a
-- memoryStore holds.
use mathlib.Core.Path.{subst}
use timelynotify_server.Base.{
  ℕ, suc, ◌+◌, ◌-◌, ◌^◌, ◌<◌, true, false, List, [], ◌∷◌, some, ℤ, ◌≡◌, refl, ap, arith, All, ltb,
  length, Bool-cases, inl, inr,
}
use timelynotify_server.Base.Ascending.{Ascending, mem, length-remove}
use timelynotify_server.Gotify.Model.{source_device, succ_uint64}
use timelynotify_server.Gotify.Memory.{
  MemoryStore, evict_if_over, evict_first, evict_oldest, remove_logged, remove_locked,
}
use timelynotify_server.Gotify.Memory.Frame.{order-add_deletion}
use timelynotify_server.Gotify.Memory.Keeps.{HasRoom}
use timelynotify_server.Gotify.Memory.Logged.{IsLogged}
use timelynotify_server.Gotify.Bolt.{Format, BoltStore, settle_count, evict_oldest_locked}
use timelynotify_server.Gotify.Bolt.Table.{keys}
use timelynotify_server.Gotify.Bolt.Mirror.{
  ReadsAs, Accepts, Mirrors, Simulates, with_count-Mirrors,
}
use timelynotify_server.Gotify.Bolt.Mirror.Removal.{remove_logged_tx-Mirrors}

pub length-remove_logged :
    (now : ℤ) (id : ℕ) (s : MemoryStore)
    → mem id s.order ≡ true
    → suc (length (remove_logged now id s).order) ≡ length s.order
unfolding remove_logged remove_locked
length-remove_logged now id s h = rw order-add_deletion (length-remove id s.order h)

module _ {B : Type 0} (format : Format B) (accepts : Accepts format) (now : ℤ) (b : BoltStore B)
    (s : MemoryStore) (h : Mirrors format accepts b s) (a : Ascending 0 s.order) (v : IsLogged s)
    (room : HasRoom s.del_seq) where
  -- The oldest message goes on both sides.
  evict-Mirrors :
      (rows : List (ℕ × B))
      → keys rows ≡ s.order
      → 0 < length s.order
      → All (ReadsAs format accepts s) rows
      → (b' : BoltStore B) × (evict_oldest_locked format now rows b ≡ some (true, b'))
        × Mirrors format accepts b' (evict_first now (keys rows) s)
        × (suc (length (evict_first now (keys rows) s).order) ≡ length s.order)
  unfolding evict_oldest_locked evict_first source_device
  evict-Mirrors [] e some_ reads = absurd (omega (arith, ap length e))
  evict-Mirrors ((id, raw) ∷ rows) e some_ reads =
      let shown = reads.0 in
      let (b', removed, mirrors, _) =
        remove_logged_tx-Mirrors format accepts b s h id a shown.fits v now room in
      let head : mem id s.order ≡ true = rw⁻¹ e (ground arith) in
      (
        b',
        rw (shown.decoded, shown.device, removed) refl,
        mirrors,
        length-remove_logged now id s head,
      )

  pub settle-mirrors :
      b.count + 1 ≡ length s.order
      → length s.order < 2 ^ 64
      → (b' : BoltStore B) × (settle_count format now b ≡ some b')
        × Simulates format accepts b' (evict_if_over now s)
  unfolding settle_count evict_if_over evict_oldest
  settle-mirrors counted small =
      let total : succ_uint64 b.count ≡ length s.order = omega arith in
      elim (Bool-cases (ltb s.max (length s.order))) [
        | inr within ↦
            let within' : ltb b.max (length s.order) ≡ false = rw h.max within in
            rw (total, within', within)
              (
                record b { count = length s.order },
                refl,
                (with_count-Mirrors format accepts b s (length s.order) h, refl),
              )
        | inl over ↦
            let some_ : 0 < length s.order = ground arith in
            let (b', evicted, mirrors, shorter) =
              evict-Mirrors b.msgs h.messages.ids some_ h.messages.reads in
            let left = length s.order - 1 in
            let over' : ltb b.max (length s.order) ≡ true = rw h.max over in
            rw (total, over', over)
              (
                record b' { count = left },
                rw evicted refl,
                (
                  subst
                      (λ ids.
                        Mirrors format accepts (record b' { count = left }) (evict_first now ids s))
                      h.messages.ids
                      (with_count-Mirrors format accepts b' (evict_first now (keys b.msgs) s) left
                        mirrors),
                  subst (λ ids. left ≡ length (evict_first now ids s).order) h.messages.ids
                      (omega arith),
                ),
              )
      ]
