-- ===== src/Gotify/Bolt/Mirror/Deletes.antt =====
-- internal/gotifycompat/store.go: DeleteByDevice and DeleteByExtraID on a bboltStore that holds what a
-- memoryStore holds.
use mathlib.Core.List.{reverse}
use timelynotify_server.Base.{
  ℕ, ◌+◌, ◌^◌, ◌<◌, String, true, false, List, [], ◌∷◌, some, ℤ, ◌≡◌, refl, sym, ap, ◌∙◌, arith,
  All, Text, string_key, text_key, nat_key, length, Bool-cases, Option-cases, inl, inr,
}
use timelynotify_server.Base.Ascending.{mem, mem-reverse}
use timelynotify_server.Base.Dict
use timelynotify_server.Gotify.Model.{Message, source_device, extra_id_of, extra_row}
use timelynotify_server.Gotify.Memory
use timelynotify_server.Gotify.Memory.{
  MemoryStore, message_at, or_zero, append_message, store_message, remove_logged, of_device,
  remove_locked,
}
use timelynotify_server.Gotify.Memory.Outcomes.{find_extra-Fits}
use timelynotify_server.Gotify.Memory.Keeps.{HasRoom}
use timelynotify_server.Gotify.Memory.Valid.{IsValid}
use timelynotify_server.Gotify.Memory.Logged.{IsLogged}
use timelynotify_server.Gotify.Memory.Frame.{order-add_deletion}
use timelynotify_server.Gotify.Memory.Logged.Calls.{remove_logged-Logs}
use timelynotify_server.Gotify.Bolt
use timelynotify_server.Gotify.Bolt.{
  Format, BoltStore, with_id, less_one, delete_message, remove_found,
}
use timelynotify_server.Gotify.Bolt.Table
use timelynotify_server.Gotify.Bolt.Table.{keys}
use timelynotify_server.Gotify.Bolt.Mirror.{
  ReadsAs, Accepts, Simulates, get-mirrors, get-absent, keys-reverse, All-reverse,
}
use timelynotify_server.Gotify.Bolt.Mirror.Reads.{of_device-shown}
use timelynotify_server.Gotify.Bolt.Mirror.Rows.{add_deletion_tx-Mirrors}
use timelynotify_server.Gotify.Bolt.Mirror.Calls.{delete_message-mirrors}

-- The scans meet the same messages.
pub find_extra-mirrors :
    {B : Type 0} (format : Format B) (accepts : Accepts format) (s : MemoryStore) (device : String)
    (extra_id : Text) (rows : List (ℕ × B))
    → All (ReadsAs format accepts s) rows
    → Bolt.find_extra format device extra_id rows ≡ Memory.find_extra s device extra_id (keys rows)
unfolding Bolt.find_extra Memory.find_extra source_device extra_id_of
find_extra-mirrors format accepts s device extra_id [] h = refl
find_extra-mirrors format accepts s device extra_id ((id, raw) ∷ t) h =
    let shown = h.0 in
    let rest = find_extra-mirrors format accepts s device extra_id t h.1 in
    rw (shown.decoded, Bolt.find_extra, shown.device, shown.extra, rest) refl

module _ {B : Type 0} (format : Format B) (accepts : Accepts format) (b : BoltStore B)
    (s : MemoryStore) (h : Simulates format accepts b s) (valid : IsValid s) (v : IsLogged s) where
  stored_at : (id : ℕ) (m : Message) → Dict.get s.msgs id ≡ some m → message_at s id ≡ m
  unfolding message_at
  stored_at id m e = ap or_zero e

  -- The raw message under an id of the history.
  pub found_at :
      (id : ℕ)
      → mem id s.order ≡ true
      → (raw : B) × (Table.get b.msgs id ≡ some raw) × ReadsAs format accepts s (id, raw)
  found_at id stored =
      get-mirrors format accepts s b.msgs id h.0.messages.reads (rw h.0.messages.ids stored)

  -- deleteScoped succeeds, says whether it removed a message as the memoryStore says it, and keeps the
  -- stores alike.
  pub delete_scoped-mirrors :
      (now : ℤ) (device : String) (id : ℕ)
      → HasRoom s.del_seq
      → (b' : BoltStore B) × (Bolt.delete_scoped format now device id b
          ≡ some ((Memory.delete_scoped now id device s).0, b'))
        × Simulates format accepts b' (Memory.delete_scoped now id device s).1
  unfolding Bolt.delete_scoped Memory.delete_scoped
  delete_scoped-mirrors now device id room = elim (Option-cases (Dict.get s.msgs id)) [
    | inl absent ↦
        let gone : mem id s.order ≡ false = ground (arith, valid.tracked id) in
        let missing = get-absent b.msgs id (rw h.0.messages.ids gone) in
        rw (absent, missing, Memory.delete_scoped, Bolt.delete_scoped) (b, refl, h)
    | inr (x, present) ↦
        let stored : mem id s.order ≡ true = ground (arith, valid.tracked id) in
        let (raw, found, reads) = found_at id stored in
        let own : of_device device reads.read ≡ of_device device x =
          of_device-shown format accepts device (message_at s id) id raw reads
          ∙ ap (of_device device) (stored_at id x present) in
        elim (Bool-cases (of_device device x)) [
          | inr foreign ↦
              rw
                (
                  present, found, reads.decoded, own, foreign, Memory.delete_scoped,
                  Bolt.delete_scoped,
                )
                (b, refl, h)
          | inl visible ↦
              rw
                (
                  present, found, reads.decoded, own, visible, Memory.delete_scoped,
                  Bolt.delete_scoped,
                )
                (delete_message-mirrors format accepts b s h valid v now id reads.read room stored
                  reads.device reads.fits)
        ]
  ]

  pub found-mirrors :
      (device : String) (extra_id : Text)
      → Bolt.find_extra format device extra_id (reverse b.msgs)
        ≡ Memory.find_extra s device extra_id (reverse s.order)
  found-mirrors device extra_id =
      find_extra-mirrors format accepts s device extra_id (reverse b.msgs)
        (All-reverse (ReadsAs format accepts s) b.msgs h.0.messages.reads)
      ∙ ap (Memory.find_extra s device extra_id) (keys-reverse b.msgs ∙ ap reverse h.0.messages.ids)

  -- DeleteByExtraID of a device and an extra id that fit succeeds, says whether the message existed as the memoryStore says it, and keeps
  -- the stores alike.
  pub delete_by_extra_id-mirrors :
      (now : ℤ) (device : String) (extra_id : Text)
      → format.fits device ≡ true
      → accepts.room extra_id ≡ true
      → s.del_seq + 2 < 2 ^ 64
      → (b' : BoltStore B) × (Bolt.delete_by_extra_id format now device extra_id b
          ≡ some ((Memory.delete_by_extra_id now device extra_id s).0, b'))
        × Simulates format accepts b' (Memory.delete_by_extra_id now device extra_id s).1
  unfolding Bolt.delete_by_extra_id Memory.delete_by_extra_id remove_found
  delete_by_extra_id-mirrors now device extra_id fit short room =
      let r = extra_row device extra_id in
      let scan = found-mirrors device extra_id in
      elim (Option-cases (Memory.find_extra s device extra_id (reverse s.order))) [
        | inl none_found ↦
            let (b', added, mirrors, counted) =
              add_deletion_tx-Mirrors format accepts b s h.0 v now r fit short (omega arith) in
            rw (scan, none_found, Memory.delete_by_extra_id)
              (
                b',
                rw added refl,
                (mirrors, counted ∙ h.1 ∙ sym (ap length (order-add_deletion now r s))),
              )
        | inr (id, found) ↦
            let stored : mem id s.order ≡ true =
              sym (mem-reverse id s.order)
              ∙ (find_extra-Fits s device extra_id (reverse s.order) id found).0 in
            let (raw, got, reads) = found_at id stored in
            let (b1, removed, simulates) =
              delete_message-mirrors format accepts b s h valid v now id reads.read (omega arith)
                stored reads.device reads.fits in
            let t = remove_logged now id s in
            let (w, more) = remove_logged-Logs now id s (omega arith) v in
            let (b', added, mirrors, counted) =
              add_deletion_tx-Mirrors format accepts b1 t simulates.0 w now r fit short
                (omega arith) in
            rw (scan, found, got, reads.decoded, removed, Memory.delete_by_extra_id)
              (
                b',
                rw added refl,
                (mirrors, counted ∙ simulates.1 ∙ sym (ap length (order-add_deletion now r t))),
              )
      ]
