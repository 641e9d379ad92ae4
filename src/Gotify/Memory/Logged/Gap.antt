-- ===== src/Gotify/Memory/Logged/Gap.antt =====
-- memoryStore: a client that is behind the rows which the retention sweep drops.
use mathlib.Core.List.{append-nil}
use timelynotify_server.Base.{
  ℕ, ◌+◌, ◌^◌, ◌≤◌, ◌<◌, String, Bool, true, false, ◌||◌, not, List, [], ◌∷◌, ◌++◌, ℤ, ◌≤ℤ◌, ◌≡◌,
  refl, sym, ◌∙◌, arith, length, All, select, Bool-cases, inl, inr, nat_key, string_key,
  if◌then◌else◌, is_some, ◌==◌, ==_refl, append_cons,
}
use timelynotify_server.Base.Ascending.{Ascending}
use timelynotify_server.Base.Dict
use timelynotify_server.Base.Dict.{Dict, get-put, get-empty, value_at}
use timelynotify_server.Gotify.Model.{DeletionRecord, reset_row, succ_uint64}
use timelynotify_server.Gotify.Memory.{MemoryStore, add_deletion, append_row, stamped}
use timelynotify_server.Gotify.Memory.Sweeps.{is_old, Retained, retain_one, retain_loop, add_resets}
use timelynotify_server.Gotify.Memory.Purges.{is_in}
use timelynotify_server.Gotify.Memory.Logged.{cursors, add_deletion_outcome}

-- Rows are logged in the order of their times.
abbrev pub Aged : List DeletionRecord → Type 0
Aged [] = Unit
Aged (r ∷ rows) = All (λ x. r.created_at ≤ℤ x.created_at) rows × Aged rows

fresh-retain_one :
    (cutoff : ℤ) (r : DeletionRecord) (a : Retained)
    → (retain_one cutoff r a).fresh ≡ (if is_old cutoff r then a.fresh else a.fresh ++ r ∷ [])
unfolding retain_one
fresh-retain_one cutoff r a = ground arith

pub fresh-retain_loop :
    (cutoff : ℤ) (rows : List DeletionRecord) (a : Retained)
    → (retain_loop cutoff rows a).fresh ≡ a.fresh ++ select (λ r. not (is_old cutoff r)) rows
unfolding retain_loop
fresh-retain_loop cutoff [] a = sym (append-nil a.fresh)
fresh-retain_loop cutoff (r ∷ rows) a =
    fresh-retain_loop cutoff rows (retain_one cutoff r a) ∙ elim (Bool-cases (is_old cutoff r)) [
      | inl old ↦ rw (fresh-retain_one cutoff r a, old) refl
      | inr new ↦
          rw (fresh-retain_one cutoff r a, new)
            (append_cons a.fresh r (select (λ r. not (is_old cutoff r)) rows))
    ]

above :
    (m k : ℕ) (rows : List DeletionRecord)
    → m < k
    → Ascending k (cursors rows)
    → All (λ c. m < c) (cursors rows)
above m k [] h a = tt
above m k (x ∷ rows) h a = (omega (arith, a.0), above m x.id rows (omega (arith, a.0)) a.1)

pub All-middle :
    (P : DeletionRecord → Type 0) (xs : List DeletionRecord) (r : DeletionRecord)
    (ys : List DeletionRecord)
    → All P (xs ++ r ∷ ys)
    → P r
All-middle P [] r ys u = u.0
All-middle P (x ∷ xs) r ys u = All-middle P xs r ys u.1

All-select-cursors :
    (P : ℕ → Type 0) (p : DeletionRecord → Bool) (rows : List DeletionRecord)
    → All P (cursors rows)
    → All P (cursors (select p rows))
All-select-cursors P p [] u = tt
All-select-cursors P p (r ∷ rows) u = elim (Bool-cases (p r)) [
  | inl keeps ↦ rw keeps (u.0, All-select-cursors P p rows u.1)
  | inr drops ↦ rw drops (All-select-cursors P p rows u.1)
]

-- Up to an old row, every row is old; what is left is behind it.
pub fresh-above :
    (cutoff : ℤ) (lo since : ℕ) (xs : List DeletionRecord) (r : DeletionRecord)
    (ys : List DeletionRecord)
    → is_old cutoff r ≡ true
    → since < r.id
    → Aged (xs ++ r ∷ ys)
    → Ascending lo (cursors (xs ++ r ∷ ys))
    → All (λ c. since < c) (cursors (select (λ x. not (is_old cutoff x)) (xs ++ r ∷ ys)))
fresh-above cutoff lo since [] r ys old h aged a = rw old (
    All-select-cursors (λ c. since < c) (λ x. not (is_old cutoff x)) ys (above since r.id ys h a.1))
fresh-above cutoff lo since (x ∷ xs) r ys old h aged a =
    let before = All-middle (λ y. x.created_at ≤ℤ y.created_at) xs r ys aged.0 in
    let old_too : is_old cutoff x ≡ true = ground (arith, old, before) in
    rw old_too (fresh-above cutoff x.id since xs r ys old h aged.1 a.1)

abbrev pub has_row : String → List DeletionRecord → Bool
has_row device [] = false
has_row device (r ∷ rows) = (r.device_key == device) || has_row device rows

has_row-append :
    (device : String) (rows : List DeletionRecord) (r : DeletionRecord)
    → has_row device (rows ++ r ∷ []) ≡ (has_row device rows || (r.device_key == device))
has_row-append device [] r = ground arith
has_row-append device (x ∷ rows) r = ground (arith, has_row-append device rows r)

All-cursors-append :
    (m : ℕ) (rows : List DeletionRecord) (r : DeletionRecord)
    → All (λ c. m < c) (cursors rows)
    → m < r.id
    → All (λ c. m < c) (cursors (rows ++ r ∷ []))
All-cursors-append m [] r u h = (h, tt)
All-cursors-append m (x ∷ rows) r u h = (u.0, All-cursors-append m rows r u.1 h)

-- What a sentinel adds to the log.
add-reset :
    (clock now : ℤ) (d : String) (s : MemoryStore)
    → add_deletion clock (reset_row d now) s ≡ append_row (stamped clock (reset_row d now)) s
add-reset clock now d s = elim (add_deletion_outcome clock (reset_row d now) s) [
  | inl (c, e, old, same) ↦ cc
  | inr (new, appended) ↦ appended
]

-- Every cursor of the log is above `since`, and so is every one to come.
abbrev pub Ahead : ℕ → MemoryStore → Type 0
Ahead since s = All (λ c. since < c) (cursors s.dels) × (since ≤ s.del_seq)

add-Ahead :
    (clock now : ℤ) (since : ℕ) (d : String) (s : MemoryStore)
    → s.del_seq + 1 < 2 ^ 64
    → Ahead since s
    → Ahead since (add_deletion clock (reset_row d now) s).1
      × ((add_deletion clock (reset_row d now) s).1.del_seq ≤ s.del_seq + 1)
unfolding append_row stamped
add-Ahead clock now since d s room v =
    rw (add-reset clock now d s) (
      (All-cursors-append since s.dels _ v.0 (omega (arith, v.1)), omega (arith, v.1)),
      omega arith,
    )

add-has_row :
    (clock now : ℤ) (device d : String) (s : MemoryStore)
    → has_row device (add_deletion clock (reset_row d now) s).1.dels
      ≡ (has_row device s.dels || (d == device))
unfolding append_row stamped
add-has_row clock now device d s = rw (add-reset clock now d s) (
    ground (
      arith,
      has_row-append device s.dels
          (record (stamped clock (reset_row d now)) { id = succ_uint64 s.del_seq }),
    ))

pub add_resets-Ahead :
    (clock now : ℤ) (since : ℕ) (ds : List String) (s : MemoryStore)
    → s.del_seq + length ds < 2 ^ 64
    → Ahead since s
    → Ahead since (add_resets clock now ds s)
unfolding add_resets
add_resets-Ahead clock now since [] s room v = v
add_resets-Ahead clock now since (d ∷ ds) s room v =
    let (w, next) = add-Ahead clock now since d s (omega arith) v in
    add_resets-Ahead clock now since ds (add_deletion clock (reset_row d now) s).1
      (omega (arith, next)) w

pub add_resets-has_row :
    (clock now : ℤ) (device : String) (ds : List String) (s : MemoryStore)
    → (has_row device s.dels || is_in device ds) ≡ true
    → has_row device (add_resets clock now ds s).dels ≡ true
unfolding add_resets
add_resets-has_row clock now device [] s h = ground (arith, h)
add_resets-has_row clock now device (d ∷ ds) s h =
    add_resets-has_row clock now device ds (add_deletion clock (reset_row d now) s).1
      (ground (arith, h, add-has_row clock now device d s))

-- An old row counts, and its device is noted.
abbrev pub Counted : String → Retained → Type 0
Counted device a = (is_some (Dict.get a.affected device) ≡ true) × (0 < a.removed)

retain_one-kept :
    (cutoff : ℤ) (r : DeletionRecord) (device : String) (a : Retained)
    → Counted device a
    → Counted device (retain_one cutoff r a)
unfolding retain_one
retain_one-kept cutoff r device a v =
    (ground (arith, v.0, get-put a.affected r.device_key device tt), ground (arith, v.1))

retain_loop-kept :
    (cutoff : ℤ) (rows : List DeletionRecord) (device : String) (a : Retained)
    → Counted device a
    → Counted device (retain_loop cutoff rows a)
unfolding retain_loop
retain_loop-kept cutoff [] device a v = v
retain_loop-kept cutoff (r ∷ rows) device a v =
    retain_loop-kept cutoff rows device (retain_one cutoff r a)
      (retain_one-kept cutoff r device a v)

retain_one-Counted :
    (cutoff : ℤ) (r : DeletionRecord) (a : Retained)
    → is_old cutoff r ≡ true
    → Counted r.device_key (retain_one cutoff r a)
unfolding retain_one
retain_one-Counted cutoff r a old = (
  ground (arith, old, get-put a.affected r.device_key r.device_key tt, ==_refl r.device_key),
  ground (arith, old),
)

pub retain_loop-Counted :
    (cutoff : ℤ) (xs : List DeletionRecord) (r : DeletionRecord) (ys : List DeletionRecord)
    (a : Retained)
    → is_old cutoff r ≡ true
    → Counted r.device_key (retain_loop cutoff (xs ++ r ∷ ys) a)
unfolding retain_loop
retain_loop-Counted cutoff [] r ys a old =
    retain_loop-kept cutoff ys r.device_key (retain_one cutoff r a)
      (retain_one-Counted cutoff r a old)
retain_loop-Counted cutoff (x ∷ xs) r ys a old =
    retain_loop-Counted cutoff xs r ys (retain_one cutoff x a) old
