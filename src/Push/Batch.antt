-- ===== src/Push/Batch.antt =====
-- route_push.go, routeDoPushV2: the reply to a batch, whatever the order in which its pushes end.
use timelynotify_server.Base.{
  ℕ, zero, suc, ◌≤◌, ◌<◌, String, true, false, List, [], ◌∷◌, ◌++◌, Option, none, some, ℤ, ◌≡◌,
  refl, sym, ap, ◌∙◌, arith, nat_eq, nat_eq→≡, ltb, length, take, map, nat_key, string_key,
  Bool-cases, Option-cases, inl, inr, take_of_length-le,
}
use timelynotify_server.Base.Ascending.{mem}
use timelynotify_server.Base.Dict
use timelynotify_server.Base.Dict.{Dict, get-put}
use timelynotify_server.Database.{DeviceInfo}
use timelynotify_server.Gotify.Value.{Value, Extras}
use timelynotify_server.Push.Deliver.{Env, World, failure}
use timelynotify_server.Push.Request.{push}
use timelynotify_server.Push.Parse.{
  Row, Reply, single, batch, key_at, rows, is_over, run_batch, push_all,
}

abbrev row_key : Option Row → Option String
row_key none = none
row_key (some r) = some r.device_key

abbrev pub row_keys : List (Option Row) → List (Option String)
row_keys [] = []
row_keys (r ∷ l) = row_key r ∷ row_keys l

row_keys-append :
    (l : List (Option Row)) (r : Option Row) → row_keys (l ++ r ∷ []) ≡ row_keys l ++ row_key r ∷ []
row_keys-append [] r = refl
row_keys-append (x ∷ l) r = ap (◌∷◌ (row_key x)) (row_keys-append l r)

key_at-some :
    (keys : List String) (i : ℕ) → i < length keys → (key : String) × (key_at keys i ≡ some key)
key_at-some [] i h = absurd (omega arith)
key_at-some (k ∷ ks) zero h = (k, refl)
key_at-some (k ∷ ks) (suc i) h = key_at-some ks i (omega arith)

take-key_at :
    (keys : List String) (i : ℕ) (key : String)
    → key_at keys i ≡ some key
    → map (λ (k : String). some k) (take (suc i) keys)
      ≡ map (λ k. some k) (take i keys) ++ some key ∷ []
take-key_at [] i key h = cc
take-key_at (k ∷ ks) zero key h = rw h refl
take-key_at (k ∷ ks) (suc i) key h = ap (◌∷◌ (some k)) (take-key_at ks i key h)

some-injective : (j k : String) → ◌≡◌ {A = Option String} (some j) (some k) → j ≡ k
some-injective j k e = cc

key_at-lt : (keys : List String) (i : ℕ) (key : String) → key_at keys i ≡ some key → i < length keys
key_at-lt [] i key h = cc
key_at-lt (k ∷ ks) zero key h = omega arith
key_at-lt (k ∷ ks) (suc i) key h = omega (arith, key_at-lt ks i key h)

missing :
    (keys : List String) (ends : List ℕ) (i : ℕ) (key : String)
    → key_at keys i ≡ some key
    → mem i ends ≡ false
    → ((i : ℕ) → ltb i (length keys) ≡ true → mem i ends ≡ true)
    → ⊥
missing keys ends i key at gone ended =
    let there = ended i (ground (arith, key_at-lt keys i key at)) in cc

module _ {R H : Type 0} (env : Env R H) (unescape : String → Option String)
    (fans : ℕ → List DeviceInfo → List DeviceInfo) where
  -- A push that has ended has written the row of its device.
  run_batch-row :
      (keys : List String) (params : Extras) (ends : List ℕ) (results : Dict ℕ Row) (w : World R H)
      (i : ℕ) (key : String)
      → key_at keys i ≡ some key
      → (mem i ends ≡ false → row_key (Dict.get results i) ≡ some key)
      → row_key (Dict.get (run_batch env unescape fans keys params ends (results, w)).0 i)
        ≡ some key
  unfolding run_batch
  run_batch-row keys params [] results w i key at h = h refl
  run_batch-row keys params (j ∷ js) results w i key at h = elim (Option-cases (key_at keys j)) [
    | inl absent ↦
        let other : nat_eq j i ≡ false = elim (Bool-cases (nat_eq j i)) [
          | inl same ↦
              let found : key_at keys j ≡ some key = rw (nat_eq→≡ j i same) at in absurd (cc)
          | inr e ↦ e
        ] in
        rw (absent, run_batch)
          (run_batch-row keys params js results w i key at (λ gone. h (ground arith)))
    | inr (k, there) ↦
        let (status, w') = push env (fans j) (Dict.put params "device_key" (Value.str k)) w in
        let row : Row = record { device_key = k; status = status } in
        rw (there, run_batch)
          (run_batch-row keys params js (Dict.put results j row) w' i key at (λ gone.
            elim (Bool-cases (nat_eq j i)) [
              | inl same ↦
                  let named : k ≡ key =
                    some-injective k key (sym there ∙ ap (key_at keys) (nat_eq→≡ j i same) ∙ at) in
                  let written : Dict.get (Dict.put results j row) i ≡ some row =
                    ground (arith, get-put results j i row) in
                  rw written (ap (λ x. some x) named)
              | inr other ↦
                  let kept : Dict.get (Dict.put results j row) i ≡ Dict.get results i =
                    ground (arith, get-put results j i row) in
                  rw kept (h (ground arith))
            ]))
  ]

  rows-keys :
      (keys : List String) (results : Dict ℕ Row) (n : ℕ)
      → n ≤ length keys
      → ((i : ℕ) (key : String)
          → key_at keys i ≡ some key
          → row_key (Dict.get results i) ≡ some key)
      → row_keys (rows results n) ≡ map (λ (k : String). some k) (take n keys)
  unfolding rows
  rows-keys keys results zero few h = refl
  rows-keys keys results (suc n) few h =
      let (key, at) = key_at-some keys n (omega arith) in
      rw
        (
          row_keys-append (rows results n) (Dict.get results n),
          rows-keys keys results n (omega arith) h,
          h n key at,
          take-key_at keys n key at,
        )
        refl

  -- What may come of a batch: too many devices are refused, and nothing has happened; else the reply has
  -- a row for each device that was named, in the order in which they were named.
  abbrev pub Answers : ℤ → List String → World R H → Reply × World R H → Type 0
  Answers max keys w (single status, w') =
      (is_over max (length keys) ≡ true) × (status ≡ failure 400) × (w' ≡ w)
  Answers max keys w (batch l, w') =
      (is_over max (length keys) ≡ false) × (row_keys l ≡ map (λ (k : String). some k) keys)

  -- A batch of more devices than allowed is refused with 400 before anything is pushed; any other has
  -- one row in the reply for each device key of the request, under that key and in the order of the
  -- request, whatever the order in which the pushes end and whatever comes of them. Each push ends.
  pub push_all-Answers :
      (max : ℤ) (ends : List ℕ) (key : String) (keys : List String) (params : Extras)
      (w : World R H)
      → ((i : ℕ) → ltb i (length (key ∷ keys)) ≡ true → mem i ends ≡ true)
      → Answers max (key ∷ keys) w (push_all env unescape fans max ends (key ∷ keys) params w)
  unfolding push_all
  push_all-Answers max ends key keys params w ended =
      let all = key ∷ keys in
      let results = (run_batch env unescape fans all params ends (Dict.empty, w)).0 in
      elim (Bool-cases (is_over max (length all))) [
        | inl over ↦ rw over (over, refl, refl)
        | inr within ↦ rw within (
          within,
          rows-keys all results (length all) (omega arith) (λ i k at.
                run_batch-row all params ends Dict.empty w i k at
                  (λ gone. absurd (missing all ends i k at gone ended)))
              ∙ ap (map (λ (k : String). some k))
                  (take_of_length-le (length all) all (omega arith)),
        )
      ]
