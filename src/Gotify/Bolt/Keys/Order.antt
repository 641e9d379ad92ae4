-- ===== src/Gotify/Bolt/Keys/Order.antt =====
-- internal/gotifycompat/store.go: the order of the keys of the buckets.
use timelynotify_server.Base.{
  ℕ, zero, suc, ◌/◌, ◌%◌, ◌^◌, ◌<◌, true, false, List, [], ◌∷◌, ◌++◌, ◌≡◌, refl, sym, ◌∙◌, arith,
  nat_eq, ltb, nat_eq→≡, length, ◌↔◌, ◌≢◌, Bool-cases, inl, inr,
}
use timelynotify_server.Gotify.Bolt.Keys.{
  big_endian, device_prefix, device_scoped_key, scoped_id, has_prefix, precedes, length-big_endian,
  big_endian-injective, has_prefix-key, scoped_id-key,
}

precedes-same_head : (xs ys zs : List ℕ) → precedes (xs ++ ys) (xs ++ zs) ≡ precedes ys zs
unfolding precedes
precedes-same_head [] ys zs = refl
precedes-same_head (x ∷ xs) ys zs =
    let same : nat_eq x x ≡ true = ground arith in
    let level : ltb x x ≡ false = ground arith in rw (same, level) (precedes-same_head xs ys zs)

-- Where two heads of one length differ, they decide.
precedes-other_head :
    (xs ys us vs : List ℕ)
    → length xs ≡ length ys
    → xs ≢ ys
    → precedes (xs ++ us) (ys ++ vs) ≡ precedes xs ys
unfolding precedes
precedes-other_head [] [] us vs e ne = absurd (ne refl)
precedes-other_head [] (y ∷ ys) us vs e ne = absurd (omega arith)
precedes-other_head (x ∷ xs) [] us vs e ne = absurd (omega arith)
precedes-other_head (x ∷ xs) (y ∷ ys) us vs e ne = elim (Bool-cases (nat_eq x y)) [
  | inr other ↦ rw other refl
  | inl same ↦
      let tails : xs ≢ ys = λ t. ne (rw (nat_eq→≡ x y same, t) refl) in
      rw (same, precedes-other_head xs ys us vs (omega arith) tails) refl
]

precedes-big_endian :
    (k v w : ℕ) → v < 256 ^ k → w < 256 ^ k → precedes (big_endian k v) (big_endian k w) ≡ ltb v w
unfolding precedes big_endian
precedes-big_endian zero v w h i = ground arith
precedes-big_endian (suc k) v w h i =
    let heads = big_endian k in
    elim (Bool-cases (nat_eq (v / 256) (w / 256))) [
      | inl same ↦
          rw
            (
              nat_eq→≡ (v / 256) (w / 256) same,
              precedes-same_head (heads (w / 256)) (v % 256 ∷ []) (w % 256 ∷ []),
            )
            (ground (arith, nat_eq→≡ (v / 256) (w / 256) same))
      | inr other ↦
          let ne : heads (v / 256) ≢ heads (w / 256) = λ e.
            let e' = big_endian-injective k (v / 256) (w / 256) (omega arith) (omega arith) e in
            absurd (ground arith) in
          rw
            (
              precedes-other_head (heads (v / 256)) (heads (w / 256)) (v % 256 ∷ []) (w % 256 ∷ [])
                  (length-big_endian k (v / 256) ∙ sym (length-big_endian k (w / 256))) ne,
              precedes-big_endian k (v / 256) (w / 256) (omega arith) (omega arith),
            )
            (ground arith)
    ]

-- The keys of one device stand in the order of their ids.
precedes-key :
    (device : List ℕ) (id other : ℕ)
    → id < 2 ^ 64
    → other < 2 ^ 64
    → precedes (device_scoped_key device id) (device_scoped_key device other) ≡ ltb id other
unfolding device_scoped_key
precedes-key device id other h i =
    precedes-same_head (big_endian 2 (length device % 2 ^ 16) ++ device) (big_endian 8 id)
      (big_endian 8 other)
    ∙ precedes-big_endian 8 id other (omega arith) (omega arith)

-- The keys of a bucket are what a walk behind a device's prefix takes them for. A key begins with the
-- prefix of exactly the device that it was made for, even if the name of one device begins with the
-- name of another; the id is read back from it; and the keys of one device come in the order of their
-- ids. Ids are below 2 ^ 64, and the names of the devices shorter than 2 ^ 16 bytes.
pub device_scoped_key_lem :
    (device other : List ℕ) (id next : ℕ)
    → length device < 2 ^ 16
    → length other < 2 ^ 16
    → id < 2 ^ 64
    → next < 2 ^ 64
    → ((has_prefix (device_scoped_key device id) (device_prefix other) ≡ true) ↔ (device ≡ other))
      × (scoped_id (device_scoped_key device id) (length (device_prefix device)) ≡ id)
      × (precedes (device_scoped_key device id) (device_scoped_key device next) ≡ ltb id next)
device_scoped_key_lem device other id next short few h i = (
  has_prefix-key device other id short few,
  scoped_id-key device id h,
  precedes-key device id next h i,
)
