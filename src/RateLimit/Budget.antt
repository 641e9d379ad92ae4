-- ===== src/RateLimit/Budget.antt =====
-- internal/ratelimit/ratelimit.go: what a key may spend.
use timelynotify_server.Base.{
  String, true, false, List, [], ◌∷◌, some, ℤ, ◌-ℤ◌, ltb_ℤ, ltb, if◌then◌else◌, string_key, ◌==◌,
  ◌≡◌, refl, arith, Bool-cases, Option-cases, inl, inr, ◌∙◌,
}
use timelynotify_server.Base.Dict
use timelynotify_server.Base.Dict.{Dict, get-put, get-del, get-empty}
use timelynotify_server.RateLimit.{
  Floats, Limiter, new, evict_one, evict_loop, evict_idle, balance, refilled, current, take_token,
  allow,
}

module _ {F : Type 0} (fl : Floats F) where
  -- No key has more tokens than the capacity.
  abbrev pub IsCapped : Limiter F → Type 0
  IsCapped l = (key : String) (t : F) → Dict.get l.buckets key ≡ some t → fl.le t l.capacity ≡ true

  pub new-IsCapped : (capacity rate : F) → IsCapped (new capacity rate)
  new-IsCapped capacity rate key t h = absurd (ground (arith, h, get-empty {V = F} key))

  -- Eviction forgets keys, and changes nothing else.
  Forgets : Limiter F → Limiter F → Type 0
  Forgets l l' =
      (l'.capacity ≡ l.capacity)
      × ((key : String) (t : F)
          → Dict.get l'.buckets key ≡ some t
          → Dict.get l.buckets key ≡ some t)

  evict_one-Forgets :
      (ttl now : ℤ) (key : String) (last : ℤ) (l : Limiter F)
      → Forgets l (evict_one ttl now key last l)
  unfolding evict_one Forgets
  evict_one-Forgets ttl now key last l = elim (Bool-cases (ltb_ℤ ttl (now -ℤ last))) [
    | inl idle ↦ rw idle (refl, λ j t h. ground (arith, h, get-del l.buckets key j))
    | inr busy ↦ rw busy (refl, λ j t h. h)
  ]

  evict_loop-Forgets :
      (ttl now : ℤ) (keys : List (String × ℤ)) (l : Limiter F)
      → Forgets l (evict_loop ttl now keys l)
  unfolding evict_loop Forgets
  evict_loop-Forgets ttl now [] l = (refl, λ j t h. h)
  evict_loop-Forgets ttl now ((key, last) ∷ keys) l =
      let l' = evict_one ttl now key last l in
      let first = evict_one-Forgets ttl now key last l in
      let rest = evict_loop-Forgets ttl now keys l' in
      (rest.0 ∙ first.0, λ j t h. first.1 j t (rest.1 j t h))

  evict_idle-Forgets : (now : ℤ) (l : Limiter F) → Forgets l (evict_idle now l)
  unfolding evict_idle Forgets
  evict_idle-Forgets now l = elim (Bool-cases (ltb (Dict.size l.buckets) l.max_keys)) [
    | inl small ↦ rw small (refl, λ j t h. h)
    | inr full ↦ rw full (evict_loop-Forgets l.idle_ttl now l.last_refill.entries l)
  ]

  refilled-le :
      (l : Limiter F) (elapsed tokens : F)
      → fl.le tokens l.capacity ≡ true
      → fl.le (refilled fl l elapsed tokens) l.capacity ≡ true
  unfolding refilled
  refilled-le l elapsed tokens h = ground (
    arith,
    h,
    fl.le_refl l.capacity,
    fl.le_total (fl.add tokens (fl.mul elapsed l.refill_per_sec)) l.capacity,
  )

  balance-le :
      (l : Limiter F) (key : String) → IsCapped l → fl.le (balance fl l key) l.capacity ≡ true
  unfolding balance
  balance-le l key v = elim (Option-cases (Dict.get l.buckets key)) [
    | inl e ↦ ground (arith, e, fl.le_refl l.capacity)
    | inr (t, e) ↦ ground (arith, e, v key t e)
  ]

  current-le :
      (now : ℤ) (key : String) (l : Limiter F)
      → IsCapped l
      → fl.le (current fl now key l) l.capacity ≡ true
  unfolding current
  current-le now key l v = elim (Option-cases (Dict.get l.last_refill key)) [
    | inl e ↦ ground (arith, e, balance-le l key v)
    | inr (last, e) ↦
        ground (
          arith,
          e,
          refilled-le l (fl.seconds (now -ℤ last)) (balance fl l key) (balance-le l key v),
        )
  ]

  take_token-IsCapped :
      (now : ℤ) (key : String) (l : Limiter F) → IsCapped l → IsCapped (take_token fl now key l).1
  unfolding take_token
  take_token-IsCapped now key l v j t h =
      let tokens = current fl now key l in
      let left = fl.sub tokens fl.one in
      ground (
        arith,
        h,
        v j t,
        get-put l.buckets key j (if fl.le fl.one tokens then left else tokens),
        current-le now key l v,
        fl.le_trans left tokens l.capacity (fl.sub_one-le tokens) (current-le now key l v),
      )

  -- Allow keeps every balance within the capacity.
  pub allow-IsCapped :
      (now : ℤ) (key : String) (l : Limiter F) → IsCapped l → IsCapped (allow fl now key l).1
  unfolding allow Forgets
  allow-IsCapped now key l v = elim (Bool-cases (fl.le l.capacity fl.zero)) [
    | inl closed ↦ rw closed v
    | inr open_ ↦
        let l' = evict_idle now l in
        let f = evict_idle-Forgets now l in
        rw open_ (take_token-IsCapped now key l' (λ j t h. ground (arith, f.0, v j t (f.1 j t h))))
  ]

  -- While fewer keys are tracked than the limit, a call for one key spends at most its own tokens:
  -- every other key keeps its balance and its time.
  pub allow-others :
      (now : ℤ) (key j : String) (l : Limiter F)
      → (ltb (Dict.size l.buckets) l.max_keys ≡ true)
      → (key == j) ≡ false
      → (Dict.get (allow fl now key l).1.buckets j ≡ Dict.get l.buckets j)
        × (Dict.get (allow fl now key l).1.last_refill j ≡ Dict.get l.last_refill j)
  unfolding allow evict_idle take_token
  allow-others now key j l small other = elim (Bool-cases (fl.le l.capacity fl.zero)) [
    | inl closed ↦ (ground (arith, closed), ground (arith, closed))
    | inr open_ ↦
        let tokens = current fl now key l in
        (
          ground (
            arith,
            open_,
            small,
            other,
            get-put l.buckets key j (if fl.le fl.one tokens then fl.sub tokens fl.one else tokens),
          ),
          ground (arith, open_, small, other, get-put l.last_refill key j now),
        )
  ]
