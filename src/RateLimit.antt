-- ===== src/RateLimit.antt =====
-- internal/ratelimit/ratelimit.go: token buckets per key. A call holds the mutex throughout, so it is
-- a function of the limiter; times and durations are nanoseconds.
pub mod Budget
mod Tests
use timelynotify_server.Base.{
  ℕ, ◌*◌, String, Bool, true, false, not, List, [], ◌∷◌, Option, none, some, ℤ, pos, ◌-ℤ◌, ltb_ℤ,
  ltb, if◌then◌else◌, string_key, ◌≡◌, ◌⊎◌,
}
use timelynotify_server.Base.Dict
use timelynotify_server.Base.Dict.{Dict}

-- What the code uses of float64, and the laws that rounding keeps. The values are those that are no
-- NaN.
pub record Floats (F : Type 0) : Type 0 where
  pub le : F → F → Bool
  pub zero : F
  pub one : F
  pub add : F → F → F
  pub sub : F → F → F
  pub mul : F → F → F
  -- Duration.Seconds
  pub seconds : ℤ → F
  pub le_refl : (x : F) → le x x ≡ true
  pub le_trans : (x y z : F) → le x y ≡ true → le y z ≡ true → le x z ≡ true
  pub le_total : (x y : F) → (le x y ≡ true) ⊎ (le y x ≡ true)
  pub sub_one-le : (x : F) → le (sub x one) x ≡ true

pub record Limiter (F : Type 0) : Type 0 where
  pub capacity : F
  pub refill_per_sec : F
  pub buckets : Dict String F
  pub last_refill : Dict String ℤ
  pub max_keys : ℕ
  pub idle_ttl : ℤ

-- New
abbrev pub new : {F : Type 0} → F → F → Limiter F
new capacity refill_per_sec = record {
  capacity = capacity;
  refill_per_sec = refill_per_sec;
  buckets = Dict.empty;
  last_refill = Dict.empty;
  max_keys = 10000;
  idle_ttl = pos (15 * 60 * 1000000000);
}

module _ {F : Type 0} where
  -- A key that has been idle for longer than the limit is forgotten.
  unfoldable pub evict_one : ℤ → ℤ → String → ℤ → Limiter F → Limiter F
  evict_one ttl now key last l =
      if ltb_ℤ ttl (now -ℤ last)
      then record l { buckets = Dict.del l.buckets key; last_refill = Dict.del l.last_refill key }
      else l

  unfoldable pub evict_loop : ℤ → ℤ → List (String × ℤ) → Limiter F → Limiter F
  unfolding evict_one
  evict_loop ttl now [] l = l
  evict_loop ttl now ((key, last) ∷ rest) l = evict_loop ttl now rest (evict_one ttl now key last l)

  -- evictIdle
  unfoldable pub evict_idle : ℤ → Limiter F → Limiter F
  unfolding evict_loop
  evict_idle now l =
      if ltb (Dict.size l.buckets) l.max_keys
      then l
      else evict_loop l.idle_ttl now l.last_refill.entries l

module _ {F : Type 0} (fl : Floats F) where
  -- x > y
  abbrev pub gt : F → F → Bool
  gt x y = not (fl.le x y)

  -- The balance of a key, the capacity for a new one.
  unfoldable pub balance : Limiter F → String → F
  balance l key = elim (Dict.get l.buckets key) [ none ↦ l.capacity | some tokens ↦ tokens ]

  -- The balance after `elapsed` seconds.
  unfoldable pub refilled : Limiter F → F → F → F
  refilled l elapsed tokens =
      let sum = fl.add tokens (fl.mul elapsed l.refill_per_sec) in
      if gt elapsed fl.zero then if gt sum l.capacity then l.capacity else sum else tokens

  unfoldable pub current : ℤ → String → Limiter F → F
  unfolding balance refilled
  current now key l = elim (Dict.get l.last_refill key) [
    | none ↦ balance l key
    | some last ↦ refilled l (fl.seconds (now -ℤ last)) (balance l key)
  ]

  -- The step of a limiter with some capacity, behind the eviction.
  unfoldable pub take_token : ℤ → String → Limiter F → Bool × Limiter F
  unfolding current
  take_token now key l =
      let tokens = current now key l in
      let granted = fl.le fl.one tokens in
      (
        granted,
        record l {
          buckets = Dict.put l.buckets key (if granted then fl.sub tokens fl.one else tokens);
          last_refill = Dict.put l.last_refill key now;
        },
      )

  -- Allow
  unfoldable pub allow : ℤ → String → Limiter F → Bool × Limiter F
  unfolding take_token evict_idle
  allow now key l =
      if fl.le l.capacity fl.zero then (false, l) else take_token now key (evict_idle now l)

  -- ShouldLimit, where none is a nil limiter.
  unfoldable pub should_limit : ℤ → String → Option (Limiter F) → Bool × Option (Limiter F)
  unfolding allow
  should_limit now key none = (false, none)
  should_limit now key (some l) = let (granted, l') = allow now key l in (not granted, some l')
