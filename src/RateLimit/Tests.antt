-- ===== src/RateLimit/Tests.antt =====
-- A limiter over whole tokens, and the theorems at it.
use timelynotify_server.Base.{
  ℕ, ◌+◌, ◌-◌, ◌*◌, true, pos, pos_part, leb, string_key, ◌≡◌, arith, inl, inr, ◌⊎◌, Bool-cases,
}
use timelynotify_server.RateLimit.{Floats, Limiter, new, allow}
use timelynotify_server.RateLimit.Budget.{IsCapped, new-IsCapped, allow-IsCapped}

leb_total : (x y : ℕ) → (leb x y ≡ true) ⊎ (leb y x ≡ true)
leb_total x y = elim (Bool-cases (leb x y)) [ inl le ↦ inl le | inr gt ↦ inr (ground (arith, gt)) ]

le_refl : (x : ℕ) → leb x x ≡ true
le_refl x = ground arith

le_trans : (x y z : ℕ) → leb x y ≡ true → leb y z ≡ true → leb x z ≡ true
le_trans x y z h k = ground arith

sub_one-le : (x : ℕ) → leb (x - 1) x ≡ true
sub_one-le x = ground arith

abbrev whole : Floats ℕ
whole = record {
  le = leb;
  zero = 0;
  one = 1;
  add = λ x y. x + y;
  sub = λ x y. x - y;
  mul = λ x y. x * y;
  seconds = λ d. pos_part d;
  le_refl = le_refl;
  le_trans = le_trans;
  le_total = leb_total;
  sub_one-le = sub_one-le;
}

abbrev used : Limiter ℕ
used = (allow whole (pos 5) "a" (new 2 1)).1

allow-IsCapped_example : IsCapped whole used
allow-IsCapped_example = allow-IsCapped whole (pos 5) "a" (new 2 1) (new-IsCapped whole 2 1)
