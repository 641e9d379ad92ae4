-- ===== src/Harmony/Retry.antt =====
-- harmony/: which token is used, and when a send is tried again.
use text.Mathlib.Text.{◌==◌ as str_eq}
use timelynotify_server.Base.{
  String, Bool, true, false, ◌&&◌, ◌||◌, not, Option, none, some, ℤ, pos, ◌+ℤ◌, nat_eq,
  if◌then◌else◌, ◌≡◌, refl, arith, Bool-cases, Option-cases, inl, inr,
}
use timelynotify_server.Harmony.{
  int_eq, TokenSource, is_fresh, force_invalidate, get, Reply, no_response, unreadable, not_json,
  json, judge, no_token, success_code, expired_code, token_lifetime, post_once, with_retry,
}

signed-is_fresh : (now : ℤ) → is_fresh now (now +ℤ token_lifetime) ≡ true
unfolding is_fresh ◌+ℤ◌
signed-is_fresh now = ground arith

-- What Get returns is what it has cached, and it is good for more than five minutes from then on.
pub get-is_fresh :
    (sign : ℤ → Option String) (now : ℤ) (ts : TokenSource) (token : String)
    → (get sign now ts).0 ≡ some token
    → ((get sign now ts).1.cached ≡ token) × (is_fresh now (get sign now ts).1.cached_exp ≡ true)
unfolding get
get-is_fresh sign now ts token h =
    elim (Bool-cases (not (str_eq ts.cached "") && is_fresh now ts.cached_exp)) [
      | inl fresh ↦ (ground (arith, h, fresh), ground (arith, h, fresh))
      | inr stale ↦ elim (Option-cases (sign now)) [
        | inl e ↦ absurd (ground (arith, h, stale, e))
        | inr (t, e) ↦
            (ground (arith, h, stale, e), ground (arith, h, stale, e, signed-is_fresh now))
      ]
    ]

-- A JSON reply with status 200 and the code 0 or 80000000.
abbrev pub is_accepted : Reply → Bool
is_accepted (json status code) =
    nat_eq status 200 && (int_eq code (pos 0) || int_eq code success_code)
is_accepted _ = false

-- A send succeeds exactly on a JSON reply with status 200 and the code 0 or 80000000.
pub judge-is_accepted : (r : Reply) → (judge r).failed ≡ not (is_accepted r)
unfolding judge
judge-is_accepted no_response = refl
judge-is_accepted (unreadable status) = refl
judge-is_accepted (not_json status) = refl
judge-is_accepted (json status code) = ground arith

after_invalidate :
    (sign : ℤ → Option String) (later : ℤ) (post : String → Reply) (zero_time : ℤ)
    (ts : TokenSource)
    → (post_once sign later post (force_invalidate zero_time ts)).0
      ≡ (elim (sign later) [ none ↦ no_token | some t ↦ judge (post t) ])
unfolding post_once get
after_invalidate sign later post zero_time ts = elim (Option-cases (sign later)) [
  | inl e ↦ rw (e, post_once) refl
  | inr (t, e) ↦ rw (e, post_once) refl
]

-- A send whose first attempt fails with the code of an expired token is tried once more, with a
-- token that is signed anew; any other outcome is returned as it is.
pub with_retry_lem :
    (sign : ℤ → Option String) (zero_time now later : ℤ) (post post_again : String → Reply)
    (ts : TokenSource)
    → (with_retry sign zero_time (now, post) (later, post_again) ts).0 ≡ (
        if (post_once sign now post ts).0.failed
          && int_eq (post_once sign now post ts).0.hms_code expired_code
        then elim (sign later) [ none ↦ no_token | some t ↦ judge (post_again t) ]
        else (post_once sign now post ts).0)
unfolding with_retry
with_retry_lem sign zero_time now later post post_again ts =
    elim (Bool-cases (
      (post_once sign now post ts).0.failed
      && int_eq (post_once sign now post ts).0.hms_code expired_code)) [
        | inr done ↦ ground (arith, done)
        | inl expired ↦
            let again : (post_once sign later post_again
                  (force_invalidate zero_time (post_once sign now post ts).1)).0
                ≡ (elim (sign later) [ none ↦ no_token | some t ↦ judge (post_again t) ]) =
              after_invalidate sign later post_again zero_time (post_once sign now post ts).1 in
            ground (arith, expired, again)
      ]
