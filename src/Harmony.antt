-- ===== src/Harmony.antt =====
-- harmony/token.go and harmony/client.go: the cached bearer token, the judgement on a reply of Push
-- Kit, the retry, and the notification that Send builds. Times are nanoseconds.
pub mod Retry
pub mod Click
pub mod Send
mod Tests
use text.Mathlib.Text.{◌==◌ as str_eq}
use timelynotify_server.Base.{
  ℕ, suc, ◌+◌, ◌*◌, ◌<◌, ◌≤◌, String, Bool, true, false, ◌&&◌, ◌||◌, not, List, [], ◌∷◌, Option,
  none, some, ℤ, pos, ◌+ℤ◌, ltb_ℤ, pos_part, neg_part, nat_eq, ltb, leb, if◌then◌else◌, length,
  is_some, ◌≡◌, refl, arith,
}

-- a == b
abbrev pub int_eq : ℤ → ℤ → Bool
int_eq a b = nat_eq (pos_part a + neg_part b) (pos_part b + neg_part a)

-- The JWT and its expiry.
pub record TokenSource : Type 0 where
  pub cached : String
  pub cached_exp : ℤ

abbrev pub second : ℕ
second = 1000000000

abbrev pub token_lifetime : ℤ
token_lifetime = pos (3600 * second)

abbrev pub refresh_lead_time : ℤ
refresh_lead_time = pos (300 * second)

-- now.Add(refreshLeadTime).Before(exp)
unfoldable pub is_fresh : ℤ → ℤ → Bool
unfolding ◌+ℤ◌
is_fresh now exp = ltb_ℤ (now +ℤ refresh_lead_time) exp

-- ForceInvalidate; the zero time is before every other.
abbrev pub force_invalidate : ℤ → TokenSource → TokenSource
force_invalidate zero_time ts = record { cached = ""; cached_exp = zero_time }

-- `sign` is what the JWT library makes of the claims at a time, none if it fails.
module _ (sign : ℤ → Option String) where
  -- Get
  unfoldable pub get : ℤ → TokenSource → Option String × TokenSource
  unfolding is_fresh ◌+ℤ◌
  get now ts =
      if not (str_eq ts.cached "") && is_fresh now ts.cached_exp
      then (some ts.cached, ts)
      else elim (sign now) [
        | none ↦ (none, ts)
        | some token ↦ (some token, record { cached = token; cached_exp = now +ℤ token_lifetime })
      ]

-- What comes back of a POST: no response, a body that cannot be read, or a status and a body with
-- the business code of a JSON document (0 without one).
pub data Reply : Type 0 where
  no_response : Reply
  unreadable not_json : ℕ → Reply
  json : ℕ → ℤ → Reply

pub record Outcome : Type 0 where
  pub http_status : ℕ
  pub hms_code : ℤ
  pub failed : Bool

abbrev pub success_code : ℤ
success_code = pos 80000000

abbrev pub expired_code : ℤ
expired_code = pos 80200003

-- The part of postOnce behind the request.
unfoldable pub judge : Reply → Outcome
judge no_response = record { http_status = 0; hms_code = pos 0; failed = true }
judge (unreadable status) = record { http_status = status; hms_code = pos 0; failed = true }
judge (not_json status) = record { http_status = status; hms_code = pos 0; failed = true }
judge (json status code) =
    if not (int_eq code (pos 0)) && not (int_eq code success_code)
    then record { http_status = status; hms_code = code; failed = true }
    else if nat_eq status 200
    then record { http_status = status; hms_code = code; failed = false }
    else record { http_status = status; hms_code = pos 0; failed = true }

abbrev pub no_token : Outcome
no_token = record { http_status = 0; hms_code = pos 0; failed = true }

module _ (sign : ℤ → Option String) where
  -- postOnce; `post` is the server's reply to a bearer token.
  unfoldable pub post_once : ℤ → (String → Reply) → TokenSource → Outcome × TokenSource
  unfolding get
  post_once now post ts =
      let (token, ts') = get sign now ts in
      (elim token [ none ↦ no_token | some t ↦ judge (post t) ], ts')

  -- withRetry, with the times and the replies of the two attempts.
  unfoldable pub with_retry :
      ℤ → ℤ × (String → Reply) → ℤ × (String → Reply) → TokenSource → Outcome × TokenSource
  unfolding post_once
  with_retry zero_time (now, post) (later, post_again) ts =
      let (outcome, ts') = post_once now post ts in
      if outcome.failed && int_eq outcome.hms_code expired_code
      then post_once later post_again (force_invalidate zero_time ts')
      else (outcome, ts')

pub record Badge : Type 0 where
  pub add_num : ℕ
  pub set_num : Option ℤ

abbrev pub badge_of : Option ℤ → Badge
badge_of none = record { add_num = 1; set_num = none }
badge_of (some n) = record { add_num = 0; set_num = some n }

-- clampSoundDuration
unfoldable pub clamp_sound_duration : ℤ → ℕ
clamp_sound_duration (pos n) = if ltb 60 n then 60 else n
clamp_sound_duration _ = 0
