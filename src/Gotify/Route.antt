-- ===== src/Gotify/Route.antt =====
-- route_gotify.go: the message list of one device, from the query to the reply.
mod Tests
use timelynotify_server.Base.{
  ℕ, zero, suc, ◌+◌, ◌-◌, ◌*◌, ◌^◌, ◌≤◌, String, Bool, true, false, not, ◌&&◌, List, [], ◌∷◌,
  Option, none, some, ℤ, pos, negsuc, Text, text_key, leb, ltb, nat_eq, if◌then◌else◌, ◌==◌, ◌≡◌,
  refl, arith, length, take, length-take-le, Bool-cases, Option-cases, inl, inr, ◌>>=◌, ap,
  pos_part, sym, ◌∙◌,
}
use timelynotify_server.Base.Strings.{trim_space}
use timelynotify_server.Gotify.Model.{Message, DeletionsPage}
use timelynotify_server.Gotify.Params.{
  Cursor, absent, invalid, present, parse_cursor, validate_message_list_params,
  validate_message_list_params_lem, is_export,
}
use timelynotify_server.Gotify.Memory.{MemoryStore}
use timelynotify_server.Gotify.Memory.Log.{deletions_by_device}
use timelynotify_server.Gotify.Memory.Reads.{
  after_by_device, search_by_device, recent_page_by_device,
}
use timelynotify_server.Gotify.Memory.Reads.Pages.{
  page, has_next, capped, newest, oldest, after_by_device_lem, recent_page_by_device_lem,
}
use timelynotify_server.Gotify.Memory.Reads.Search.{matching, search_by_device_lem}

pub record MessageQuery : Type 0 where
  pub limit : ℤ
  pub since : ℕ
  pub since_present : Bool
  pub query : Text
  pub after : ℕ
  pub after_present : Bool
  pub deleted_since : ℕ
  pub deleted_since_present : Bool

-- What strconv.ParseUint(s, 10, 64) returns beside its error: 0 for a text that is no number, and the
-- largest uint64 for one that is too large.
uint_or_max : ℕ → Text → ℕ
uint_or_max n [] = n
uint_or_max n (c ∷ s) =
    let next = n * 10 + (c - b'0') in
    let rest = uint_or_max next s in
    if not (leb b'0' c && leb c b'9') then 0 else if ltb (2 ^ 64 - 1) next then 2 ^ 64 - 1 else rest

-- The limit is -1 for an export, 0, or from 1 to 200.
clamp_limit : ℤ → ℤ
clamp_limit (negsuc zero) = negsuc zero
clamp_limit (negsuc (suc n)) = pos 1
clamp_limit (pos n) = if ltb 200 n then pos 200 else pos n

-- A cursor that is not given is 0.
cursor_value : Cursor → Option (ℕ × Bool)
cursor_value absent = some (0, false)
cursor_value invalid = none
cursor_value (present n) = some (n, true)

-- parseMessageQuery on the parameters limit (100 if it is not given), since, query, after and
-- deletedSince.
unfoldable pub parse_message_query : ℤ → Text → Text → Text → Text → Option MessageQuery
unfolding uint_or_max clamp_limit cursor_value
parse_message_query limit since query after deleted_since = do
  (a, a_present) ← cursor_value (parse_cursor after)
  (d, d_present) ← cursor_value (parse_cursor deleted_since)
  some record {
    limit = clamp_limit limit;
    since = uint_or_max 0 since;
    since_present = not (since == []);
    query = trim_space query;
    after = a;
    after_present = a_present;
    deleted_since = d;
    deleted_since_present = d_present;
  }

-- The envelope: the paging object, the messages, and the deletions. total is there for a search, and
-- after for a request with that cursor.
pub record Envelope : Type 0 where
  pub messages : List Message
  pub size : ℕ
  pub limit : ℤ
  pub since : ℕ
  pub after : Option ℕ
  pub total : Option ℕ
  pub has_more : Bool
  pub deletions : Option DeletionsPage

-- messageResponse; no total is -1 there.
message_response : List Message → MessageQuery → Option ℕ → Bool → Envelope
message_response rows q total more = record {
  messages = rows;
  size = length rows;
  limit = q.limit;
  since = q.since;
  after = if q.after_present then some q.after else none;
  total = total;
  has_more = more;
  deletions = none;
}

-- `failed` stands for a handler that panics.
pub data Reply : Type 0 where
  unauthorized bad_request failed : Reply
  export : MessageQuery → Reply
  listed : Envelope → Reply

module _ (lower : ℕ → ℕ) (device : String) (s : MemoryStore) where
  -- The branch of the list: after, query, or the newest page. none is the panic of a page.
  message_list : MessageQuery → Option Envelope
  unfolding message_response
  message_list q =
      if q.after_present
      then (do
        (rows, more) ← after_by_device device q.after q.limit s
        some (message_response rows q none more))
      else if not (q.query == [])
      then (let (rows, total) = search_by_device lower device q.query q.limit q.since s in
          some (message_response rows q (some total) (ltb (length rows) total)))
      else (do
        (rows, more) ← recent_page_by_device device q.limit q.since s
        some (message_response rows q none more))

  -- The deletions come with any of the branches.
  with_deletions : MessageQuery → Envelope → Envelope
  with_deletions q e =
      if q.deleted_since_present
      then record e { deletions = some (deletions_by_device device q.deleted_since s) }
      else e

  -- The envelope as the reply.
  list_reply : MessageQuery → Option Envelope → Reply
  unfolding with_deletions
  list_reply q none = failed
  list_reply q (some e) = listed (with_deletions q e)

  respond : MessageQuery → ℤ → Reply
  unfolding message_list list_reply
  respond q (negsuc _) = export q
  respond q (pos _) = list_reply q (message_list q)

  answer : Option MessageQuery → Reply
  unfolding respond
  answer none = bad_request
  answer (some q) =
      elim (validate_message_list_params q.after_present q.since_present (not (q.query == []))
        q.deleted_since_present q.limit) [ some _ ↦ bad_request | none ↦ respond q q.limit ]

  -- routeGotifyDeviceMessage, with what ValidateToken says of the request's token.
  unfoldable pub device_message : Bool → ℤ → Text → Text → Text → Text → Reply
  unfolding answer
  device_message authorized limit since query after deleted_since =
      if authorized
      then answer (parse_message_query limit since query after deleted_since)
      else unauthorized

-- A reply lists at most 200 messages, an export asks for neither cursor, and no handler panics.
abbrev pub Admissible : Reply → Type 0
Admissible (listed e) = length e.messages ≤ 200
Admissible (export q) =
    (q.limit ≡ negsuc 0) × (q.after_present ≡ false) × (q.deleted_since_present ≡ false)
Admissible failed = ⊥
Admissible unauthorized = Unit
Admissible bad_request = Unit

clamp_limit-le : (limit : ℤ) (n : ℕ) → clamp_limit limit ≡ pos n → n ≤ 200
unfolding clamp_limit
clamp_limit-le (negsuc zero) n h = cc
clamp_limit-le (negsuc (suc k)) n h = ground (arith, ap pos_part h)
clamp_limit-le (pos k) n h = elim (Bool-cases (ltb 200 k)) [
  | inl e ↦ ground (arith, ap pos_part h, e)
  | inr e ↦ ground (arith, ap pos_part h, e)
]

clamp_limit-export :
    (limit : ℤ) (k : ℕ) → clamp_limit limit ≡ negsuc k → clamp_limit limit ≡ negsuc 0
unfolding clamp_limit
clamp_limit-export (negsuc zero) k h = refl
clamp_limit-export (negsuc (suc j)) k h = cc
clamp_limit-export (pos j) k h = elim (Bool-cases (ltb 200 j)) [
  | inl e ↦ ground (arith, h, e)
  | inr e ↦ ground (arith, h, e)
]

length-page : (n : ℕ) (rows : List Message) → length (page (pos n) rows).0 ≤ n
length-page zero rows = omega arith
length-page (suc n) rows = length-take-le (suc n) rows

module _ (lower : ℕ → ℕ) (device : String) (s : MemoryStore) where
  message_list-fits :
      (q : MessageQuery) (n : ℕ)
      → q.limit ≡ pos n
      → n ≤ 200
      → (e : Envelope) × (message_list lower device s q ≡ some e) × (length e.messages ≤ n)
  unfolding message_list message_response
  message_list-fits q n h small =
      let next : has_next (pos n) ≡ true = ground arith in
      elim (Bool-cases q.after_present) [
        | inl forward ↦
            rw (forward, h, after_by_device_lem device s q.after (pos n), next)
              (_, refl, length-page n _)
        | inr e ↦ elim (Bool-cases (q.query == [])) [
          | inl plain ↦
              rw (e, plain, h, recent_page_by_device_lem device s (pos n) q.since, next)
                (_, refl, length-page n _)
          | inr search ↦
              rw (e, search, h, search_by_device_lem lower device q.query (pos n) q.since s)
                (_, refl, length-take-le n _)
        ]
      ]

  length-with_deletions :
      (q : MessageQuery) (e : Envelope)
      → length (with_deletions lower device s q e).messages ≡ length e.messages
  unfolding with_deletions
  length-with_deletions q e = elim (Bool-cases q.deleted_since_present) [
    | inl asked ↦ rw asked refl
    | inr unasked ↦ rw unasked refl
  ]

  respond-Admissible :
      (q : MessageQuery) (l : ℤ)
      → q.limit ≡ l
      → ((n : ℕ) → l ≡ pos n → n ≤ 200)
      → ((k : ℕ) → l ≡ negsuc k → Admissible (export q))
      → Admissible (respond lower device s q l)
  unfolding respond list_reply
  respond-Admissible q (negsuc k) h small exported = exported k refl
  respond-Admissible q (pos n) h small exported =
      let few : n ≤ 200 = small n refl in
      let (e, listed_, rows) = message_list-fits q n h few in
      rw (listed_, list_reply) (omega (arith, rows, few, length-with_deletions q e))

  parsed-limit :
      (limit : ℤ) (since query after deleted_since : Text) (q : MessageQuery)
      → parse_message_query limit since query after deleted_since ≡ some q
      → q.limit ≡ clamp_limit limit
  unfolding parse_message_query
  parsed-limit limit since query after deleted_since q h =
      elim (Option-cases (cursor_value (parse_cursor after))) [
        | inl bad ↦ ground (arith, h, bad)
        | inr (a, good) ↦ elim (Option-cases (cursor_value (parse_cursor deleted_since))) [
          | inl bad ↦ ground (arith, h, good, bad)
          | inr (d, fine) ↦ ground (arith, h, good, fine)
        ]
      ]

  -- A query that passes the checks and has the limit of an export has neither cursor.
  accepted-Admissible :
      (q : MessageQuery)
      → validate_message_list_params q.after_present q.since_present
          (not (q.query == []))
          q.deleted_since_present
          q.limit
        ≡ none
      → q.limit ≡ negsuc 0
      → Admissible (export q)
  accepted-Admissible q fine e =
      let passed =
        (validate_message_list_params_lem q.after_present q.since_present (not (q.query == []))
            q.deleted_since_present q.limit).0
          fine in
      let export_limit : is_export q.limit ≡ true = rw e refl in
      (e, ground (arith, passed, export_limit), ground (arith, passed, export_limit))

  -- However the parameters are given, a reply of the message route that lists messages has at most 200
  -- of them, an export is made only at the limit -1 without after and without deletedSince, and the
  -- handler does not panic.
  pub device_message-Admissible :
      (authorized : Bool) (limit : ℤ) (since query after deleted_since : Text)
      → Admissible (device_message lower device s authorized limit since query after deleted_since)
  unfolding device_message
  device_message-Admissible false limit since query after deleted_since = tt
  device_message-Admissible true limit since query after deleted_since =
      elim (Option-cases (parse_message_query limit since query after deleted_since)) [
        | inl bad ↦ rw (bad, answer) tt
        | inr (q, good) ↦
            elim (Option-cases (
              validate_message_list_params q.after_present q.since_present (not (q.query == []))
                q.deleted_since_present q.limit)) [
                  | inr (_, bad) ↦ rw (good, bad, answer) tt
                  | inl fine ↦
                      let parsed = parsed-limit limit since query after deleted_since q good in
                      rw (good, fine, answer)
                        (respond-Admissible q q.limit refl
                          (λ n e. clamp_limit-le limit n (sym parsed ∙ e))
                          (λ k e.
                            accepted-Admissible q fine
                              (parsed ∙ clamp_limit-export limit k (sym parsed ∙ e))))
                ]
      ]
