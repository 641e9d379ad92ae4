-- ===== src/Gotify/Params.antt =====
-- internal/gotifycompat/deletions.go: the query parameters of the incremental sync.
use timelynotify_server.Base.{
  ℕ, ◌↔◌, zero, Bool, true, false, ◌&&◌, ◌||◌, [], Option, none, some, ℤ, negsuc, Text, text_key,
  if◌then◌else◌, ◌==◌, ◌≡◌, arith,
}
use timelynotify_server.Base.Strconv.{parse_uint}

pub data ParamError : Type 0 where
  after_and_since after_and_query after_export deleted_since_export : ParamError

-- limit == -1
abbrev pub is_export : ℤ → Bool
is_export (negsuc zero) = true
is_export _ = false

-- ValidateMessageListParams
unfoldable pub validate_message_list_params : Bool → Bool → Bool → Bool → ℤ → Option ParamError
validate_message_list_params after since query deleted_since limit =
    if after && since
    then some after_and_since
    else if after && query
    then some after_and_query
    else if after && is_export limit
    then some after_export
    else if deleted_since && is_export limit
    then some deleted_since_export
    else none

-- What ParseCursor returns: absent, a value, or an error.
pub data Cursor : Type 0 where
  absent invalid : Cursor
  present : ℕ → Cursor

cursor_from : Option ℕ → Cursor
cursor_from none = invalid
cursor_from (some v) = present v

-- ParseCursor
unfoldable pub parse_cursor : Text → Cursor
unfolding cursor_from
parse_cursor raw = if raw == [] then absent else cursor_from (parse_uint raw)

-- The parameters are accepted exactly if `after` comes with neither `since` nor `query`, and the
-- export at limit -1 with neither `after` nor `deletedSince`.
pub validate_message_list_params_lem :
    (after since query deleted_since : Bool) (limit : ℤ)
    → (validate_message_list_params after since query deleted_since limit ≡ none)
      ↔ (((after && (since || query)) || (is_export limit && (after || deleted_since))) ≡ false)
unfolding validate_message_list_params
validate_message_list_params_lem after since query deleted_since limit = ground arith
