-- ===== src/Harmony/Click.antt =====
-- harmony/client.go: the data of a click, a JSON object that the app receives.
use timelynotify_server.Base.{
  ℕ, String, not, ◌&&◌, ◌||◌, Option, none, some, if◌then◌else◌, nat_eq, string_key, ◌==◌, ◌≡◌,
  arith, Bool-cases, inl, inr, str_eq_iff, ◌∙◌, ==_sym,
}
use timelynotify_server.Base.Strings.{string_of}
use timelynotify_server.Base.Strconv.{format_uint}
use timelynotify_server.Base.Dict
use timelynotify_server.Base.Dict.{Dict, get-put, get-del, get-empty}
use timelynotify_server.Gotify.Value.{Value, Extras}

abbrev pub string_at : Option Value → Option String
string_at (some (Value.str s)) = some s
string_at _ = none

-- encoding/json on objects: none where a text is no object (null included), or where a value has no
-- JSON form. Text members come back as they were.
pub record Json : Type 0 where
  pub parse : String → Option Extras
  pub encode : Extras → Option String
  pub parse-encode :
      (v : Extras) (t : String)
      → encode v ≡ some t
      → (w : Extras) × (parse t ≡ some w)
        × ((key : String) → string_at (Dict.get w key) ≡ string_at (Dict.get v key))

module _ (json : Json) where
  -- parseDataField
  unfoldable pub parse_data_field : String → Extras
  parse_data_field text = elim (json.parse text) [
    | some values ↦ values
    | none ↦ Dict.put Dict.empty "data" (Value.str text)
  ]

  unfoldable pub fields_of : String → Extras
  unfolding parse_data_field
  fields_of text = if text == "" then Dict.empty else parse_data_field text

  abbrev encoded_or : String → Extras → String
  encoded_or text values = elim (json.encode values) [ none ↦ text | some t ↦ t ]

  -- MergeClickActionData
  unfoldable pub merge_click_action_data : String → String → String
  unfolding fields_of
  merge_click_action_data text url =
      if url == "" then text else encoded_or text (Dict.put (fields_of text) "url" (Value.str url))

  abbrev cleared : String → Extras → Extras
  cleared action values =
      Dict.del (Dict.del (Dict.put values "tn_action" (Value.str action)) "tn_instance_id")
        "tn_message_id"

  -- The routing entries of a click on a notice.
  unfoldable pub click_target : Extras → String → String → ℕ → Extras
  click_target values action instance_id message_id =
      if not (instance_id == "") && not (nat_eq message_id 0)
      then Dict.put (Dict.put (cleared action values) "tn_instance_id" (Value.str instance_id))
          "tn_message_id" (Value.str (string_of (format_uint message_id)))
      else cleared action values

  -- MergeNoticeClickTarget
  unfoldable pub merge_notice_click_target : String → String → String → ℕ → String
  unfolding click_target fields_of
  merge_notice_click_target text action instance_id message_id =
      encoded_or text (click_target (fields_of text) action instance_id message_id)

  -- What the app reads under a key of a click target.
  abbrev pub target_entry : Extras → String → String → ℕ → String → Option String
  target_entry values action instance_id message_id key =
      let routed = not (instance_id == "") && not (nat_eq message_id 0) in
      if key == "tn_action"
      then some action
      else if key == "tn_instance_id"
      then (if routed then some instance_id else none)
      else if key == "tn_message_id"
      then (if routed then some (string_of (format_uint message_id)) else none)
      else string_at (Dict.get values key)

  get-cleared :
      (values : Extras) (action key : String)
      → Dict.get (cleared action values) key ≡ (
          if (key == "tn_message_id") || (key == "tn_instance_id")
          then none
          else if key == "tn_action"
          then some (Value.str action)
          else Dict.get values key)
  get-cleared values action key =
      let written = Dict.put values "tn_action" (Value.str action) in
      ground (
        arith,
        get-put values "tn_action" key (Value.str action),
        get-del written "tn_instance_id" key,
        get-del (Dict.del written "tn_instance_id") "tn_message_id" key,
        ==_sym "tn_action" key,
        ==_sym "tn_instance_id" key,
        ==_sym "tn_message_id" key,
      )

  at_message :
      (values : Extras) (action instance_id : String) (message_id : ℕ)
      → string_at (Dict.get (click_target values action instance_id message_id) "tn_message_id")
        ≡ target_entry values action instance_id message_id "tn_message_id"
  unfolding click_target
  at_message values action instance_id message_id =
      let base = cleared action values in
      let more = Dict.put base "tn_instance_id" (Value.str instance_id) in
      ground (
        arith,
        get-put more "tn_message_id" "tn_message_id"
            (Value.str (string_of (format_uint message_id))),
        get-cleared values action "tn_message_id",
      )

  at_instance :
      (values : Extras) (action instance_id : String) (message_id : ℕ)
      → string_at (Dict.get (click_target values action instance_id message_id) "tn_instance_id")
        ≡ target_entry values action instance_id message_id "tn_instance_id"
  unfolding click_target
  at_instance values action instance_id message_id =
      let base = cleared action values in
      let more = Dict.put base "tn_instance_id" (Value.str instance_id) in
      ground (
        arith,
        get-put more "tn_message_id" "tn_instance_id"
            (Value.str (string_of (format_uint message_id))),
        get-put base "tn_instance_id" "tn_instance_id" (Value.str instance_id),
        get-cleared values action "tn_instance_id",
      )

  get-click_target :
      (values : Extras) (action instance_id : String) (message_id : ℕ) (key : String)
      → string_at (Dict.get (click_target values action instance_id message_id) key)
        ≡ target_entry values action instance_id message_id key
  unfolding click_target
  get-click_target values action instance_id message_id key =
      let base = cleared action values in
      let more = Dict.put base "tn_instance_id" (Value.str instance_id) in
      let last =
        get-put more "tn_message_id" key (Value.str (string_of (format_uint message_id))) in
      let before = get-put base "tn_instance_id" key (Value.str instance_id) in
      elim (Bool-cases (key == "tn_message_id")) [
        | inl e ↦
            rw ((str_eq_iff key "tn_message_id").0 e)
              (at_message values action instance_id message_id)
        | inr other ↦ elim (Bool-cases (key == "tn_instance_id")) [
          | inl e ↦
              rw ((str_eq_iff key "tn_instance_id").0 e)
                (at_instance values action instance_id message_id)
          | inr still ↦ ground (
            arith,
            last,
            before,
            get-cleared values action key,
            ==_sym "tn_instance_id" key,
            ==_sym "tn_message_id" key,
            other,
            still,
          )
        ]
      ]

  decoded :
      (text : String) (values : Extras) (t key : String)
      → json.encode values ≡ some t
      → string_at (Dict.get (parse_data_field (encoded_or text values)) key)
        ≡ string_at (Dict.get values key)
  unfolding parse_data_field
  decoded text values t key e =
      let (w, parsed, same) = json.parse-encode values t e in
      rw (e, encoded_or, parsed, parse_data_field) (same key)

  -- Where the click data can be encoded, the app that parses them finds the action, the instance and
  -- the decimal message id if both are known and else neither, whatever the sender put there, and every
  -- other text as the sender gave it.
  pub merge_notice_click_target_lem :
      (text action instance_id : String) (message_id : ℕ) (t : String) (key : String)
      → json.encode (click_target (fields_of text) action instance_id message_id) ≡ some t
      → string_at (
          Dict.get
            (parse_data_field (merge_notice_click_target text action instance_id message_id))
            key)
        ≡ target_entry (fields_of text) action instance_id message_id key
  unfolding merge_notice_click_target
  merge_notice_click_target_lem text action instance_id message_id t key e =
      decoded text (click_target (fields_of text) action instance_id message_id) t key e
      ∙ get-click_target (fields_of text) action instance_id message_id key
