-- ===== src/Gotify/Bolt/Tests.antt =====
-- Concrete runs of bboltStore, and the theorems at them.
use timelynotify_server.Base.{
  ℕ, String, Bool, true, Text, leb, ◌&&◌, is_pos_ℤ, if◌then◌else◌, Bool-cases, ◌==◌, List, [], ◌∷◌,
  Option, none, some, ℤ, pos, ◌≡◌, refl, arith, codes, ◌>>=◌, string_key, text_key, nat_key, ◌⊎◌,
  inl, inr, length, ltb, ◌↔◌,
}
use timelynotify_server.Base.Dict
use timelynotify_server.Base.Strconv.{format_int}
use timelynotify_server.Gotify.Value.{Value, Extras, sprint}
use timelynotify_server.Gotify.Model.{Message, DeletionRecord, source_device, extra_id_of}
use timelynotify_server.Gotify.Memory.{
  zero_message, new_memory_store, cursor_of, set_cursor, stamped, of_device,
}
use timelynotify_server.Gotify.Memory.Run.{run}
use timelynotify_server.Gotify.Bolt
use timelynotify_server.Gotify.Bolt.{Format, BoltStore, new_bolt_store}
use timelynotify_server.Gotify.Bolt.Table
use timelynotify_server.Gotify.Bolt.Keys.{
  device_prefix, device_scoped_key, scoped_id, has_prefix, precedes,
}
use timelynotify_server.Gotify.Bolt.Keys.Order.{device_scoped_key_lem}
use timelynotify_server.Gotify.Bolt.Mirror.{Accepts, Travels, seen}
use timelynotify_server.Gotify.Bolt.Mirror.Run.{
  Write, put, upsert, delete, delete_extra, as_calls, AllFit, write_run,
}
use timelynotify_server.Gotify.Bolt.Mirror.Answers.{
  after, bolt_answer, memory_answer, seen_answer, write_run-answer,
}

-- What JSON makes of a value: an int comes back as a float64.
abbrev read_value : Value → Value
read_value (Value.num n) = Value.float (record {
  text = format_int n;
  plain = format_int n;
  trunc = n;
  integral = true;
  positive = is_pos_ℤ n;
})
read_value v = v

abbrev read_fields : List (String × Value) → List (String × Value)
read_fields [] = []
read_fields ((name, v) ∷ fields) = (name, read_value v) ∷ read_fields fields

abbrev read_extras : Extras → Extras
read_extras extras = record { entries = read_fields extras.entries }

-- Encodings, as what can be read from them. A message loses its DeviceKey and its ExpiresAt, and a key
-- holds a device of at most 8,000 characters.
abbrev Raw : Type 0
Raw = Message ⊎ DeletionRecord

abbrev device_fits : String → Bool
device_fits device = leb (length (codes device)) 8000

abbrev short : Text → Bool
short extra_id = leb (length extra_id) 1000

abbrev lossy : Format Raw
lossy = record {
  encode = λ m.
      some (inl (record m { extras = read_extras m.extras; device_key = ""; expires_at = pos 0 }));
  decode = λ raw. elim raw as (λ _. Option Message) [ inl m ↦ some m | inr r ↦ none ];
  encode_row = λ r. if device_fits r.device_key && short r.extra_id then some (inr r) else none;
  decode_row = λ raw. elim raw as (λ _. Option DeletionRecord) [ inl m ↦ none | inr r ↦ some r ];
  fits = device_fits;
}

abbrev lossy-Accepts : Accepts lossy
lossy-Accepts = record {
  read_extras = read_extras;
  room = short;
  room-empty = refl;
  encodes_row = λ r fit small. (inr r, rw (fit, small) refl, refl);
}

abbrev text_for : String → String → Message
text_for device id = record zero_message {
  message = "hello";
  device_key = device;
  extras =
      Dict.put (Dict.put (Dict.put Dict.empty "id" (Value.str id)) "device_key" (Value.str device))
        "n" (Value.num (pos 7));
  expires_at = pos 900;
}

text_for-Travels :
    (device id : String)
    → device_fits device ≡ true
    → Travels lossy lossy-Accepts (text_for device id)
unfolding source_device extra_id_of Dict.put Dict.get
text_for-Travels device id fit = record {
  stored =
      λ i. (inl (seen lossy lossy-Accepts (record (text_for device id) { id = i })), refl, refl);
  device = elim (Bool-cases (device == "")) [ inl e ↦ rw e refl | inr e ↦ rw e refl ];
  extra = refl;
  fits = elim (Bool-cases (device == "")) [ inl e ↦ rw e fit | inr e ↦ rw e fit ];
}

-- The second upsert overwrites, the last put evicts, and both deletes meet a message.
abbrev writes : List (ℤ × Write)
writes =
    (pos 10, put (text_for "phone" "1"))
    ∷ (pos 11, upsert "desk" (codes "7") (text_for "desk" "7"))
    ∷ (pos 12, upsert "desk" (codes "7") (text_for "desk" "7"))
    ∷ (pos 13, put (text_for "phone" "2"))
    ∷ (pos 14, put (text_for "phone" "3"))
    ∷ (pos 15, delete "phone" 3)
    ∷ (pos 16, delete_extra "phone" (codes "3"))
    ∷ (pos 17, put (text_for "phone" "4"))
    ∷ []

writes-AllFit : AllFit lossy lossy-Accepts writes
unfolding source_device
writes-AllFit = (
  text_for-Travels "phone" "1" refl,
  (
    (text_for-Travels "desk" "7" refl, refl),
    (
      (text_for-Travels "desk" "7" refl, refl),
      (
        text_for-Travels "phone" "2" refl,
        (
          text_for-Travels "phone" "3" refl,
          (tt, ((refl, refl), (text_for-Travels "phone" "4" refl, tt))),
        ),
      ),
    ),
  ),
)

write_run-answer_example :
    (write_run lossy writes (new_bolt_store 2)
      >>= bolt_answer (λ c. c) lossy (after "phone" 0 (pos 5)))
    ≡ seen_answer lossy lossy-Accepts (
        memory_answer
          (λ c. c)
          (after "phone" 0 (pos 5))
          (run (as_calls writes) (new_memory_store 2)))
write_run-answer_example =
    write_run-answer (λ c. c) lossy lossy-Accepts writes 2 (after "phone" 0 (pos 5)) writes-AllFit
      refl (omega arith) (omega arith)

counters : Option (BoltStore Raw) → Option (ℕ × ℕ × ℕ)
counters none = none
counters (some b) = some (b.count, b.seq, b.del_seq)

-- Five ids and five rows of the log, and one message that is left.
writes-counts : counters (write_run lossy writes (new_bolt_store 2)) ≡ some (1, 5, 5)
unfolding counters write_run Bolt.add Bolt.upsert_by_extra_id Bolt.delete_scoped
    Bolt.delete_by_extra_id source_device Table.put Table.get Table.del extra_id_of Dict.get
    Dict.put sprint cursor_of set_cursor stamped of_device
writes-counts = refl

abbrev name_a : List ℕ
name_a = 97 ∷ []

abbrev name_ab : List ℕ
name_ab = 97 ∷ 98 ∷ []

device_scoped_key_lem_example :
    ((has_prefix (device_scoped_key name_ab 255) (device_prefix name_a) ≡ true)
      ↔ (name_ab ≡ name_a))
    × (scoped_id (device_scoped_key name_ab 255) (length (device_prefix name_ab)) ≡ 255)
    × (precedes (device_scoped_key name_ab 255) (device_scoped_key name_ab 256) ≡ ltb 255 256)
device_scoped_key_lem_example =
    device_scoped_key_lem name_ab name_a 255 256 (omega arith) (omega arith) (omega arith)
      (omega arith)
