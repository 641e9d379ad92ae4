-- ===== src/Gotify/Publish/Tests.antt =====
-- The letters of ASCII, and the theorem at a level with a capital letter.
use timelynotify_server.Base.{
  ℕ, ◌+◌, ◌&&◌, leb, if◌then◌else◌, false, ◌≡◌, arith, string_key, nat_eq, map, codes, ◌↔◌, ◌≤◌,
}
use timelynotify_server.Base.Dict
use timelynotify_server.Gotify.Value.{Value, Extras}
use timelynotify_server.Gotify.Model.{as_string}
use timelynotify_server.Gotify.Publish.{gotify_priority, gotify_priority_lem}

ascii_lower : ℕ → ℕ
ascii_lower c = if leb b'A' c && leb c b'Z' then c + 32 else c

ascii_lower-small : (c : ℕ) → nat_eq (ascii_lower c) b'S' ≡ false
unfolding ascii_lower
ascii_lower-small c = ground arith

abbrev urgent : Extras
urgent = Dict.put Dict.empty "level" (Value.str "timeSensitive")

gotify_priority_lem_example :
    let level = map ascii_lower (codes (as_string (Dict.get urgent "level"))) in
    ((gotify_priority ascii_lower urgent ≡ 2) ↔ (level ≡ codes "critical"))
    × ((gotify_priority ascii_lower urgent ≡ 1) ↔ (level ≡ codes "active"))
    × (gotify_priority ascii_lower urgent ≤ 2)
gotify_priority_lem_example = gotify_priority_lem ascii_lower urgent ascii_lower-small
