-- ===== src/Logging/Tests.antt =====
-- Concrete fields, and the theorems at them.
use timelynotify_server.Base.{ℕ, ◌≡◌, refl, codes, ◌+◌, ◌&&◌, leb, if◌then◌else◌}
use timelynotify_server.Logging.{mask_middle}

ascii_lower : ℕ → ℕ
ascii_lower c = if leb 65 c && leb c 90 then c + 32 else c

abcd : mask_middle (codes "abcdefghijkl") ≡ codes "abcd***ijkl"
unfolding mask_middle
abcd = refl
