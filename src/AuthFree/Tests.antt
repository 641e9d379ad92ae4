-- ===== src/AuthFree/Tests.antt =====
-- Concrete paths, and the theorem at one of them.
use timelynotify_server.Base.{true, false, ◌∷◌, codes, ◌≡◌, refl}
use timelynotify_server.AuthFree.{split, clean, is_auth_free_path}
use timelynotify_server.AuthFree.Segments.{is_exempt, is_auth_free_path-is_exempt}

health_below_prefix : is_auth_free_path (codes "/api/") (codes "/api/healthz") ≡ true
unfolding is_auth_free_path
health_below_prefix = refl

evil : is_auth_free_path (codes "/api") (codes "/api/dev/messageevil") ≡ false
unfolding is_auth_free_path
evil = refl

cleaned : clean (codes "/a/./b//../c/") ≡ codes "/a/c"
unfolding clean
cleaned = refl

is_auth_free_path-is_exempt_example :
    is_auth_free_path (codes "") (b'/' ∷ codes "dev/message/7")
    ≡ is_exempt (split (codes "dev/message/7"))
is_auth_free_path-is_exempt_example = is_auth_free_path-is_exempt (codes "dev/message/7")
