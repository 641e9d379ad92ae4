-- ===== src/Gotify/Token/Tests.antt =====
-- Concrete starts, and the theorem at them.
use timelynotify_server.Base.{true, [], ◌∷◌, none, some, Text, codes, ◌≡◌, refl, arith, ◌>>=◌}
use timelynotify_server.Gotify.Token.{TokenStore, Token, persisted, init_token, init_token-restart}

-- A digest with one byte in front.
digest : Text → Text
digest t = 1 ∷ t

abbrev fresh : TokenStore
fresh = record { hash = []; plain = []; writable = true; readable = true }

init_token-restart_example :
    (init_token digest [] (some (codes "abc")) fresh >>= λ r.
    init_token digest [] (some (codes "xyz")) r.1)
    ≡ (init_token digest [] (some (codes "abc")) fresh >>= λ r.
        some (record { token_hash = r.0.token_hash; auto_token = []; source = persisted }, r.1))
unfolding digest
init_token-restart_example =
    init_token-restart digest (some (codes "abc")) (some (codes "xyz")) fresh (λ t. ground arith)
      refl refl

accepted : (Token × TokenStore) → Text × Text
accepted (t, s) = (t.token_hash, s.plain)

-- The plain text is kept with the hash, and a token of the operator clears it.
kept :
    (init_token digest [] (some (codes "abc")) fresh >>= λ r. some (accepted r))
    ≡ some (1 ∷ codes "abc", codes "abc")
unfolding init_token digest accepted
kept = refl

cleared :
    (init_token digest (codes "op") none fresh >>= λ r. some (accepted r))
    ≡ some (1 ∷ codes "op", [])
unfolding init_token digest accepted
cleared = refl
