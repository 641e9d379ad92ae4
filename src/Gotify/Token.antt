-- ===== src/Gotify/Token.antt =====
-- internal/gotifycompat/token.go, and the client token in Init of service.go. SHA-256 is a parameter,
-- and so is the random token (none if it cannot be made). A memoryStore
-- is a store that cannot be written and holds nothing.
mod Tests
use timelynotify_server.Base.{
  ℕ, Bool, true, false, not, ◌&&◌, ◌||◌, List, [], ◌∷◌, Option, none, some, Text, text_key,
  if◌then◌else◌, ◌==◌, length, nat_eq, ◌≡◌, refl, sym, ap, ◌∙◌, arith, Bool-cases, Option-cases,
  inl, inr, ◌≢◌, ◌>>=◌, ==_refl, ==_ne, ==→≡,
}

pub data TokenSource : Type 0 where
  operator generated persisted : TokenSource

-- What a store holds of the token, and whether it can be written and read.
pub record TokenStore : Type 0 where
  pub hash : Text
  pub plain : Text
  pub writable : Bool
  pub readable : Bool

pub record Token : Type 0 where
  pub token_hash : Text
  pub auto_token : Text
  pub source : TokenSource

-- SetTokenHash and SetAutoToken; an error is only logged.
unfoldable pub set_token_hash : Text → TokenStore → TokenStore
set_token_hash h s = if s.writable then record s { hash = h } else s

unfoldable pub set_auto_token : Text → TokenStore → TokenStore
set_auto_token t s = if s.writable then record s { plain = t } else s

-- TokenHash; an error is treated as a missing hash.
unfoldable pub token_hash_of : TokenStore → Text
token_hash_of s = if s.readable then s.hash else []

-- tokensEqual; what ConstantTimeCompare says is whether the bytes are the same.
unfoldable pub tokens_equal : Text → Text → Bool
tokens_equal a b = if nat_eq (length a) 0 || nat_eq (length b) 0 then false else a == b

module _ (hash_token : Text → Text) where
  -- The token that Init makes, or none if there is no random token.
  unfoldable pub generate : Option Text → TokenStore → Option (Token × TokenStore)
  unfolding set_token_hash set_auto_token
  generate none s = none
  generate (some tok) s = some (
    record { token_hash = hash_token tok; auto_token = tok; source = generated },
    set_auto_token tok (set_token_hash (hash_token tok) s),
  )

  -- The part of Init that decides on the token.
  unfoldable pub init_token : Text → Option Text → TokenStore → Option (Token × TokenStore)
  unfolding generate token_hash_of
  init_token client_token random s =
      let persistent = token_hash_of s in
      if not (client_token == [])
      then some (
        record { token_hash = hash_token client_token; auto_token = []; source = operator },
        set_auto_token [] (set_token_hash (hash_token client_token) s),
      )
      else if nat_eq (length persistent) 0
      then generate random s
      else some (record { token_hash = persistent; auto_token = []; source = persisted }, s)

  -- ValidateToken
  unfoldable pub validate_token : Text → Token → Bool
  unfolding tokens_equal
  validate_token token t = tokens_equal (hash_token token) t.token_hash

  init_token-held :
      (random : Option Text) (s : TokenStore)
      → nat_eq (length (token_hash_of s)) 0 ≡ false
      → init_token [] random s
        ≡ some (record { token_hash = token_hash_of s; auto_token = []; source = persisted }, s)
  unfolding init_token
  init_token-held random s h = rw (h, init_token) refl

  init_token-missing :
      (random : Option Text) (s : TokenStore)
      → nat_eq (length (token_hash_of s)) 0 ≡ true
      → init_token [] random s ≡ generate random s
  unfolding init_token
  init_token-missing random s h = rw (h, init_token) refl

  -- The hash that was written is read again.
  token_hash_of-set :
      (hash plain : Text) (s : TokenStore)
      → s.writable ≡ true
      → s.readable ≡ true
      → token_hash_of (set_auto_token plain (set_token_hash hash s)) ≡ hash
  unfolding token_hash_of set_auto_token set_token_hash
  token_hash_of-set hash plain s writes reads = ground arith

  -- A restart without a token of the operator keeps the token: where the store can be written and
  -- read, the second of two starts fails only if the first one fails; it takes the hash of the first
  -- from the store, whatever random token it could have made, and leaves the store alone. A hash is
  -- not empty.
  pub init_token-restart :
      (first second : Option Text) (s : TokenStore)
      → ((token : Text) → nat_eq (length (hash_token token)) 0 ≡ false)
      → s.writable ≡ true
      → s.readable ≡ true
      → (init_token [] first s >>= λ r. init_token [] second r.1) ≡ (
          init_token [] first s >>= λ r.
          some (record { token_hash = r.0.token_hash; auto_token = []; source = persisted }, r.1))
  unfolding generate
  init_token-restart first second s hashed writes reads =
      elim (Bool-cases (nat_eq (length (token_hash_of s)) 0)) [
        | inr held ↦ rw (init_token-held first s held) (init_token-held second s held)
        | inl missing ↦ rw (init_token-missing first s missing) (generated_restart first)
      ]
    where
      generated_restart :
          (random : Option Text)
          → (generate random s >>= λ r. init_token [] second r.1) ≡ (
              generate random s >>= λ r.
              some
                (record { token_hash = r.0.token_hash; auto_token = []; source = persisted }, r.1))
      generated_restart none = refl
      generated_restart (some tok) =
          let t = set_auto_token tok (set_token_hash (hash_token tok) s) in
          let same = token_hash_of-set (hash_token tok) tok s writes reads in
          init_token-held second t (rw same (hashed tok))
          ∙ ap (λ h. some (record { token_hash = h; auto_token = []; source = persisted }, t)) same
