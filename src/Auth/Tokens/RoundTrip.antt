-- ===== src/Auth/Tokens/RoundTrip.antt =====
-- apps/im-server/src/modules/auth/services/token.service.ts: `parseRefreshToken` reads what
-- `createRefreshToken` prints.
use slowchat.Base.{◌≡◌, refl, false, ◌==◌, [], ◌∷◌, ◌++◌, any, arith}
use slowchat.Base.Action.{ok}
use slowchat.Model.{Uuid, Text}
use slowchat.Auth.Tokens.{
  Crypto, AuthConfig, dot, split, is_empty, create_refresh_token, parse_refresh_token,
  hash_refresh_token,
}

split-no_dot : (t : Text) → any (λ c. c == dot) t ≡ false → split dot t ≡ (t, [])
unfolding split
split-no_dot [] h = refl
split-no_dot (c ∷ cs) h = ground (arith, split-no_dot cs)

split-at_dot :
    (t rest : Text)
    → any (λ c. c == dot) t ≡ false
    → any (λ c. c == dot) rest ≡ false
    → split dot (t ++ dot ∷ rest) ≡ (t, rest ∷ [])
unfolding split
split-at_dot [] rest h k = ground (arith, split-no_dot rest k)
split-at_dot (c ∷ cs) rest h k = ground (arith, split-at_dot cs rest)

module _ (crypto : Crypto) (config : AuthConfig) where
  -- A refresh token that was made from an id and a secret is parsed to the text of this id and to
  -- the hash that was stored with it. Conditions: the text of the id and the secret are not empty
  -- and have no full stop in them.
  pub parse-create_refresh_token :
      (id : Uuid) (secret : Text)
      → is_empty (crypto.print_uuid id) ≡ false
      → is_empty secret ≡ false
      → any (λ c. c == dot) (crypto.print_uuid id) ≡ false
      → any (λ c. c == dot) secret ≡ false
      → let made = create_refresh_token crypto config id secret in
        parse_refresh_token crypto config made.token
        ≡ ok (record { id = crypto.print_uuid id; hash = made.hash })
  unfolding parse_refresh_token create_refresh_token hash_refresh_token
  parse-create_refresh_token id secret some_id some_secret no_dot plain =
      rw (split-at_dot (crypto.print_uuid id) secret no_dot plain) (ground arith)
