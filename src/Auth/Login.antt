-- ===== src/Auth/Login.antt =====
-- google_authentication/auth_server.go: what the callback, the fetch and the verification do with a token.
use distributed_messaging_sy.Base.{
  set_content_type, ◌+◌, ◌≡◌, ◌≢◌, refl, ◌∙◌, ap, ◌⊎◌, false, is_empty, has_prefix, Bytes, bytes,
  [], ◌∷◌, ◌++◌, some, returns, write, write_header, unwritten, arith,
}
use distributed_messaging_sy.Gateway.Submit.{email}
use distributed_messaging_sy.Auth.{KeyStore, IsKeyStore, Google}
use distributed_messaging_sy.Auth.Page.{token_page}
use distributed_messaging_sy.Auth.Server.{
  token_key, ten_minutes, handle_google_callback, finish_login, handle_verify_token,
  handle_fetch_token, fail,
}

-- Google vouches for an email, and a token is signed for it.
pub record Vouches (google : Google) (code user token : Bytes) : Type 0 where
  pub coded : code ≢ []
  pub access : Bytes
  pub exchanged : google.exchange code ≡ some access
  pub body : Bytes
  pub told : google.user_info access ≡ some body
  pub decoded : google.decode_email body ≡ some user
  pub signed : google.sign user (google.now + 3600) ≡ some token

pub nonempty : (b : Bytes) → b ≢ [] → is_empty b ≡ false
nonempty [] n = absurd (n refl)
nonempty (_ ∷ b) n = refl

pub finish_lem :
    (redis : KeyStore) (uid token : Bytes) (s : redis.Store)
    → uid ≢ []
    → (finish_login redis (bytes "state-" ++ uid) token s).1
      ≡ (redis.set_key (token_key uid) token ten_minutes s).1
unfolding finish_login bytes has_prefix
finish_lem redis [] token s n = absurd (n refl)
finish_lem redis (u ∷ us) token s n = ground arith

finish_page :
    (redis : KeyStore) (uid token : Bytes) (s : redis.Store)
    → uid ≢ []
    → (finish_login redis (bytes "state-" ++ uid) token s).0
      ≡ returns
          (write (token_page token) (set_content_type (bytes "text/html; charset=utf-8") unwritten))
unfolding finish_login bytes has_prefix
finish_page redis [] token s n = absurd (n refl)
finish_page redis (u ∷ us) token s n = ground arith

pub verify_lem :
    (redis : KeyStore) (google : Google) (user token : Bytes) (s : redis.Store)
    → token ≢ []
    → google.parse token ≡ some (email user)
    → (handle_verify_token redis google (bytes "Bearer " ++ token) s).0
      ≡ returns (write (bytes "Token is valid!\nEmail: " ++ user ++ bytes "\n") unwritten)
unfolding handle_verify_token bytes has_prefix
verify_lem redis google user [] s n e = absurd (n refl)
verify_lem redis google user (c ∷ cs) s n e = ground (arith, e)

pub callback_lem :
    (redis : KeyStore) (issuing : Google) (code user token state : Bytes) (s : redis.Store)
    → Vouches issuing code user token
    → handle_google_callback redis issuing code state s ≡ finish_login redis state token s
unfolding handle_google_callback
callback_lem redis issuing code user token state s vouches = ground (
  arith,
  nonempty code vouches.coded,
  vouches.exchanged,
  vouches.told,
  vouches.decoded,
  vouches.signed,
)

-- For a code that Google vouches for with an email, and a state that the login of a user gave, the
-- callback shows the token that it signs, whatever Redis answers.
pub callback_page :
    (redis : KeyStore) (issuing : Google) (code user token uid : Bytes) (s : redis.Store)
    → Vouches issuing code user token
    → uid ≢ []
    → (handle_google_callback redis issuing code (bytes "state-" ++ uid) s).0
      ≡ returns
          (write (token_page token) (set_content_type (bytes "text/html; charset=utf-8") unwritten))
callback_page redis issuing code user token uid s vouches named =
    ap (λ r. r.0) (callback_lem redis issuing code user token (bytes "state-" ++ uid) s vouches)
    ∙ finish_page redis uid token s named

pub fetch_lem :
    (redis : KeyStore) (laws : IsKeyStore redis) (uid token : Bytes) (t : redis.Store)
    → uid ≢ []
    → redis.value (token_key uid) t ≡ some token
    → ((handle_fetch_token redis uid t).0 ≡ returns (write token (write_header 200 unwritten)))
      ⊎ ((handle_fetch_token redis uid t).0 ≡ returns (fail (bytes "Redis error") 500))
unfolding handle_fetch_token
fetch_lem redis laws uid token t named e =
    ground (arith, nonempty uid named, laws.get_finds (token_key uid) token t e)
