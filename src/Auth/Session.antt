-- ===== src/Auth/Session.antt =====
-- google_authentication/auth_server.go: the token of a login, until it is fetched.
use std.Path.{subst}
use distributed_messaging_sy.Base.{
  ℕ, ◌+◌, ◌<◌, ◌≡◌, ◌≢◌, ◌∙◌, ap, sym, ◌⊎◌, true, All, Bytes, bytes, List, [], ◌++◌, returns, write,
  write_header, unwritten, arith,
}
use distributed_messaging_sy.Auth.{KeyStore, IsKeyStore, Google, IsSigner}
use distributed_messaging_sy.Auth.Server.{
  token_key, ten_minutes, fail, handle_google_callback, handle_verify_token, handle_fetch_token,
}
use distributed_messaging_sy.Auth.Readiness.{Operation, perform_all}
use distributed_messaging_sy.Auth.Login.{Vouches, callback_lem, finish_lem, fetch_lem, verify_lem}
use distributed_messaging_sy.Auth.Held.{Spares, time, Held, perform_all-Held}

module _ (redis : KeyStore) (laws : IsKeyStore redis) (issuing checking : Google)
    (signer : IsSigner issuing checking) (code user token uid : Bytes) (s : redis.Store)
    (vouches : Vouches issuing code user token) (named : uid ≢ []) where
  callback-Held :
      (redis.set_key (token_key uid) token ten_minutes s).0 ≡ true
      → (n : ℕ) → n < ten_minutes
      → Held redis uid token n
          (handle_google_callback redis issuing code (bytes "state-" ++ uid) s).1
  callback-Held written n soon =
      let (holds, left) = laws.set_stores (token_key uid) token ten_minutes s written in
      subst (Held redis uid token n)
        (sym (
          ap (λ r. r.1)
            (callback_lem redis issuing code user token (bytes "state-" ++ uid) s vouches)
          ∙ finish_lem redis uid token s named))
        (holds, rw left soon)

  -- For a code that Google vouches for with an email, and a state that the login of a user gave: once
  -- the callback has returned and its write to Redis is carried out, then whatever requests reach the
  -- server, those of other logins included, within less than ten minutes, but for a further callback
  -- of a login of this user, a fetch for this user returns the signed token, unless Redis fails; and
  -- within the hour for which the token is signed the server finds it valid and says the email.
  pub fetch-callback :
      (os : List Operation) (t : redis.Store)
      → (redis.set_key (token_key uid) token ten_minutes s).0 ≡ true
      → All (Spares uid) os
      → time os < ten_minutes
      → token ≢ []
      → checking.now < issuing.now + 3600
      → let after =
          perform_all redis os
            (handle_google_callback redis issuing code (bytes "state-" ++ uid) s).1 in
        (((handle_fetch_token redis uid after).0
            ≡ returns (write token (write_header 200 unwritten)))
          ⊎ ((handle_fetch_token redis uid after).0 ≡ returns (fail (bytes "Redis error") 500)))
        × ((handle_verify_token redis checking (bytes "Bearer " ++ token) t).0
            ≡ returns (write (bytes "Token is valid!\nEmail: " ++ user ++ bytes "\n") unwritten))
  fetch-callback os t written others soon signed early =
      let held = callback-Held written (time os + 0) (omega arith) in
      (
        fetch_lem redis laws uid token _ named
            (perform_all-Held redis laws uid token os 0 _ others held).0,
        verify_lem redis checking user token t signed
            (signer.parse-sign user token (issuing.now + 3600) vouches.signed early),
      )
