-- ===== src/Auth/Server.antt =====
-- google_authentication/auth_server.go: the handlers.
use distributed_messaging_sy.Base.{
  ℕ, ◌+◌, not, ◌||◌, ltb, leb, is_empty, bytes_eq, has_prefix, decimal, if◌then◌else◌, length,
  Bytes, bytes, [], ◌++◌, Option, none, some, Go, Outcome, panic, pure, ◌>>◌, Response, unwritten,
  http_error, write, write_header, set_content_type, redirect,
}
use distributed_messaging_sy.Gateway.Submit.{Claim, email, missing, no_string, slice_from}
use distributed_messaging_sy.Auth.{KeyStore, Fetched, failed, absent, stored, Google}
use distributed_messaging_sy.Auth.Page.{token_page}

abbrev pub status_key : Bytes → Bytes
status_key uid = bytes "login:status:" ++ uid

abbrev pub token_key : Bytes → Bytes
token_key uid = bytes "login:token:" ++ uid

abbrev pub ten_minutes : ℕ
ten_minutes = 600000

abbrev pub fail : Bytes → ℕ → Response
fail message code = http_error message code unwritten

module _ (redis : KeyStore) where
  open redis use {Store, incr, set_key, get_key}

  abbrev pub Handler : Type 0
  Handler = Go Store Response

  -- `rdb.Set(…)` with its result dropped
  abbrev set_ignored : Bytes → Bytes → Go Store (Unit {0})
  set_ignored k v s = (Outcome.returns tt, (set_key k v ten_minutes s).1)

  -- `handleGenerateID`
  unfoldable pub handle_generate_id : Handler
  handle_generate_id s =
      let (id, s') = incr (bytes "user_id_counter") s in
      elim id [
        | none ↦ (Outcome.returns (fail (bytes "Redis error") 500), s')
        | some n ↦
            (do
              set_ignored (status_key (decimal n)) (bytes "created")
              pure (
                  write (bytes "{\"userId\":\"" ++ decimal n ++ bytes "\"}\n")
                    (set_content_type (bytes "application/json") unwritten)))
              s'
      ]

  -- `handleGoogleLogin`
  unfoldable pub handle_google_login : Google → Bytes → Handler
  handle_google_login google uid =
      if is_empty uid then pure (fail (bytes "Missing uid") 400) else (do
        set_ignored (status_key uid) (bytes "started")
        pure (redirect (google.auth_url (bytes "state-" ++ uid)) 307 unwritten))

  -- `handleGoogleCallback`, once there is a token
  unfoldable pub finish_login : Bytes → Bytes → Handler
  finish_login state token =
      if leb (length state) 6 || not (has_prefix state (bytes "state-"))
      then pure (fail (bytes "Invalid state") 400)
      else (do
        set_ignored (token_key (slice_from 6 state)) token
        pure (
            write (token_page token)
              (set_content_type (bytes "text/html; charset=utf-8") unwritten)))

  -- `handleGoogleCallback`; the token is valid for an hour.
  unfoldable pub handle_google_callback : Google → Bytes → Bytes → Handler
  unfolding finish_login
  handle_google_callback google code state =
      if is_empty code
      then pure (fail (bytes "Missing code") 400)
      else elim (google.exchange code) [
        | none ↦ pure (fail (bytes "Token exchange failed") 500)
        | some t ↦ elim (google.user_info t) [
          | none ↦ pure (fail (bytes "User info fetch failed") 500)
          | some body ↦ elim (google.decode_email body) [
            | none ↦ pure (fail (bytes "JSON decode error") 500)
            | some user ↦ elim (google.sign user (google.now + 3600)) [
              | none ↦ pure (fail (bytes "JWT sign failed") 500)
              | some token ↦ finish_login state token
            ]
          ]
        ]
      ]

  -- The status that `handleIsReady` reads: empty on an error
  abbrev pub status_read : Fetched → Bytes
  status_read (stored v) = v
  status_read _ = []

  -- `handleIsReady`
  unfoldable pub handle_is_ready : Bytes → Handler
  handle_is_ready uid s =
      if is_empty uid
      then (Outcome.returns (fail (bytes "Missing uid") 400), s)
      else (let (status, s') = get_key (status_key uid) s in
          (
            Outcome.returns (
                if bytes_eq (status_read status) (bytes "done")
                then write (bytes "done") (write_header 200 unwritten)
                else fail [] 404),
            s',
          ))

  abbrev valid_page : Option Claim → Handler
  valid_page none = pure (fail (bytes "Invalid or expired token") 401)
  valid_page (some missing) = pure (fail (bytes "Invalid token claims") 401)
  valid_page (some no_string) = panic
  valid_page (some (email user)) =
      pure (write (bytes "Token is valid!\nEmail: " ++ user ++ bytes "\n") unwritten)

  -- `handleVerifyToken`
  unfoldable pub handle_verify_token : Google → Bytes → Handler
  handle_verify_token google authorization =
      if ltb (length authorization) 8 || not (has_prefix authorization (bytes "Bearer "))
      then pure (fail (bytes "Missing or invalid Authorization header") 400)
      else valid_page (google.parse (slice_from 7 authorization))

  abbrev pub token_page_of : Fetched → Response
  token_page_of absent = fail (bytes "Token not ready") 404
  token_page_of failed = fail (bytes "Redis error") 500
  token_page_of (stored token) = write token (write_header 200 unwritten)

  -- `handleFetchToken`
  unfoldable pub handle_fetch_token : Bytes → Handler
  handle_fetch_token uid s =
      if is_empty uid
      then (Outcome.returns (fail (bytes "Missing userId") 400), s)
      else (let (token, s') = get_key (token_key uid) s in
          (Outcome.returns (token_page_of token), s'))
