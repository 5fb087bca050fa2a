-- ===== src/Auth/Package.antt =====
-- google_authentication/auth.go: the earlier handlers of the package, which keep no state. The emoji of
-- the page is left out.
use distributed_messaging_sy.Base.{
  ◌+◌, is_empty, if◌then◌else◌, Bytes, bytes, ◌++◌, none, some, Response, unwritten, write,
  redirect,
}
use distributed_messaging_sy.Auth.{Google}
use distributed_messaging_sy.Auth.Server.{fail}

-- `HandleGoogleLogin`
unfoldable pub package_google_login : Google → Response
package_google_login google = redirect (google.auth_url (bytes "random-state-string")) 307 unwritten

-- `HandleGoogleCallback`; the token is valid for half an hour.
unfoldable pub package_google_callback : Google → Bytes → Response
package_google_callback google code =
    if is_empty code then fail (bytes "Missing code") 400 else elim (google.exchange code) [
      | none ↦ fail (bytes "Failed to exchange code") 500
      | some t ↦ elim (google.user_info t) [
        | none ↦ fail (bytes "Failed to get user info") 500
        | some body ↦ elim (google.decode_email body) [
          | none ↦ fail (bytes "Failed to decode user info") 500
          | some user ↦ elim (google.sign user (google.now + 1800)) [
            | none ↦ fail (bytes "Failed to sign JWT") 500
            | some token ↦
                write (bytes "Logged in!\nYour JWT token:\n\n" ++ token ++ bytes "\n") unwritten
          ]
        ]
      ]
    ]
