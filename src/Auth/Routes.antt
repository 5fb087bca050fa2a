-- ===== src/Auth/Routes.antt =====
-- google_authentication/auth_server.go, `main`: the handlers that it registers with net/http, and the
-- connection to Redis before.
use distributed_messaging_sy.Base.{
  ◌≡◌, Bool, bytes_eq, if◌then◌else◌, Bytes, bytes, List, [], ◌∷◌, Go, pure, fatal, arith,
}
use distributed_messaging_sy.Auth.{KeyStore, Google}
use distributed_messaging_sy.Auth.Server.{
  Handler, fail, handle_generate_id, handle_google_login, handle_google_callback, handle_is_ready,
  handle_verify_token, handle_fetch_token,
}
use distributed_messaging_sy.Auth.Readiness.{
  Operation, generate_id, login, callback, is_ready, verify_token, fetch_token, perform_all,
}

-- The parts of a request that the handlers read; an absent parameter or header is empty.
pub record Request : Type 0 where
  pub path : Bytes
  pub uid : Bytes
  pub user_id : Bytes  -- the parameter `userId`
  pub code : Bytes
  pub state : Bytes
  pub authorization : Bytes

module _ (redis : KeyStore) where
  -- `initRedis`, with the answer to its ping: an error ends the program.
  unfoldable init_redis : Bool → Go redis.Store (Unit {0})
  init_redis answers = if answers then pure tt else fatal

  -- The handler of a request
  unfoldable pub serve : Google → Request → Handler redis
  serve google r =
      if bytes_eq r.path (bytes "/generate-id")
      then handle_generate_id redis
      else if bytes_eq r.path (bytes "/login")
      then handle_google_login redis google r.uid
      else if bytes_eq r.path (bytes "/oauth2/callback")
      then handle_google_callback redis google r.code r.state
      else if bytes_eq r.path (bytes "/is-ready")
      then handle_is_ready redis r.uid
      else if bytes_eq r.path (bytes "/verify-token")
      then handle_verify_token redis google r.authorization
      else if bytes_eq r.path (bytes "/fetch-token")
      then handle_fetch_token redis r.user_id
      else pure (fail (bytes "404 page not found") 404)

  unfoldable operations_of : Google → Request → List Operation
  operations_of google r =
      if bytes_eq r.path (bytes "/generate-id")
      then generate_id ∷ []
      else if bytes_eq r.path (bytes "/login")
      then login google r.uid ∷ []
      else if bytes_eq r.path (bytes "/oauth2/callback")
      then callback google r.code r.state ∷ []
      else if bytes_eq r.path (bytes "/is-ready")
      then is_ready r.uid ∷ []
      else if bytes_eq r.path (bytes "/verify-token")
      then verify_token google r.authorization ∷ []
      else if bytes_eq r.path (bytes "/fetch-token")
      then fetch_token r.user_id ∷ []
      else []

  -- What a request does to the store is one of the operations of its history, or nothing.
  serve-perform_all :
      (google : Google) (r : Request) (s : redis.Store)
      → (serve google r s).1 ≡ perform_all redis (operations_of google r) s
  unfolding serve operations_of
  serve-perform_all google r s = ground arith
