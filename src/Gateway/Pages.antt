-- ===== src/Gateway/Pages.antt =====
-- gateway/server.go, the handlers that `main` registers with net/http.
use distributed_messaging_sy.Base.{
  ◌+◌, ◌≤◌, ◌≡◌, ◌≢◌, bytes_eq, if◌then◌else◌, Bytes, bytes, Option, none, some, Go, Outcome,
  returns, exits, panics, pure, gets, Response, unwritten, http_error, write_header, arith, inl,
}
use distributed_messaging_sy.Amqp.{Env}
use distributed_messaging_sy.Amqp.Process.{Process}
use distributed_messaging_sy.Amqp.Trace.{sent}
use distributed_messaging_sy.Limiter.{Redis, RateLimiter}
use distributed_messaging_sy.Gateway.Scrape.{metrics_handler}
use distributed_messaging_sy.Gateway.Submit.{
  Outside, Submission, Claim, missing, no_string, email, slice_from, with_token, limit,
  handle_submit_task,
}
use distributed_messaging_sy.Gateway.Admission.{shut}
use distributed_messaging_sy.Gateway.Limited.{published, submit-sends_one}

module _ (env : Env) (outside : Outside) (redis : Redis) (limiter : RateLimiter)
    (collectors : Process → Response) where
  abbrev Handler : Type 0
  Handler = Go (Process × redis.Store) (Option Response)

  abbrev some_page : Outcome Response → Outcome (Option Response)
  some_page (returns r) = returns (some r)
  some_page exits = exits
  some_page panics = panics

  abbrev on_process : Go Process Response → Handler
  on_process m (p, store) = let (r, p') = m p in (some_page r, (p', store))

  -- The handler of a path, with the Prometheus page as a parameter; `none` is said of a handler that
  -- waits on.
  unfoldable pub serve_path : Bytes → Submission → Handler
  serve_path path s =
      if bytes_eq path (bytes "/submit-task")
      then handle_submit_task env outside redis limiter s
      else if bytes_eq path (bytes "/health")
      then pure (some (write_header 200 unwritten))
      else if bytes_eq path (bytes "/metrics_manual")
      then on_process (metrics_handler env)
      else if bytes_eq path (bytes "/metrics")
      then gets (λ w. some (collectors w.0))
      else pure (some (http_error (bytes "404 page not found") 404 unwritten))

  pub metrics-unsent : (p : Process) → published (metrics_handler env p).1 ≡ published p
  unfolding metrics_handler sent
  metrics-unsent p = ground arith

  limit-sends_one :
      (s : Submission) (user : Bytes) (p : Process) (store : redis.Store)
      → published (limit env outside redis limiter s user (p, store)).1.0 ≤ published p + 1
  unfolding limit
  limit-sends_one s user p store = ground (arith, submit-sends_one env outside s p)

  token-sends_one :
      (s : Submission) (claim : Option Claim) (p : Process) (store : redis.Store)
      → published (with_token env outside redis limiter s claim (p, store)).1.0 ≤ published p + 1
  unfolding with_token
  token-sends_one s none p store = omega arith
  token-sends_one s (some missing) p store = omega arith
  token-sends_one s (some no_string) p store = omega arith
  token-sends_one s (some (email user)) p store = limit-sends_one s user p store

  handle_submit_task-sends_one :
      (s : Submission) (p : Process) (store : redis.Store)
      → published (handle_submit_task env outside redis limiter s (p, store)).1.0 ≤ published p + 1
  unfolding handle_submit_task
  handle_submit_task-sends_one s p store =
      ground (arith, token-sends_one s (outside.parse_jwt (slice_from 7 s.authorization)) p store)

  -- Whatever the path, a request puts one message on the broker at most, and none unless it is a POST.
  pub serve_path-sends_one :
      (path : Bytes) (s : Submission) (p : Process) (store : redis.Store)
      → published (serve_path path s (p, store)).1.0 ≤ published p + 1
  unfolding serve_path
  serve_path-sends_one path s p store =
      ground (arith, handle_submit_task-sends_one s p store, metrics-unsent p)

  pub serve_path-unsent :
      (path : Bytes) (s : Submission) (p : Process) (store : redis.Store)
      → s.method ≢ bytes "POST"
      → published (serve_path path s (p, store)).1.0 ≡ published p
  unfolding serve_path
  serve_path-unsent path s p store get =
      ground (arith, shut env outside redis limiter s p store (inl get), metrics-unsent p)
