-- ===== src/Gateway/Submit.antt =====
-- gateway/server.go, `handleSubmitTask`. The JWT library and the random source are parameters, as
-- is what the broker puts on the reply queue. The messages are without their emoji.
use distributed_messaging_sy.Base.{
  hexadecimal, ℕ, zero, suc, Bool, true, false, not, ltb, is_empty, bytes_eq, if◌then◌else◌, length,
  Bytes, bytes, List, [], ◌∷◌, ◌++◌, Option, none, some, Go, Outcome, panic, pure, ◌>>=◌, Response,
  unwritten, http_error, write, write_header, set_content_type,
}
use distributed_messaging_sy.Amqp.{Call, Env, Delivery, consume}
use distributed_messaging_sy.Amqp.Process.{Process, Act, call, declare_unnamed}
use distributed_messaging_sy.Limiter.{Redis, RateLimiter, allow}
use distributed_messaging_sy.Gateway.Publish.{Request, auto_detect_and_publish}

-- `claims["email"]`
pub data Claim : Type 0 where
  missing : Claim
  email : Bytes → Claim
  no_string : Claim

-- What else the handler asks for
pub record Outside : Type 0 where
  pub parse_jwt : Bytes → Option Claim  -- `none` for an error or a token that is not valid
  pub random : List Call → ℕ  -- `rand.Int63()`, once the source is seeded with the clock
  -- the reply queue after the calls so far: what is delivered, and whether the channel is then closed
  pub arrivals : List Call → List Delivery
  pub closed : List Call → Bool

-- `randomID`
unfoldable pub random_id : Outside → List Call → Bytes
random_id outside calls = hexadecimal (outside.random calls)

-- The parts of a client's request that the handler reads; an absent header or field is empty.
pub record Submission : Type 0 where
  pub method : Bytes
  pub authorization : Bytes
  pub task : Bytes
  pub routing_key : Bytes
  pub headers_json : Bytes
  pub fail : Bytes
  pub retry : Bytes
  pub broadcast : Bytes

abbrev pub request_of : Submission → Bytes → Bytes → Request
request_of s reply_to corr_id = record {
  task = s.task;
  routing_key = s.routing_key;
  headers_json = s.headers_json;
  fail = s.fail;
  retry = s.retry;
  reply_to = reply_to;
  corr_id = corr_id;
  use_shards = not (bytes_eq s.broadcast (bytes "yes"));
}

-- `authHeader[n:]`
abbrev pub slice_from : ℕ → Bytes → Bytes
slice_from zero b = b
slice_from (suc n) [] = []
slice_from (suc n) (_ ∷ b) = slice_from n b

abbrev pub refuse : Bytes → ℕ → Option Response
refuse message code = some (http_error message code unwritten)

-- `for d := range msgs`: the delivery that ends the wait, if one does
unfoldable pub await : Env → Bytes → List Delivery → Option Delivery
await env corr_id [] = none
await env corr_id (d ∷ ds) =
    let rest = await env corr_id ds in
    if not (bytes_eq d.correlation_id corr_id)
    then rest
    else if bytes_eq (env.status_of d.body) (bytes "retry")
    then rest
    else some d

abbrev pub relay_feedback : Delivery → Response
relay_feedback d =
    write d.body (write_header 200 (set_content_type (bytes "application/json") unwritten))

-- What is written once the channel is closed
abbrev pub timed_out : Bytes → Response
timed_out task =
    write (bytes "{\"status\":\"accepted\",\"task\":\"" ++ task ++ bytes "\"}")
      (write_header 202 (http_error (bytes "Timed out waiting for feedback") 504 unwritten))

module _ (env : Env) (outside : Outside) where
  -- The wait for the feedback; `none` while the handler waits on
  unfoldable pub wait_for_feedback : Bytes → Bytes → Act (Option Response)
  wait_for_feedback task corr_id p = (
    Outcome.returns (elim (await env corr_id (outside.arrivals p.calls)) [
      | some d ↦ some (relay_feedback d)
      | none ↦ if outside.closed p.calls then some (timed_out task) else none
    ]),
    p,
  )

  -- The publishing and the wait, once the reply queue is consumed
  unfoldable pub publish_and_wait : Submission → Bytes → Bytes → Act (Option Response)
  unfolding wait_for_feedback
  publish_and_wait s reply_to corr_id =
      if is_empty s.task then pure (refuse (bytes "Missing 'task' form field") 400) else (do
        err ← auto_detect_and_publish env (request_of s reply_to corr_id)
        elim err [
          | some e ↦ pure (refuse (bytes "Failed to publish: " ++ e) 500)
          | none ↦ wait_for_feedback s.task corr_id
        ])

  -- From the declaration of the reply queue on
  unfoldable pub submit : Submission → Act (Option Response)
  unfolding publish_and_wait
  submit s = do
    queue ← declare_unnamed env
    elim queue [
      | none ↦ pure (refuse (bytes "Failed to declare reply queue") 500)
      | some reply_to ↦ do
        err ← call env (consume reply_to [] true true false false)
        elim err [
          | some _ ↦ pure (refuse (bytes "Failed to consume reply queue") 500)
          | none ↦ λ p. publish_and_wait s reply_to (random_id outside p.calls) p
        ]
    ]

  module _ (redis : Redis) (limiter : RateLimiter) where
    open redis use {Store}

    -- The process, and the store of the rate limiter
    abbrev pub Handler : Type 0
    Handler = Go (Process × Store) (Option Response)

    abbrev on_process : Act (Option Response) → Handler
    on_process m (p, store) = let (r, p') = m p in (r, (p', store))

    -- From the rate limiter on
    unfoldable pub limit : Submission → Bytes → Handler
    unfolding submit
    limit s user (p, store) =
        let (allowed, store') = allow redis limiter user store in
        elim allowed [
          | none ↦ pure (refuse (bytes "Internal rate limit error") 500) (p, store')
          | some b ↦
              if b
              then on_process (submit s) (p, store')
              else pure (refuse (bytes "429 Too Many Requests") 429) (p, store')
        ]

    unfoldable pub with_token : Submission → Option Claim → Handler
    unfolding limit
    with_token s none = pure (refuse (bytes "Invalid or expired JWT") 401)
    with_token s (some missing) = pure (refuse (bytes "Invalid token claims") 401)
    with_token s (some no_string) = panic
    with_token s (some (email user)) = limit s user

    -- `handleSubmitTask`: the response, or `none` while it waits for feedback
    unfoldable pub handle_submit_task : Submission → Handler
    unfolding with_token
    handle_submit_task s =
        if not (bytes_eq s.method (bytes "POST"))
        then pure (refuse (bytes "Only POST is allowed") 405)
        else if ltb (length s.authorization) 8
        then pure (refuse (bytes "Missing Authorization header") 401)
        else with_token s (outside.parse_jwt (slice_from 7 s.authorization))
