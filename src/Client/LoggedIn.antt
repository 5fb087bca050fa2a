-- ===== src/Client/LoggedIn.antt =====
-- main.go, auth_server.go and gateway/server.go: from a login to a published task.
use distributed_messaging_sy.Base.{
  ◌++◌, returns, write, set_content_type, unwritten, sym, ap, ◌+◌, ◌∙◌, ◌<◌, ◌≡◌, ◌≢◌, true, Bytes,
  bytes, [], some,
}
use distributed_messaging_sy.Amqp.{Env}
use distributed_messaging_sy.Amqp.Process.{Process}
use distributed_messaging_sy.Limiter.{Redis, RateLimiter, allow}
use distributed_messaging_sy.Shards.{pick_shard}
use distributed_messaging_sy.DeadLetter.RetryChain.{accepting}
use distributed_messaging_sy.Gateway.Routing.{Routes, Publishes, Decodes}
use distributed_messaging_sy.Gateway.Submit.{
  Outside, request_of, wait_for_feedback, handle_submit_task,
}
use distributed_messaging_sy.Gateway.Answer.{reply_queue, task_id}
use distributed_messaging_sy.Client.{Answers, pasted, trim_space, submission_of}
use distributed_messaging_sy.Auth.{KeyStore, Google, IsSigner}
use distributed_messaging_sy.Auth.Page.{token_page}
use distributed_messaging_sy.Auth.Server.{handle_google_callback}
use distributed_messaging_sy.Auth.Login.{Vouches, callback_page}
use distributed_messaging_sy.Client.Submitting.{client-Publishes}

-- Under a broker that takes every call, and a gateway that finds the same tokens valid as a server
-- with the secret of the authentication server: suppose that Google vouches for the email of a user
-- with an identifier, that the user pastes the token signed at this login within the hour, with blanks
-- around it or not, that the rate limiter allows the email, that the task is not blank and that the
-- headers are blank or decode to a table. Then the callback of the login has shown this token, and the
-- client's submission is published exactly once for the trimmed task, to the address of a route that
-- the submission has with the task's shard, and the gateway waits for the feedback on it.
pub login-Publishes :
    (env : Env) (outside : Outside) (redis : Redis) (limiter : RateLimiter) (store : redis.Store)
    (a : Answers) (p : Process) (logins : KeyStore) (before : logins.Store)
    (issuing checking : Google) (code user token uid : Bytes)
    → IsSigner issuing checking
    → ((t : Bytes) → outside.parse_jwt t ≡ checking.parse t)
    → Vouches issuing code user token
    → uid ≢ []
    → checking.now < issuing.now + 3600
    → pasted a ≡ token
    → token ≢ []
    → (allow redis limiter user store).0 ≡ some true
    → trim_space a.task ≢ []
    → let s = submission_of a in
      let id = task_id env outside s p in
      let request = request_of s (reply_queue env outside s p) id in
      let r = handle_submit_task (accepting env) outside redis limiter s (p, store) in
      Decodes env request
      → ((handle_google_callback logins issuing code (bytes "state-" ++ uid) before).0
          ≡ returns (
              write
                (token_page token)
                (set_content_type (bytes "text/html; charset=utf-8") unwritten)))
        × (shard : Bytes) × (pick_shard (trim_space a.task) ≡ some shard)
        × (e : Bytes) × (k : Bytes) × Routes request shard e k
        × Publishes request e k p r.1.0
        × (r.0 ≡ (wait_for_feedback (accepting env) outside (trim_space a.task) id r.1.0).0)
login-Publishes env outside redis limiter store a p logins before issuing checking code user token
      uid signer shared vouches known early same signed allowed named decodes =
    let (shard, picked, e, k, routes, publishes, answers) =
      client-Publishes env outside redis limiter store a p user (λ e. signed (sym same ∙ e))
        (ap outside.parse_jwt same
          ∙ shared token
          ∙ signer.parse-sign user token (issuing.now + 3600) vouches.signed early)
        allowed named decodes in
    (
      callback_page logins issuing code user token uid before vouches known,
      shard,
      picked,
      e,
      k,
      routes,
      publishes,
      answers,
    )
