-- ===== src/Client/Submitting.antt =====
-- main.go and gateway/server.go: what the client submits is admitted by the gateway and published.
use distributed_messaging_sy.Base.{
  ◌≤◌, ◌≡◌, ◌≢◌, ◌↔◌, ◌⊎◌, refl, Bool, true, false, not, bytes_eq, bytes_eq_iff, length, Bytes,
  bytes, [], ◌∷◌, some, arith,
}
use distributed_messaging_sy.Amqp.{Env}
use distributed_messaging_sy.Amqp.Process.{Process}
use distributed_messaging_sy.Limiter.{Redis, RateLimiter, allow}
use distributed_messaging_sy.Shards.{pick_shard}
use distributed_messaging_sy.DeadLetter.RetryChain.{accepting}
use distributed_messaging_sy.Gateway.Routing.{Routes, Publishes, Decodes}
use distributed_messaging_sy.Gateway.Submit.{
  email, Outside, request_of, wait_for_feedback, handle_submit_task,
}
use distributed_messaging_sy.Gateway.Admission.{Admitted}
use distributed_messaging_sy.Gateway.Answer.{reply_queue, task_id, handle_submit_task-Publishes}
use distributed_messaging_sy.Client.{
  Answers, flag, says_fail, to_lower, pasted, trim_space, submission_of,
}

length-pos : (b : Bytes) → b ≢ [] → 1 ≤ length b
length-pos [] n = absurd (n refl)
length-pos (_ ∷ b) n = omega arith

module _ (outside : Outside) (redis : Redis) (limiter : RateLimiter) (store : redis.Store)
    (a : Answers) where
  pub submission-Admitted :
      (user : Bytes)
      → pasted a ≢ []
      → outside.parse_jwt (pasted a) ≡ some (email user)
      → (allow redis limiter user store).0 ≡ some true
      → Admitted outside redis limiter (submission_of a) store
  unfolding submission_of bytes
  submission-Admitted user typed valid allowed = record {
    posted = refl;
    long_enough = omega (arith, length-pos (pasted a) typed);
    user = user;
    known = valid;
    allowed = allowed;
  }

-- Under a broker that takes every call: if the token that the user pasted is valid for an email, the
-- rate limiter allows the email, the task is not blank and the headers are blank or decode to a table,
-- then the client's submission is published exactly once for the trimmed task, to the address of a
-- route that the submission has with the task's shard, and the gateway waits for the feedback on it.
pub client-Publishes :
    (env : Env) (outside : Outside) (redis : Redis) (limiter : RateLimiter) (store : redis.Store)
    (a : Answers) (p : Process) (user : Bytes)
    → pasted a ≢ []
    → outside.parse_jwt (pasted a) ≡ some (email user)
    → (allow redis limiter user store).0 ≡ some true
    → trim_space a.task ≢ []
    → let s = submission_of a in
      let id = task_id env outside s p in
      let request = request_of s (reply_queue env outside s p) id in
      let r = handle_submit_task (accepting env) outside redis limiter s (p, store) in
      Decodes env request
      → (shard : Bytes) × (pick_shard (trim_space a.task) ≡ some shard)
        × (e : Bytes) × (k : Bytes) × Routes request shard e k
        × Publishes request e k p r.1.0
        × (r.0 ≡ (wait_for_feedback (accepting env) outside (trim_space a.task) id r.1.0).0)
unfolding submission_of
client-Publishes env outside redis limiter store a p user typed valid allowed named decodes =
    handle_submit_task-Publishes env outside (submission_of a) p redis limiter store named decodes
      (submission-Admitted outside redis limiter store a user typed valid allowed)

apart : bytes_eq (bytes "0") (bytes "1") ≡ false
unfolding bytes_eq bytes
apart = refl

one-ne-zero : bytes "0" ≢ bytes "1"
one-ne-zero p = cc (apart, (bytes_eq_iff (bytes "0") (bytes "1")).1 p)

flag_iff : (b : Bool) → (flag b ≡ bytes "1") ↔ (b ≡ true)
flag_iff true = ((λ _. refl), (λ _. refl))
flag_iff false = ((λ p. absurd (one-ne-zero p)), (λ p. cc))

says_fail_iff : (b : Bytes) → (says_fail b ≡ true) ↔ ((b ≡ bytes "yes") ⊎ (b ≡ bytes "y"))
says_fail_iff b = ground (arith, bytes_eq_iff b (bytes "yes"), bytes_eq_iff b (bytes "y"))

not_iff : (b c : Bytes) → (not (bytes_eq b c) ≡ false) ↔ (b ≡ c)
not_iff b c = ground (arith, bytes_eq_iff b c)

-- The submission asks for a retry exactly if the user's answer to that question is "yes", for a failure
-- exactly if the answer to that one is "yes" or "y", and for one shard unless the last answer is "yes",
-- up to case and blanks around them.
pub submission_flags :
    (a : Answers) (reply_to corr_id : Bytes)
    → let r = request_of (submission_of a) reply_to corr_id in
      ((r.retry ≡ bytes "1") ↔ (trim_space (to_lower a.retry) ≡ bytes "yes"))
      × ((r.fail ≡ bytes "1") ↔ (
          (to_lower (trim_space a.fail) ≡ bytes "yes")
          ⊎ (to_lower (trim_space a.fail) ≡ bytes "y")))
      × ((r.use_shards ≡ false) ↔ (to_lower (trim_space a.broadcast) ≡ bytes "yes"))
unfolding submission_of
submission_flags a reply_to corr_id = (
  ground (
    arith,
    flag_iff (bytes_eq (trim_space (to_lower a.retry)) (bytes "yes")),
    bytes_eq_iff (trim_space (to_lower a.retry)) (bytes "yes"),
  ),
  ground (
    arith,
    flag_iff (says_fail (to_lower (trim_space a.fail))),
    says_fail_iff (to_lower (trim_space a.fail)),
  ),
  not_iff (to_lower (trim_space a.broadcast)) (bytes "yes"),
)
