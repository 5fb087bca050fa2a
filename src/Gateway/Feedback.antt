-- ===== src/Gateway/Feedback.antt =====
-- gateway/server.go and the packages of the workers: the feedback on a task, from the worker that
-- handles it to the client that waits.
pub mod Served
pub mod Retried
pub mod Failed
use distributed_messaging_sy.Base.{
  ℕ, sym, ◌∙◌, refl, hexadecimal, hexadecimal-injective, ◌≡◌, ◌≢◌, refl, ◌∙◌, ap, sym, true,
  bytes_eq, bytes_eq_iff, bytes_eq_refl, if◌then◌else◌, All, map, Bytes, bytes, List, [], ◌∷◌, ◌++◌,
  reverse, Option, none, some, Outcome, returns, arith, ◌⊎◌, inl, inr, bytes_cases,
}
use distributed_messaging_sy.Amqp.{Call, Env, Delivery, Publishing, Feedback, IsFaithful}
use distributed_messaging_sy.Amqp.Process.{Process, Act}
use distributed_messaging_sy.Amqp.Trace.{sent_to}
use distributed_messaging_sy.DeadLetter.RetryChain.{accepting, reports}
use distributed_messaging_sy.Gateway.Submit.{
  random_id, Outside, await, relay_feedback, wait_for_feedback,
}

-- What the waiting handler reads of a message: the correlation id and the status
abbrev pub Reading : Type 0
Reading = Bytes × Bytes

abbrev pub reading : Env → Delivery → Reading
reading env d = (d.correlation_id, env.status_of d.body)

-- What was sent to a reply queue, in the order of sending
abbrev pub told : Env → Bytes → Process → List Reading
told env reply_to p = reverse (reports env reply_to p)

-- A reading that does not end the wait for a task
abbrev pub Passed : Bytes → Reading → Type 0
Passed corr_id r = (r.0 ≢ corr_id) ⊎ (r.1 ≡ bytes "retry")

-- The wait ends at the first reading that is not passed.
pub await-reading :
    (env : Env) (corr_id status : Bytes) (ds : List Delivery) (seen later : List Reading)
    → map (reading env) ds ≡ seen ++ (corr_id, status) ∷ later
    → All (Passed corr_id) seen
    → status ≢ bytes "retry"
    → (d : Delivery) × (await env corr_id ds ≡ some d) × (env.status_of d.body ≡ status)
unfolding await
await-reading env corr_id status [] [] later e passed n = absurd (cc)
await-reading env corr_id status [] (_ ∷ _) later e passed n = absurd (cc)
await-reading env corr_id status (d ∷ ds) [] later e passed n = (
  d,
  ground (
    arith,
    e,
    bytes_eq_iff d.correlation_id corr_id,
    bytes_eq_iff (env.status_of d.body) (bytes "retry"),
  ),
  ground (arith, e),
)
await-reading env corr_id status (d ∷ ds) (r ∷ seen) later e (skip, passed) n =
    let (x, found, same) = await-reading env corr_id status ds seen later (cc) passed n in
    (
      x,
      ground (
        arith,
        e,
        skip,
        found,
        bytes_eq_iff d.correlation_id corr_id,
        bytes_eq_iff (env.status_of d.body) (bytes "retry"),
      ),
      same,
    )

-- A handler whose wait reads, after passed messages, one that is not is answered with it.
pub wait_for_feedback-reading :
    (env : Env) (outside : Outside) (task corr_id status : Bytes) (q : Process)
    (seen later : List Reading)
    → map (reading env) (outside.arrivals q.calls) ≡ seen ++ (corr_id, status) ∷ later
    → All (Passed corr_id) seen
    → status ≢ bytes "retry"
    → (x : Delivery) × ((wait_for_feedback (accepting env) outside task corr_id q).0
        ≡ returns (some (relay_feedback x)))
      × (env.status_of x.body ≡ status)
unfolding wait_for_feedback
wait_for_feedback-reading env outside task corr_id status q seen later e passed n =
    let (x, found, same) = await-reading (accepting env) corr_id status _ seen later e passed n in
    (x, rw (found) refl, same)

-- The feedback on tasks whose random numbers are others ends no wait.
await-others :
    (env : Env) (outside : Outside) (h : List Call) (ds : List Delivery)
    → All
        (λ (d : Delivery). (n : ℕ) × (n ≢ outside.random h) × (d.correlation_id ≡ hexadecimal n))
        ds
    → await env (random_id outside h) ds ≡ none
unfolding await random_id
await-others env outside h [] all = refl
await-others env outside h (d ∷ ds) ((n, other, e), all) =
    let apart : d.correlation_id ≢ hexadecimal (outside.random h) =
      λ same. other (hexadecimal-injective n (outside.random h) (sym e ∙ same)) in
    ground (
      arith,
      await-others env outside h ds all,
      bytes_eq_iff d.correlation_id (hexadecimal (outside.random h)),
      apart,
    )
