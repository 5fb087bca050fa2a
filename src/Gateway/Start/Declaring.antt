-- ===== src/Gateway/Start/Declaring.antt =====
-- gateway/server.go and dead_letter_queues/delay_setup.go: the declarations of the shards' queues.
use distributed_messaging_sy.Base.{
  inl, inr, Option-cases, ◌≡◌, refl, true, false, bytes_eq_refl, is_empty, Bytes, bytes, List, [],
  ◌∷◌, ◌++◌, All, Outcome, returns, exits, panics, IsReturn, ◌>>◌, arith,
}
use distributed_messaging_sy.Amqp.{Env, exchange_declare, queue_declare}
use distributed_messaging_sy.Amqp.Process.{Process, Act, call_or_exit}
use distributed_messaging_sy.DeadLetter.Queues.{quorum_args, retry_queue_of}
use distributed_messaging_sy.DeadLetter.{setup_retry_queue, setup_each, setup_retry_queues}
use distributed_messaging_sy.Gateway.Start.{declare_shards}
use distributed_messaging_sy.Gateway.Start.Order.{has_queue, has_exchange, IsOrdered, Grows}
use distributed_messaging_sy.Gateway.Start.Sequence.{then_lem}

is_empty-append : (s t : Bytes) → is_empty t ≡ false → is_empty (s ++ t) ≡ false
is_empty-append [] t n = n
is_empty-append (_ ∷ s) t n = refl

module _ (env : Env) where
  pub declare-IsOrdered :
      (qs : List Bytes) (p : Process)
      → IsOrdered env p.calls
      → IsOrdered env (declare_shards env qs p).1.calls
  unfolding IsOrdered declare_shards
  declare-IsOrdered [] p h = h
  declare-IsOrdered (q ∷ qs) p h =
      let a = call_or_exit env (queue_declare q true false false false quorum_args) in
      let a-IsOrdered : IsOrdered env (a p).1.calls = ground (arith, h) in
      then_lem (λ p. IsOrdered env p.calls) a (declare_shards env qs) p a-IsOrdered
        (λ r. declare-IsOrdered qs (a p).1 a-IsOrdered)

  retry_queue-named : (shard : Bytes) → is_empty (retry_queue_of shard) ≡ false
  unfolding retry_queue_of bytes
  retry_queue-named shard = is_empty-append shard (bytes "_retry_5s") refl

  setup-Grows :
      (shard : Bytes) (p : Process)
      → IsOrdered env p.calls
      → has_exchange env (bytes "retry_exchange") p.calls ≡ true
      → Grows env (setup_retry_queue env shard) p
        × (has_exchange env (bytes "retry_exchange") (setup_retry_queue env shard p).1.calls ≡ true)
        × (IsReturn (setup_retry_queue env shard p).0
            → has_queue env (retry_queue_of shard) (setup_retry_queue env shard p).1.calls ≡ true)
  unfolding IsOrdered has_queue has_exchange setup_retry_queue
  setup-Grows shard p h e =
      let n = retry_queue-named shard in
      let same = bytes_eq_refl (retry_queue_of shard) in
      (
        (ground (arith, h, e, n, same), λ j k. ground (arith, k)),
        ground (arith, e),
        λ r. ground (arith, n, same, r),
      )

  -- The queues of a ring are declared.
  abbrev pub AllDeclared : List Bytes → Process → Type 0
  AllDeclared ring p = All (λ q. has_queue env (retry_queue_of q) p.calls ≡ true) ring

  pub all-Grows :
      (ring : List Bytes) (p p' : Process)
      → ((j : Bytes) → has_queue env j p.calls ≡ true → has_queue env j p'.calls ≡ true)
      → AllDeclared ring p
      → AllDeclared ring p'
  all-Grows [] p p' g h = tt
  all-Grows (q ∷ ring) p p' g (h, hs) = (g (retry_queue_of q) h, all-Grows ring p p' g hs)

  -- The record is ordered, and a queue that was declared is still so after a return.
  abbrev Sets : List Bytes → Act (Unit {0}) → Process → Type 0
  Sets ring a p = Grows env a p × (IsReturn (a p).0 → AllDeclared ring (a p).1)

  then-Sets :
      (q : Bytes) (ring : List Bytes) (b : Act (Unit {0})) (p : Process)
      (r : Outcome (Unit {0}) × Process)
      → Grows env (λ _. r) p
      → (IsReturn r.0 → has_queue env (retry_queue_of q) r.1.calls ≡ true)
      → (IsReturn r.0 → Sets ring b r.1)
      → Sets (q ∷ ring) ((λ _. r) >> b) p
  then-Sets q ring b p (returns _, s) (o, g) d rest =
      let ((o', g'), all) = rest tt in
      ((o', λ j k. g' j (g j k)), λ r. (g' (retry_queue_of q) (d tt), all r))
  then-Sets q ring b p (exits, s) g d rest = (g, λ r. absurd r)
  then-Sets q ring b p (panics, s) g d rest = (g, λ r. absurd r)

  each-Sets :
      (ring : List Bytes) (p : Process)
      → IsOrdered env p.calls
      → has_exchange env (bytes "retry_exchange") p.calls ≡ true
      → Sets ring (setup_each env ring) p
  unfolding setup_each
  each-Sets [] p h e = ((h, λ j k. k), λ r. tt)
  each-Sets (q ∷ ring) p h e =
      let (g, x, d) = setup-Grows q p h e in
      then-Sets q ring (setup_each env ring) p (setup_retry_queue env q p) g d
        (λ r. each-Sets ring (setup_retry_queue env q p).1 g.0 x)

  pub setup-Sets :
      (ring : List Bytes) (p : Process)
      → IsOrdered env p.calls
      → IsOrdered env (setup_retry_queues env ring p).1.calls
        × (IsReturn (setup_retry_queues env ring p).0
            → AllDeclared ring (setup_retry_queues env ring p).1)
  unfolding setup_retry_queues IsOrdered has_exchange
  setup-Sets ring p h =
      let c = exchange_declare (bytes "retry_exchange") (bytes "direct") true false false false in
      let p' = record p { calls = c ∷ p.calls } in
      elim (Option-cases (env.fails p.calls c)) [
        | inl e ↦
            let ((o, g), all) =
              each-Sets ring p' h (ground (arith, e, bytes_eq_refl (bytes "retry_exchange"))) in
            rw e (o, all)
        | inr (x, e) ↦ rw e (h, λ r. absurd r)
      ]
