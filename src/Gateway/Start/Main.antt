-- ===== src/Gateway/Start/Main.antt =====
-- gateway/server.go, `main`, from the connection to the start of the server.
use distributed_messaging_sy.Base.{
  ℕ, ◌≡◌, true, refl, Option, none, some, returns, fatal, pure, ◌>>◌,
}
use distributed_messaging_sy.Amqp.{Env}
use distributed_messaging_sy.Amqp.Process.{Process, Act}
use distributed_messaging_sy.Amqp.Connect.{connect, IsConnected}
use distributed_messaging_sy.DeadLetter.RetryChain.{accepting}
use distributed_messaging_sy.Gateway.Start.{Machine, start_gateway}
use distributed_messaging_sy.Gateway.Start.Order.{IsOrdered}
use distributed_messaging_sy.Gateway.Start.Ordered.{start_gateway-IsOrdered}
use distributed_messaging_sy.Amqp.Trace.{consumers}
use distributed_messaging_sy.Gateway.Start.Serving.{Served, served_queues, start_gateway-Served}
use distributed_messaging_sy.Gateway.Start.Sequence.{then_lem}
use distributed_messaging_sy.Gateway.Start.Connecting.{
  start-Linked, connect-Linked, connect-IsOrdered,
}

-- `main` up to `http.Serve`, on a machine and with the port that `net.Listen` gives, if it gives one:
-- the port under which the gateway registers with the balancer and serves.
unfoldable pub gateway_main : Env → Machine → Option ℕ → Act ℕ
unfolding start_gateway
gateway_main env machine bound = do
  connect env
  start_gateway env machine
  elim bound [ none ↦ fatal | some port ↦ pure port ]

module _ (env : Env) where
  -- `net.Listen` and the rest
  abbrev serve_at : Option ℕ → Act ℕ
  serve_at none = fatal
  serve_at (some port) = pure port

  abbrev Sound : Process → Type 0
  Sound p = IsConnected env p.calls × IsOrdered env p.calls

  serve_at-Sound : (bound : Option ℕ) (p : Process) → Sound p → Sound (serve_at bound p).1
  serve_at-Sound none p h = h
  serve_at-Sound (some port) p h = h

  -- Whatever the broker answers, whatever the auto-scaler does in the pauses, and wherever an error ends it, from a record of calls that keeps these
  -- rules: `main` opens no channel without a connection and asks nothing of the broker without a
  -- channel; and it consumes from a queue, and binds a queue to an exchange, only after it has declared
  -- them without an error.
  pub gateway_main-IsOrdered :
      (m : Machine) (bound : Option ℕ) (p : Process)
      → IsConnected env p.calls
      → IsOrdered env p.calls
      → let calls = (gateway_main env m bound p).1.calls in
        IsConnected env calls × IsOrdered env calls
  unfolding gateway_main
  gateway_main-IsOrdered m bound p h o =
      let (linked, opened) = connect-Linked env p h in
      let ordered = connect-IsOrdered env p o in
      let p₁ = (connect env p).1 in
      then_lem Sound (connect env) (start_gateway env m >> serve_at bound) p (linked, ordered)
        (λ r.
          let (_, kept) = start-Linked env m p₁ (opened r, linked) in
          let sound : Sound (start_gateway env m p₁).1 =
            (kept, start_gateway-IsOrdered env m p₁ ordered) in
          then_lem Sound (start_gateway env m) (serve_at bound) p₁ sound
            (λ r. serve_at-Sound bound (start_gateway env m p₁).1 sound))

-- Under a broker that takes every call, on a machine that opens the log of the auto-scaler, whatever
-- rounds the auto-scaler makes in the pauses, and if a port is free: `main` comes to serve on this
-- port, and then the queue of each shard, its resilient queue, its queue for retries and the queue of
-- dead letters have at least one consumer more than before.
pub gateway_main-Served :
    (env : Env) (m : Machine) (port : ℕ) (p : Process)
    → m.opens_log ≡ true
    → let r = gateway_main (accepting env) m (some port) p in
      (r.0 ≡ returns port) × Served served_queues p.calls r.1.calls
unfolding gateway_main connect consumers
gateway_main-Served env m port p opens =
    let (done, served) = start_gateway-Served env m (connect (accepting env) p).1 opens in
    (rw done refl, rw done served)
