-- ===== src/Quorum/Waiting.antt =====
-- quorum_recovery/handler.go: the wait for a new node ends, and how.
use distributed_messaging_sy.Base.{
  is_empty, none, some, ℕ, zero, suc, ◌+◌, ◌*◌, ◌≤◌, ◌<◌, ◌≡◌, ◌⊎◌, inl, inr, refl, true, false,
  Bool-cases, ltb, Bytes, bytes, List, [], ◌∷◌, Option, arith, IsReturn, IsReturn-value, Outcome,
  returns,
}
use std.Path.{subst, sym, ap}
use distributed_messaging_sy.Quorum.Host.{Host, Error, Recovery, sleep, now_ms, exec_in_container}
use distributed_messaging_sy.Quorum.Replacement.{
  Waited, ready, timed_out, is_ready, wait_fuel, wait_ready,
}

-- The command whose answer tells if a node is ready
abbrev pub status_command : List Bytes
status_command = bytes "rabbitmqctl" ∷ bytes "status" ∷ []

module _ (host : Host) where
  -- The wait ended because the status command, started no later than the deadline, ended
  -- without an error and wrote something, and nothing came after it.
  pub record FoundReady (deadline : ℕ) (c : Bytes) (r : Outcome Waited × Recovery) : Type 0 where
    pub outcome : r.0 ≡ returns ready
    pub before : Recovery
    pub in_time : now_ms host before.ops ≤ deadline
    pub answer : Bytes × Option Error
    pub asked : exec_in_container host c status_command before ≡ (returns answer, r.1)
    pub succeeded : answer.1 ≡ none
    pub wrote : is_empty answer.0 ≡ false

  -- The wait ended because the deadline had passed.
  pub record WasLate (deadline : ℕ) (r : Outcome Waited × Recovery) : Type 0 where
    pub outcome : r.0 ≡ returns timed_out
    pub late : deadline < now_ms host r.1.ops

  exec-later :
      (c : Bytes) (cmd : List Bytes) (s : Recovery)
      → IsReturn (exec_in_container host c cmd s).0
        × (now_ms host s.ops ≤ now_ms host (exec_in_container host c cmd s).1.ops)
  unfolding exec_in_container now_ms
  exec-later c cmd s = ground arith

  is_ready_lem :
      (a : Bytes × Option Error) → is_ready a ≡ true → (a.1 ≡ none) × (is_empty a.0 ≡ false)
  is_ready_lem (out, none) found = ground (arith, found)
  is_ready_lem (out, some e) found = ground (arith, found)

  late_lem :
      (fuel deadline : ℕ) (c : Bytes) (s : Recovery)
      → ltb deadline (now_ms host s.ops) ≡ true
      → wait_ready host (suc fuel) deadline c s ≡ (returns timed_out, s)
  unfolding wait_ready
  late_lem fuel deadline c s late = rw late refl

  ready_lem :
      (fuel deadline : ℕ) (c : Bytes) (s s₁ : Recovery) (a : Bytes × Option Error)
      → ltb deadline (now_ms host s.ops) ≡ false
      → exec_in_container host c status_command s ≡ (returns a, s₁)
      → is_ready a ≡ true
      → wait_ready host (suc fuel) deadline c s ≡ (returns ready, s₁)
  unfolding wait_ready
  ready_lem fuel deadline c s s₁ a early asked answered = rw early (rw asked (rw answered refl))

  next_lem :
      (fuel deadline : ℕ) (c : Bytes) (s s₁ : Recovery) (a : Bytes × Option Error)
      → ltb deadline (now_ms host s.ops) ≡ false
      → exec_in_container host c status_command s ≡ (returns a, s₁)
      → is_ready a ≡ false
      → wait_ready host (suc fuel) deadline c s
        ≡ wait_ready host fuel deadline c (record s₁ { ops = sleep 3000 ∷ s₁.ops })
  unfolding wait_ready
  next_lem fuel deadline c s s₁ a early asked answered = rw early (rw asked (rw answered refl))

  abbrev Ended : ℕ → Bytes → Outcome Waited × Recovery → Type 0
  Ended deadline c r = FoundReady deadline c r ⊎ WasLate deadline r

  pub wait_ready-ends :
      (fuel deadline : ℕ) (c : Bytes) (s : Recovery)
      → deadline < now_ms host s.ops + 3000 * fuel
      → let r = wait_ready host (suc fuel) deadline c s in Ended deadline c r
  unfolding now_ms
  wait_ready-ends zero deadline c s h =
      let e = late_lem zero deadline c s (ground (arith, h)) in
      inr (record { outcome = rw e refl; late = rw e (omega (arith, h)) })
  wait_ready-ends (suc fuel) deadline c s h = elim (Bool-cases (ltb deadline (now_ms host s.ops))) [
    | inl late ↦
        let e = late_lem (suc fuel) deadline c s late in
        inr (record { outcome = rw e refl; late = rw e (ground (arith, late)) })
    | inr early ↦
        let in_time : now_ms host s.ops ≤ deadline = ground (arith, early) in
        let (back, later) = exec-later c status_command s in
        let (a, e) = IsReturn-value _ back in
        let s₁ = (exec_in_container host c status_command s).1 in
        let asked : exec_in_container host c status_command s ≡ (returns a, s₁) =
          ap (λ o. (o, s₁)) e in
        elim (Bool-cases (is_ready a)) [
          | inl found ↦
              let e = ready_lem (suc fuel) deadline c s s₁ a early asked found in
              inl (record {
                outcome = rw e refl;
                before = s;
                in_time = in_time;
                answer = a;
                asked = rw e asked;
                succeeded = (is_ready_lem a found).0;
                wrote = (is_ready_lem a found).1;
              })
          | inr other ↦
              let s₂ = record s₁ { ops = sleep 3000 ∷ s₁.ops } in
              subst (Ended deadline c)
                (sym (next_lem (suc fuel) deadline c s s₁ a early asked other))
                (wait_ready-ends fuel deadline c s₂ (omega (arith, h, later)))
        ]
  ]

  -- The wait for a new node ends within the fuel given, in one of two ways: with the answer of a
  -- `rabbitmqctl status` that was started no later than 90 seconds after the wait began, failed in no
  -- step and wrote something; or with the timeout, only once these 90 seconds are over.
  pub wait_ready-finishes :
      (c : Bytes) (s : Recovery)
      → let deadline = now_ms host s.ops + 90000 in
        let r = wait_ready host wait_fuel deadline c s in
        FoundReady deadline c r ⊎ WasLate deadline r
  wait_ready-finishes c s = wait_ready-ends 31 (now_ms host s.ops + 90000) c s (omega arith)
