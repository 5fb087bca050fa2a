-- ===== src/Quorum/Host.antt =====
-- quorum_recovery/handler.go: the state of the monitor, and the calls that it makes of Docker and of
-- the management API.
use distributed_messaging_sy.Base.{
  ℕ, ◌+◌, Bool, ◌==◌, if◌then◌else◌, Bytes, bytes, List, [], ◌∷◌, Option, none, some, Go, Outcome,
  pure, modify, ◌>>=◌,
}
use distributed_messaging_sy.Monitor.{Metrics, fresh}

pub data Op : Type 0 where
  container_list : Op
  container_create : (name node cookie user pass : Bytes) → Op
  container_start : (id : Bytes) → Op
  container_stop : (name : Bytes) (timeout_ms : ℕ) → Op
  container_inspect : (name : Bytes) → Op
  container_remove : (name : Bytes) (force volumes : Bool) → Op
  volume_remove : (name : Bytes) (force : Bool) → Op
  exec_create : (container : Bytes) (cmd : List Bytes) → Op
  exec_attach : (id : Bytes) → Op
  exec_inspect : (id : Bytes) → Op
  http_get : (path user pass : Bytes) → Op
  sleep : (milliseconds : ℕ) → Op

abbrev pub Error : Type 0
Error = Bytes

-- An element of /api/nodes
pub record Node : Type 0 where
  pub name : Bytes
  pub running : Bool

-- `Queue`
pub record Queue : Type 0 where
  pub name : Bytes
  pub type : Bytes
  pub leader : Bytes
  pub members : List Bytes

-- The answers, each a function of the operations before, newest first
pub record Host : Type 0 where
  pub fails : List Op → Op → Option Error
  pub names : List Op → List (List Bytes)  -- the names of the running containers
  pub new_id : List Op → Bytes  -- the id that a creation returns
  pub output : List Op → Bytes  -- what an attached command wrote
  pub exit_code : List Op → ℕ
  pub is_running : List Op → Bool  -- of a container that was inspected
  pub page : List Op → Bytes  -- the body of a response
  pub decode_nodes : Bytes → Option (List Node)
  pub decode_queues : Bytes → Option (List Queue)
  pub random : List Op → ℕ
  pub took : List Op → Op → ℕ  -- the milliseconds from an operation to the next, beside the pauses

-- `time.Now()`, in milliseconds from the start of the monitor: the pauses, which last at least what is
-- asked, and what the operations took.
unfoldable pub now_ms : Host → List Op → ℕ
now_ms host [] = 0
now_ms host (sleep ms ∷ ops) = ms + host.took ops (sleep ms) + now_ms host ops
now_ms host (o ∷ ops) = host.took ops o + now_ms host ops

pub record Recovery : Type 0 where
  pub ops : List Op  -- newest first
  pub forgotten : List Bytes  -- the keys of the map, newest first
  pub expected : List Bytes
  pub previous : List Bytes
  pub metrics : Metrics

abbrev pub init : Recovery
init = record { ops = []; forgotten = []; expected = []; previous = []; metrics = fresh }

abbrev pub Act {ℓ} : Type ℓ → Type ℓ
Act A = Go Recovery A

module _ (host : Host) where
  abbrev pub operate : Op → Act (Option Error)
  operate o s = (Outcome.returns (host.fails s.ops o), record s { ops = o ∷ s.ops })

  abbrev pub pause : ℕ → Act (Unit {0})
  pause ms = modify (λ s. record s { ops = sleep ms ∷ s.ops })

  -- A call that returns an id, or an error
  abbrev pub create : Op → Act (Option Bytes)
  create o s = (
    Outcome.returns (elim (host.fails s.ops o) [ none ↦ some (host.new_id s.ops) | some _ ↦ none ]),
    record s { ops = o ∷ s.ops },
  )

  -- `execInContainer`: what the command wrote, and the error
  unfoldable pub exec_in_container : Bytes → List Bytes → Act (Bytes × Option Error)
  exec_in_container container cmd = do
    id ← create (exec_create container cmd)
    elim id [
      | none ↦ pure ([], some (bytes "exec create"))
      | some i ↦ do
        refused ← operate (exec_attach i)
        elim refused [
          | some e ↦ pure ([], some e)
          | none ↦ λ s.
              let out = host.output s.ops in
              let o = exec_inspect i in
              let s' = record s { ops = o ∷ s.ops } in
              elim (host.fails s.ops o) [
                | some e ↦ (Outcome.returns (out, some e), s')
                | none ↦ (
                  Outcome.returns
                      (out, if host.exit_code s.ops == 0 then none else some (bytes "exit code")),
                  s',
                )
              ]
        ]
    ]

  -- `httpRequest`: the body, or an error
  unfoldable pub http_request : Bytes → Bytes → Bytes → Act (Option Bytes)
  http_request url user pass s =
      let o = http_get url user pass in
      (
        Outcome.returns
            (elim (host.fails s.ops o) [ none ↦ some (host.page s.ops) | some _ ↦ none ]),
        record s { ops = o ∷ s.ops },
      )

  abbrev pub count_failed : Act (Unit {0})
  count_failed = modify (λ s. record s {
    metrics = record (s.metrics) {
      quorum_recoveries_failed = s.metrics.quorum_recoveries_failed + 1;
    };
  })
