-- ===== src/Examples/Recovering.antt =====
-- A cluster whose management API answers and whose commands succeed, but whose list of containers
-- cannot be read.
use distributed_messaging_sy.Base.{
  ◌≡◌, ◌⊎◌, refl, true, false, bytes, bytes_eq, length, Bytes, List, [], ◌∷◌, Option, none, some,
  returns,
}
use distributed_messaging_sy.Quorum.Host.{
  Host, Op, Error, Node, Recovery, init, container_list, exec_create, now_ms,
}
use distributed_messaging_sy.Quorum.Replacement.{wait_fuel, wait_ready}
use distributed_messaging_sy.Quorum.Trigger.{is_listed, trigger_each}
use distributed_messaging_sy.Quorum.Waiting.{FoundReady, WasLate, wait_ready-finishes}
use distributed_messaging_sy.Quorum.Older
use distributed_messaging_sy.Quorum.Older.{quorum_monitor}
use distributed_messaging_sy.Quorum.Older.GivenUp.{starts, stops, trigger_recovery-gives_up}
use distributed_messaging_sy.Quorum.Once.{trigger_each-once}
use distributed_messaging_sy.Quorum.Recovered.{Recovered}

abbrev no_list : Op → Option Error
no_list container_list = some (bytes "no daemon")
no_list _ = none

abbrev cluster : Host
cluster = record {
  fails = λ _ o. no_list o;
  names = λ _. [];
  new_id = λ _. bytes "c0ffee";
  output = λ _. [];
  exit_code = λ _. 1;
  is_running = λ _. false;
  page = λ _. [];
  decode_nodes = λ _. some [];
  decode_queues = λ _. some [];
  random = λ ops. length ops;
  took = λ _ _. 5;
}

abbrev node : Bytes
node = bytes "rabbit@rabbit-recover-7"

-- A recovery node is expected and runs.
abbrev expecting : Recovery
expecting = record init { expected = node ∷ [] }

abbrev running : List Node
running = record { name = node; running = true } ∷ []

wait_ready-finishes_example :
    let r = wait_ready cluster wait_fuel 90000 node init in
    FoundReady cluster 90000 node r ⊎ WasLate cluster 90000 r
unfolding now_ms
wait_ready-finishes_example = wait_ready-finishes cluster node init

trigger_each-once_example :
    let first = trigger_each cluster (node ∷ []) init in
    let second = trigger_each cluster (node ∷ []) first.1 in
    (first.0 ≡ returns tt)
    × (second.0 ≡ returns tt)
    × (second.1.ops ≡ first.1.ops)
    × (second.1.forgotten ≡ first.1.forgotten)
    × (second.1.metrics.quorum_recoveries_total ≡ 2)
    × (length second.1.metrics.quorum_recovery_duration ≡ 2)
trigger_each-once_example = trigger_each-once cluster (node ∷ []) init

-- It is listed as not running.
abbrev stopped : List Node
stopped = record { name = node; running = false } ∷ []

-- No command can be run in a container.
abbrev no_exec : Op → Option Error
no_exec (exec_create _ _) = some (bytes "no such container")
no_exec _ = none

abbrev stuck : Host
stuck = record cluster { fails = λ _ o. no_exec o; decode_nodes = λ _. some running }

trigger_recovery-gives_up_example :
    let after = (Older.trigger_recovery stuck (bytes "rabbit@rabbit2") init).1 in
    let later =
      quorum_monitor stuck 3 (bytes "http://r:15672") (bytes "guest") (bytes "guest") after in
    (stops (bytes "rabbit2") after.ops ≡ 1)
    × (later.0 ≡ returns tt)
    × (starts later.1.ops ≡ 0)
    × (is_listed (bytes "rabbit@rabbit2") later.1.forgotten ≡ true)
unfolding bytes bytes_eq Older.extract_container is_listed starts stops
trigger_recovery-gives_up_example =
    trigger_recovery-gives_up stuck (λ h cmd. (bytes "no such container", refl))
      (bytes "rabbit@rabbit2") (bytes "rabbit2") (bytes "http://r:15672") (bytes "guest")
      (bytes "guest") 3 init refl refl (λ e. cc)
