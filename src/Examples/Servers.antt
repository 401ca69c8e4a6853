-- ===== src/Examples/Servers.antt =====
-- The theorems on the servers at a node that leads.
use distqueue.Server.Answers.{register-answered}
use distqueue.Base.{
  ◌≢◌, ap, get_or, ◌≡◌, refl, some, none, true, false, Option, [], ◌∷◌, List, Bytes, codes, arith,
  bytes_discrete, ite, count,
}
use distqueue.Base.Int.{pos}
use distqueue.Base.Maps.{get, insert, delete, IsMap}
use distqueue.Failover
use distqueue.Heap
use distqueue.Machine
use distqueue.Machine.{Machine, QueueOp, new_machine}
use distqueue.Task.{Task, no_task}
use distqueue.Wal.{op_enqueue}
use distqueue.Raft.{Node, leader, persist}
use distqueue.Raft
use distqueue.Raft.Lifecycle.{blank, leader_hint}
use distqueue.Server.{
  Codec, ClusterServer, ClusterConfig, commits, apply_message, apply_command, count_applied, wake,
  propose, register, collect, time_out, dequeue, end_finish, scan, scan_each, redirect_message,
  new_cluster_server, ok, fault,
}
use distqueue.Server.Runs.{
  Act, proposes, registers, hears, dequeues, finishes, scans, World, run, perform, new_world,
}
use distqueue.Server.Deadlines.{run-expires}
use distqueue.Server.Redirects.{redirect-hint}

-- A coding of acks and nacks, and of one enqueue.
abbrev decode : Bytes → Option QueueOp
decode [] = none
decode (t ∷ []) =
    some
      (record { type = op_enqueue; task = some (record no_task { id = codes "t" }); task_id = [] })
decode (t ∷ x ∷ xs) = some (record { type = t; task = none; task_id = x ∷ xs })

abbrev coding : Codec
coding = record {
  encode_op = λ op. some (op.type ∷ op.task_id);
  decode_op = decode;
  encode_state = λ st. some [];
  decode_state = λ b. none;
}

abbrev chief : Node
chief = record (blank (codes "a") (codes "b" ∷ [])) {
  state = leader;
  current_term = 4;
  leader_id = codes "a";
}

abbrev setting : ClusterConfig
setting = record {
  task_timeout = pos 30;
  snapshot_threshold = 5;
  client_addrs = (codes "a", codes "h:1") ∷ [];
}

abbrev queue : Machine
queue = new_machine (pos 3) (λ _. no_task) 0

abbrev put_in : QueueOp
put_in = record { type = op_enqueue; task = some (record no_task { id = codes "t" }); task_id = [] }

abbrev world : List Act → World
world acts = elim (run coding (new_world chief queue setting) acts) [
  | none ↦ new_world chief queue setting
  | some w ↦ w
]

abbrev before : List Act
before = proposes put_in ∷ []

abbrev told : List Act
told = proposes put_in ∷ registers 1 ∷ hears (commits (op_enqueue ∷ []) 1 4) ∷ []

abbrev waiting : World
waiting = world before

abbrev during : List Act
during = dequeues 7 ∷ hears (commits [] 3 4) ∷ []

abbrev registered : World
registered = elim (run coding waiting (registers 1 ∷ during)) [ none ↦ waiting | some w ↦ w ]

abbrev applied : ClusterServer
applied = elim (apply_message coding registered.server (commits (op_enqueue ∷ []) 1 4)) [
  | none ↦ registered.server
  | some s ↦ s
]

register-answered_example :
    (collect registered.server 0 4 ≡ none) × (collect applied 0 4 ≡ some (ok tt))
unfolding run perform new_world new_cluster_server propose Raft.propose persist blank register
    dequeue apply_message apply_command count_applied wake collect Machine.dequeue
    Machine.dequeue_loop Machine.apply Machine.apply_enqueue Machine.push_locked new_machine
    Heap.push get insert bytes_discrete
register-answered_example =
    register-answered coding chief queue setting before during waiting registered applied
      (op_enqueue ∷ []) 1 4 refl refl (tt, ((λ h. absurd (omega (arith, h))), tt)) refl

abbrev twice : ClusterServer
twice = (time_out (register (register waiting.server 1).0 1).0 1).0

abbrev late : ClusterServer
late = elim (apply_message coding twice (commits (op_enqueue ∷ []) 1 4)) [
  | none ↦ twice
  | some s ↦ s
]

redirect-hint_example :
    Failover.leader_hint (redirect_message (new_cluster_server chief queue setting)) ≡ codes "h:1"
unfolding new_cluster_server blank leader_hint get bytes_discrete Failover.trim_left
    Failover.trim_right
redirect-hint_example = redirect-hint (new_cluster_server chief queue setting) refl

-- The task is in the queue.
abbrev stage : World
stage = world told

abbrev handed : Task
handed = elim (dequeue stage.server 7).1 [ ok t ↦ t | fault e ↦ no_task ]

abbrev handing : World
handing = record stage { server = (dequeue stage.server 7).0 }

-- Another task is acked, and a scan comes too early.
abbrev between : List Act
between = finishes (codes "u") ∷ scans 9 ∷ []

abbrev behind : World
behind = elim (run coding handing between) [ none ↦ handing | some w ↦ w ]

other-id : codes "u" ≢ codes "t"
other-id h = omega (arith, ap (λ b. get_or b 0 0) h)

run-expires_example :
    count (λ j. ite (bytes_discrete j (codes "t")) true false) (scan behind.server 40).1 ≡ 1
unfolding run perform new_world new_cluster_server propose Raft.propose persist blank register
    dequeue scan scan_each end_finish apply_message apply_command count_applied wake collect
    Machine.dequeue Machine.dequeue_loop Machine.apply Machine.apply_enqueue Machine.push_locked
    new_machine Heap.push Heap.pop Heap.up Heap.up_loop Heap.sifted Heap.down Heap.down_loop
    Heap.swap get insert delete bytes_discrete IsMap
run-expires_example =
    run-expires coding stage behind between 7 40 handed tt refl (other-id, (refl, tt)) refl
