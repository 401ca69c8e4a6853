-- ===== src/Server.antt =====
-- The server of a cluster node, server/cluster.go: a Raft node and its replica of the queue, the
-- calls that wait for their entry, and the deadlines of what this node has handed out. Each part
-- between two waits or outside the locks is an operation of its own; the goroutines take turns.
pub mod Runs
pub mod Effects
pub mod Wakes
pub mod Awaits
pub mod Answers
pub mod Scans
pub mod Deadlines
pub mod Resignation
pub mod Redirects
use distqueue.Base.{
  ℕ, zero, suc, ◌+◌, ◌^◌, map, Bool, true, false, not, ◌&&◌, Option, none, some, List, [], ◌∷◌,
  ◌++◌, ltb, leb, ◌==◌, if◌then◌else◌, Bytes, length, bytes_discrete, ℕ_discrete, ite, codes,
}
use distqueue.Base.Int.{ℤ, pos, leb_ℤ, pos_part}
use distqueue.Base.Maps.{get, insert, delete}
use distqueue.Task.{Task}
use distqueue.Broker.Control.{Stats}
use distqueue.Gateway.{Clock, WireTask, StatsResponse, from_proto, to_proto}
use distqueue.Wal.{op_enqueue, op_ack, op_nack}
use distqueue.Machine
use distqueue.Machine.{Machine, QueueOp, SnapshotState}
use distqueue.Raft
use distqueue.Raft.{Node, is_leader}
use distqueue.Raft.Installing
use distqueue.Raft.Lifecycle.{leader_hint}

-- gob, on commands and on snapshots
pub record Codec : Type 0 where
  pub encode_op : QueueOp → Option Bytes
  pub decode_op : Bytes → Option QueueOp
  pub encode_state : SnapshotState → Option Bytes
  pub decode_state : Bytes → Option SnapshotState

-- A snapshot threshold that is not positive is 0.
pub record ClusterConfig : Type 0 where
  pub task_timeout : ℤ
  pub snapshot_threshold : ℕ
  pub client_addrs : List (Bytes × Bytes)

-- `channels` are the channels that calls wait at, with the term that was sent, and `made` counts
-- them; `waiters` has the channel of an index.
pub record ClusterServer : Type 0 where
  pub node : Node
  pub sm : Machine
  pub cfg : ClusterConfig
  pub waiters : ℕ → Option ℕ
  pub channels : ℕ → Option ℕ
  pub made : ℕ
  pub inflight : List (Bytes × ℕ)
  pub was_leader : Bool
  pub applied_since_snap : ℕ
  pub stopped : Bool

-- `NewClusterServer`
unfoldable pub new_cluster_server : Node → Machine → ClusterConfig → ClusterServer
new_cluster_server node sm cfg = record {
  node = node;
  sm = sm;
  cfg = cfg;
  waiters = λ _. none;
  channels = λ _. none;
  made = 0;
  inflight = [];
  was_leader = false;
  applied_since_snap = 0;
  stopped = false;
}

-- The scan interval that it sets, in nanoseconds.
unfoldable pub scan_interval : ℤ → ℕ
scan_interval d = if leb_ℤ d (pos 0) then 10 ^ 9 else pos_part d

-- `raft.ApplyMsg`
pub data ApplyMsg : Type 0 where
  restores : Bytes → ApplyMsg
  commits : (command : Bytes) (index term : ℕ) → ApplyMsg
  nothing : ApplyMsg

-- A write to a map with numbers as keys.
abbrev pub put : (ℕ → Option ℕ) → ℕ → Option ℕ → ℕ → Option ℕ
put m i v j = ite (ℕ_discrete i j) v (m j)

-- The waiter of an index is told the term of what was applied there.
unfoldable pub wake : ClusterServer → ℕ → ℕ → ClusterServer
wake s index term = elim (s.waiters index) [
  | none ↦ s
  | some ch ↦ record s {
    waiters = put s.waiters index none;
    channels = put s.channels ch (some term);
  }
]

pub data CallError : Type 0 where
  invalid_argument not_found deadline_exceeded unavailable failed : CallError
  redirected : Bytes → CallError

pub data Reply (A : Type 0) : Type 0 where
  ok : A → Reply A
  fault : CallError → Reply A

-- The message of `redirect`
unfoldable pub redirect_message : ClusterServer → Bytes
redirect_message s =
    let hint = leader_hint s.node in
    ite (bytes_discrete hint []) (codes "not leader; leader unknown")
      (elim (get s.cfg.client_addrs hint) [
        | none ↦ codes "not leader; leader unknown"
        | some addr ↦ codes "not leader; leader=" ++ addr
      ])

unfoldable pub redirect : ClusterServer → CallError
redirect s = redirected (redirect_message s)

-- The loop over the expired ids ends, goes on, or waits for a proposal; it does not look at the
-- result.
pub data Redelivery : Type 0 where
  ends passes : Redelivery
  proposed : Reply (ℕ × ℕ) → Redelivery

module _ (c : Codec) where
  -- The state machine's part of a message; none is a panic.
  unfoldable pub apply_command : Machine → Bytes → Option Machine
  apply_command m [] = some m
  apply_command m (b ∷ bs) = elim (c.decode_op (b ∷ bs)) [
    | none ↦ none
    | some op ↦ some (Machine.apply m op)
  ]

  -- The count since the last snapshot, and the snapshot that it may call for.
  unfoldable pub count_applied : ClusterServer → ℕ → Option ClusterServer
  count_applied s index =
      let n = s.applied_since_snap + 1 in
      if ltb 0 s.cfg.snapshot_threshold && leb s.cfg.snapshot_threshold n
      then elim (c.encode_state (Machine.snapshot s.sm)) [
        | none ↦ none
        | some contents ↦
            some (record s {
              applied_since_snap = 0;
              node = Installing.snapshot s.node index contents;
            })
      ]
      else some (record s { applied_since_snap = n })

  -- A round of `applyLoop`
  unfoldable pub apply_message : ClusterServer → ApplyMsg → Option ClusterServer
  apply_message s (restores contents) = elim (c.decode_state contents) [
    | none ↦ none
    | some st ↦ some (record s { sm = Machine.restore s.sm st; applied_since_snap = 0 })
  ]
  apply_message s (commits command index term) = elim (apply_command s.sm command) [
    | none ↦ none
    | some sm ↦ count_applied (wake (record s { sm = sm }) index term) index
  ]
  apply_message s nothing = some s

  -- What `propose` does before it waits: the index and the term of the new entry.
  unfoldable pub propose : ClusterServer → QueueOp → ClusterServer × Reply (ℕ × ℕ)
  propose s op = elim (c.encode_op op) [
    | none ↦ (s, fault failed)
    | some cmd ↦
        let (node, index, term, led) = Raft.propose s.node cmd in
        if led then (record s { node = node }, ok (index, term)) else (s, fault (redirect s))
  ]

  -- `Enqueue`, up to the wait; the id and the time are those that a task without them is given.
  unfoldable pub enqueue :
      {T : Type 0}
      → Clock T
      → ClusterServer
      → Option (WireTask T)
      → Bytes
      → ℕ
      → ClusterServer × Reply (ℕ × ℕ)
  enqueue clock s none id now = (s, fault invalid_argument)
  enqueue clock s (some p) id now =
      let t = from_proto clock p in
      let t' = record t {
        id = ite (bytes_discrete t.id []) id t.id;
        created_at = if t.created_at == 0 then now else t.created_at;
      } in
      propose s (record { type = op_enqueue; task = some t'; task_id = [] })

  -- `finish`, up to the wait
  unfoldable pub start_finish : ClusterServer → ℕ → Bytes → ClusterServer × Reply (ℕ × ℕ)
  start_finish s type id =
      if not (is_leader s.node.state)
      then (s, fault (redirect s))
      else if not (Machine.has s.sm id)
      then (s, fault not_found)
      else propose s (record { type = type; task = none; task_id = id })

  -- `Ack` and `Nack`, up to the wait
  unfoldable pub ack : ClusterServer → Bytes → ClusterServer × Reply (ℕ × ℕ)
  ack s id = start_finish s op_ack id

  unfoldable pub nack : ClusterServer → Bytes → ClusterServer × Reply (ℕ × ℕ)
  nack s id = start_finish s op_nack id

  -- What `timeoutLoop` does for one of the ids that have expired, up to the wait.
  unfoldable pub redeliver : ClusterServer → Bytes → ClusterServer × Redelivery
  redeliver s id =
      if not (is_leader s.node.state)
      then (s, ends)
      else if not (Machine.has s.sm id)
      then (s, passes)
      else (let (s', r) = propose s (record { type = op_nack; task = none; task_id = id }) in
          (s', proposed r))

-- `propose` makes its channel and puts it down as the waiter of the index.
unfoldable pub register : ClusterServer → ℕ → ClusterServer × ℕ
register s index = (
  record s {
    waiters = put s.waiters index (some s.made);
    channels = put s.channels s.made none;
    made = s.made + 1;
  },
  s.made,
)

-- What the wait of `propose` returns, when its channel has a term; an `errNotLeader` as its callers
-- return it.
unfoldable pub collect : ClusterServer → ℕ → ℕ → Option (Reply (Unit {0}))
collect s ch term = elim (s.channels ch) [
  | none ↦ none
  | some landed ↦ some (if landed == term then ok tt else fault (redirect s))
]

-- The wait of `propose` ends after five seconds.
unfoldable pub time_out : ClusterServer → ℕ → ClusterServer × Reply (Unit {0})
time_out s index = (record s { waiters = put s.waiters index none }, fault deadline_exceeded)

-- What the wait may return once the server is stopped.
unfoldable pub interrupt : ClusterServer → Option (Reply (Unit {0}))
interrupt s = if s.stopped then some (fault unavailable) else none

-- `Stop`
unfoldable pub stop : ClusterServer → ClusterServer
stop s = record s { stopped = true }

-- `finish`, behind a commit
unfoldable pub end_finish : ClusterServer → Bytes → ClusterServer
end_finish s id = record s { inflight = delete s.inflight id }

-- `Dequeue`
unfoldable pub dequeue : ClusterServer → ℕ → ClusterServer × Reply Task
dequeue s now =
    if not (is_leader s.node.state)
    then (s, fault (redirect s))
    else let (sm, r) = Machine.dequeue s.sm now s.cfg.task_timeout in
      elim r [
        | none ↦ (record s { sm = sm }, fault not_found)
        | some t ↦ (record s { sm = sm; inflight = insert s.inflight t.id t.deadline }, ok t)
      ]

-- The loop over `inflight` at a tick of `timeoutLoop`: what stays, and the ids that have expired.
unfoldable pub scan_each : ℕ → List (Bytes × ℕ) → List (Bytes × ℕ) × List Bytes
scan_each now [] = ([], [])
scan_each now ((id, deadline) ∷ m) =
    let (kept, expired) = scan_each now m in
    if ltb deadline now then (kept, id ∷ expired) else ((id, deadline) ∷ kept, expired)

unfoldable pub scan : ClusterServer → ℕ → ClusterServer × List Bytes
scan s now =
    let (kept, expired) = scan_each now s.inflight in (record s { inflight = kept }, expired)

-- A tick of `leadershipWatch`
unfoldable pub watch : ClusterServer → ClusterServer
watch s =
    let led = is_leader s.node.state in
    if s.was_leader && not led
    then record s { was_leader = led; inflight = []; sm = Machine.requeue_in_flight s.sm }
    else record s { was_leader = led }

-- `Stats`
unfoldable pub stats : ClusterServer → StatsResponse
stats s =
    let st = Machine.stats s.sm in
    record { pending = st.pending; in_flight = st.in_flight; dlq = st.dlq; acked = st.acked }

-- `ListDLQ`
unfoldable pub list_dlq : {T : Type 0} → Clock T → ClusterServer → List (WireTask T)
list_dlq clock s = map (to_proto clock) (Machine.list_dlq s.sm)
