-- ===== src/Raft/Lifecycle.antt =====
-- A node as it starts, answers questions and feeds its state machine: the rest of raft/raft.go,
-- `readPersist` of raft/persist.go, the tick of raft/election.go and the applier of
-- raft/replication.go.
use distqueue.Base.{
  ℕ, zero, suc, ◌+◌, ◌-◌, ◌*◌, ◌^◌, Bool, not, ◌&&◌, Option, none, some, List, [], ◌∷◌, ltb, leb,
  if◌then◌else◌, Bytes, length, get_or, max,
}
use distqueue.Raft.{
  Node, State, follower, is_leader, LogEntry, PersistentState, SnapshotMsg, first_index, no_entry,
}
use distqueue.Raft.Election.{RequestVoteArgs, start_election}

-- The intervals of `Config`, in nanoseconds.
pub record Intervals : Type 0 where
  pub election_timeout_min : ℕ
  pub election_timeout_max : ℕ
  pub heartbeat_interval : ℕ

abbrev pub millisecond : ℕ
millisecond = 10 ^ 6

-- `applyDefaults`
unfoldable pub apply_defaults : Intervals → Intervals
apply_defaults c =
    let low = if leb c.election_timeout_min 0 then 150 * millisecond else c.election_timeout_min in
    record {
      election_timeout_min = low;
      election_timeout_max =
          if leb c.election_timeout_max low then 2 * low else c.election_timeout_max;
      heartbeat_interval =
          if leb c.heartbeat_interval 0 then 50 * millisecond else c.heartbeat_interval;
    }

-- What `readPersist` finds: the state file, and the snapshot file.
pub record Files : Type 0 where
  pub state_file : Option PersistentState
  pub snapshot_file : Bytes

-- The fields that `NewNode` sets before it reads the files.
unfoldable pub blank : Bytes → List Bytes → Node
blank id peers = record {
  id = id;
  peers = peers;
  state = follower;
  current_term = 0;
  voted_for = [];
  log = no_entry ∷ [];
  commit_index = 0;
  last_applied = 0;
  next_index = [];
  match_index = [];
  leader_id = [];
  snapshot = none;
  pending_snapshot = none;
  elections_started = 0;
  disk = record { current_term = 0; voted_for = []; log = no_entry ∷ [] };
}

-- `readPersist`, of files that can be read and decoded
unfoldable pub read_persist : Node → Files → Node
read_persist n files = elim files.state_file [
  | none ↦ n
  | some ps ↦
      let n' = record n {
        current_term = ps.current_term;
        voted_for = ps.voted_for;
        log = ps.log;
        disk = ps;
      } in
      if ltb 0 (length files.snapshot_file)
      then record n' {
        snapshot = some files.snapshot_file;
        pending_snapshot = some (record {
          snapshot = files.snapshot_file;
          snapshot_index = (get_or ps.log 0 no_entry).index;
          snapshot_term = (get_or ps.log 0 no_entry).term;
        });
      }
      else n'
]

-- `NewNode`
unfoldable pub new_node : Bytes → List Bytes → Files → Node
new_node id peers files =
    let n = read_persist (blank id peers) files in
    record n { commit_index = first_index n; last_applied = first_index n }

-- A tick of `electionLoop`: the time since the last reset, and the timeout.
unfoldable pub election_tick : Node → ℕ → ℕ → Node × Option RequestVoteArgs
election_tick n elapsed timeout =
    if not (is_leader n.state) && leb timeout elapsed
    then (let (n', args) = start_election n in (n', some args))
    else (n, none)

-- `State`
unfoldable pub state_of : Node → ℕ × Bool
state_of n = (n.current_term, is_leader n.state)

-- `LeaderHint`
unfoldable pub leader_hint : Node → Bytes
leader_hint n = if is_leader n.state then n.id else n.leader_id

pub record Metrics : Type 0 where
  pub term : ℕ
  pub state : State
  pub log_length : ℕ
  pub commit_index : ℕ
  pub last_applied : ℕ
  pub snapshot_index : ℕ
  pub elections_started : ℕ

-- `Metrics`
unfoldable pub metrics : Node → Metrics
metrics n = record {
  term = n.current_term;
  state = n.state;
  log_length = length n.log - 1;
  commit_index = n.commit_index;
  last_applied = n.last_applied;
  snapshot_index = first_index n;
  elections_started = n.elections_started;
}

-- What the applier takes under the lock: nothing yet, a snapshot, or a batch of entries.
pub data Delivery : Type 0 where
  wait : Delivery
  restore : SnapshotMsg → Delivery
  batch : List LogEntry → Delivery

-- The entries with the indices from `i` on, `k` of them.
unfoldable pub entries_from : Node → ℕ → ℕ → List LogEntry
entries_from n i zero = []
entries_from n i (suc k) = get_or n.log (i - first_index n) no_entry ∷ entries_from n (i + 1) k

-- One round of the loop of `applier`, up to the sends.
unfoldable pub applier : Node → Node × Delivery
applier n = elim n.pending_snapshot [
  | some msg ↦ (
    record n { pending_snapshot = none; last_applied = max msg.snapshot_index n.last_applied },
    restore msg,
  )
  | none ↦
      if leb n.commit_index n.last_applied
      then (n, wait)
      else (let from =
            if leb (n.last_applied + 1) (first_index n)
            then first_index n + 1
            else n.last_applied + 1 in
          (n, batch (entries_from n from (n.commit_index + 1 - from))))
]

-- What the loop of `applier` does once an entry has been sent.
unfoldable pub applied : Node → LogEntry → Node
applied n e = record n { last_applied = max e.index n.last_applied }

-- What the loop of `applier` does to a node: it takes something, or notes an entry that was sent.
pub data Applying : Node → Node → Type 0 where
  takes : (n : Node) → Applying n (applier n).0
  notes : (n : Node) (e : LogEntry) → Applying n (applied n e)
