-- ===== src/Raft.antt =====
-- A Raft node, raft/raft.go and the state of raft/persist.go: its log with the snapshot boundary as
-- the first entry, stepping down, proposing. Terms and indices are not negative. A timer only
-- decides when a step happens, so that the node has none.
pub mod Election
pub mod Replication
pub mod Installing
pub mod Safety
pub mod Runs
pub mod Commit
pub mod Indices
pub mod Matching
pub mod Lifecycle
pub mod Applying
pub mod Roles
pub mod Cluster
pub mod Consensus
pub mod Transport
pub mod Calls
pub mod Sending
use distqueue.Base.{
  ℕ, ◌+◌, ◌-◌, ◌/◌, Bool, true, false, Option, none, some, List, [], ◌∷◌, ◌++◌, ltb, leb,
  if◌then◌else◌, Bytes, length, take, drop, get_or,
}
use distqueue.Base.Maps.{insert}

pub data State : Type 0 where
  follower candidate leader : State

pub record LogEntry : Type 0 where
  pub index : ℕ
  pub term : ℕ
  pub command : Bytes

-- `persistentState`, what is on disk
pub record PersistentState : Type 0 where
  pub current_term : ℕ
  pub voted_for : Bytes
  pub log : List LogEntry

-- The message of a snapshot, `ApplyMsg`.
pub record SnapshotMsg : Type 0 where
  pub snapshot : Bytes
  pub snapshot_index : ℕ
  pub snapshot_term : ℕ

-- `disk` is the state file.
pub record Node : Type 0 where
  pub id : Bytes
  pub peers : List Bytes
  pub state : State
  pub current_term : ℕ
  pub voted_for : Bytes
  pub log : List LogEntry
  pub commit_index : ℕ
  pub last_applied : ℕ
  pub next_index : List (Bytes × ℕ)
  pub match_index : List (Bytes × ℕ)
  pub leader_id : Bytes
  pub snapshot : Option Bytes
  pub pending_snapshot : Option SnapshotMsg
  pub elections_started : ℕ
  pub disk : PersistentState

-- The value that an access out of range would have.
abbrev pub no_entry : LogEntry
no_entry = record { index = 0; term = 0; command = [] }

-- `firstIndex`
abbrev pub first_index : Node → ℕ
first_index n = (get_or n.log 0 no_entry).index

-- The last entry of a log.
abbrev pub last_entry : List LogEntry → LogEntry
last_entry log = get_or log (length log - 1) no_entry

-- `lastIndex`
abbrev pub last_index : Node → ℕ
last_index n = (last_entry n.log).index

-- `lastTerm`
abbrev pub last_term : Node → ℕ
last_term n = (last_entry n.log).term

-- `termAt`, through `entryAt`
abbrev pub term_at : Node → ℕ → ℕ
term_at n i = (get_or n.log (i - first_index n) no_entry).term

-- `sliceFrom`
abbrev pub slice_from : Node → ℕ → List LogEntry
slice_from n i = drop (i - first_index n) n.log

-- `truncateFrom`
abbrev pub truncate_from : Node → ℕ → Node
truncate_from n i = record n { log = take (i - first_index n) n.log }

-- `majority`
abbrev pub majority : Node → ℕ
majority n = (length n.peers + 1) / 2 + 1

-- `persistLocked`, of a node with a data directory; where the write fails the program panics.
unfoldable pub persist : Node → Node
persist n = record n {
  disk = record { current_term = n.current_term; voted_for = n.voted_for; log = n.log };
}

-- `becomeFollowerLocked`
unfoldable pub become_follower : Node → ℕ → Node
become_follower n term =
    if ltb n.current_term term
    then record n { state = follower; current_term = term; voted_for = [] }
    else record n { state = follower }

abbrev pub is_leader : State → Bool
is_leader leader = true
is_leader follower = false
is_leader candidate = false

abbrev pub is_candidate : State → Bool
is_candidate candidate = true
is_candidate leader = false
is_candidate follower = false

abbrev pub is_follower : State → Bool
is_follower follower = true
is_follower leader = false
is_follower candidate = false

-- `Propose`: the index and the term of the new entry, and whether the node is the leader.
unfoldable pub propose : Node → Bytes → Node × ℕ × ℕ × Bool
propose n command =
    if is_leader n.state
    then (let index = last_index n + 1 in
        let entry : LogEntry = record { index = index; term = n.current_term; command = command } in
        let n' = persist (record n { log = n.log ++ entry ∷ [] }) in
        (record n' { match_index = insert n'.match_index n.id index }, index, n.current_term, true))
    else (n, 0, n.current_term, false)
