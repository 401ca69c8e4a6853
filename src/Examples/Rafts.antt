-- ===== src/Examples/Rafts.antt =====
-- The theorems on Raft at a node with two peers.
use distqueue.Base.{
  some, ◌≡◌, refl, true, none, [], ◌∷◌, arith, codes, All, bytes_discrete, ℕ_discrete,
}
use distqueue.Raft.{Node, follower, leader, LogEntry, persist, become_follower}
use distqueue.Raft.Election.{RequestVoteArgs, start_election, handle_request_vote, may_vote}
use distqueue.Raft.Replication.{
  AppendEntriesArgs, handle_append_entries, check_append, follow, accept, append_each,
}
use distqueue.Raft.Safety.{Keeps}
use distqueue.Raft.Runs.{start, step, campaigns, answers, Run-Keeps, Restores, Run-Restores}
use distqueue.Raft.Lifecycle.{new_node}
use distqueue.Raft.Commit.{Grants, handle_request_vote-Grants}
use distqueue.Raft.Indices.{IsLog}
use distqueue.Raft.Matching.{Has, handle_append_entries-Has}

abbrev boundary : LogEntry
boundary = record { index = 0; term = 0; command = [] }

abbrev first_entry : LogEntry
first_entry = record { index = 1; term = 2; command = codes "x" }

abbrev second_entry : LogEntry
second_entry = record { index = 2; term = 2; command = codes "y" }

abbrev node : Node
node = record {
  id = codes "a";
  peers = codes "b" ∷ codes "c" ∷ [];
  state = follower;
  current_term = 2;
  voted_for = [];
  log = boundary ∷ first_entry ∷ [];
  commit_index = 0;
  last_applied = 0;
  next_index = [];
  match_index = [];
  leader_id = [];
  snapshot = none;
  pending_snapshot = none;
  elections_started = 0;
  disk = record { current_term = 2; voted_for = []; log = boundary ∷ first_entry ∷ [] };
}

abbrev vote_request : RequestVoteArgs
vote_request = record { term = 5; candidate_id = codes "b"; last_log_index = 1; last_log_term = 2 }

abbrev entries_request : AppendEntriesArgs
entries_request = record {
  term = 2;
  leader_id = codes "b";
  prev_log_index = 1;
  prev_log_term = 2;
  entries = second_entry ∷ [];
  leader_commit = 1;
}

-- The node campaigns, and then votes for another candidate of a later term.
abbrev campaigned : Node
campaigned = (start_election node).0

Run-Keeps_example : Keeps node (handle_request_vote campaigned vote_request).0
Run-Keeps_example = Run-Keeps node (handle_request_vote campaigned vote_request).0 (
    step node campaigned (handle_request_vote campaigned vote_request).0 (campaigns node)
      (step campaigned _ _ (answers campaigned vote_request) (start _)))

-- A leader whose entry one peer has.
abbrev leading : Node
leading = record node {
  state = leader;
  match_index = (codes "a", 1) ∷ (codes "b", 1) ∷ (codes "c", 0) ∷ [];
}

granted : (handle_request_vote node vote_request).1.vote_granted ≡ true
unfolding handle_request_vote persist become_follower may_vote bytes_discrete ℕ_discrete
granted = refl

handle_request_vote-Grants_example :
    Grants node vote_request (handle_request_vote node vote_request).0
handle_request_vote-Grants_example = handle_request_vote-Grants node vote_request granted

node-IsLog : IsLog node.log
node-IsLog = (omega arith, (refl, (refl, tt)))

accepted : (handle_append_entries node entries_request).1.success ≡ true
unfolding handle_append_entries check_append follow
accepted = refl

handle_append_entries-Has_example :
    All (Has 0 (handle_append_entries node entries_request).0.log) (second_entry ∷ [])
handle_append_entries-Has_example =
    handle_append_entries-Has node entries_request node-IsLog (refl, tt) accepted

Run-Restores_example : Restores campaigned (
    new_node campaigned.id campaigned.peers
      (record { state_file = some campaigned.disk; snapshot_file = [] }))
Run-Restores_example =
    Run-Restores node campaigned [] (step node campaigned _ (campaigns node) (start _)) refl

-- A follower with both entries committed, and an old request without entries.
abbrev ahead : Node
ahead = record node { log = boundary ∷ first_entry ∷ second_entry ∷ []; commit_index = 2 }

abbrev old_request : AppendEntriesArgs
old_request = record {
  term = 2;
  leader_id = codes "b";
  prev_log_index = 1;
  prev_log_term = 2;
  entries = [];
  leader_commit = 5;
}

test_commit_falls : (handle_append_entries ahead old_request).0.commit_index ≡ 1
unfolding handle_append_entries check_append follow accept append_each
test_commit_falls = refl
