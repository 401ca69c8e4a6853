-- ===== src/Raft/Consensus.antt =====
-- A cluster of Raft nodes that keep their whole logs, as one that runs with `SnapshotThreshold` 0:
-- raft/ on every node, with the requests and the answers between them.
pub mod Logs
pub mod Appending
pub mod Handling
pub mod Checked
pub mod Histories
pub mod Matched
pub mod Quiet
pub mod Grown
pub mod Winning
pub mod Sent
pub mod Matching
pub mod Matches
pub mod Facts
pub mod Completeness
pub mod Onward
pub mod Frame
pub mod Votes
pub mod Backing
pub mod Counting
pub mod Calm
pub mod Voting
pub mod Running
pub mod Hearing
pub mod Sharing
pub mod Copying
pub mod Taking
pub mod Leading
pub mod Reigning
pub mod Proposing
pub mod Fresh
pub mod Crowning
pub mod Winners
pub mod Agreement
pub mod Committed
pub mod Applied
use distqueue.Base.{
  ℕ, ◌+◌, ◌-◌, ◌≡◌, ◌≢◌, ◌⊎◌, Bool, true, false, not, ◌&&◌, List, [], ◌∷◌, ◌==◌, if◌then◌else◌,
  Bytes, length, max, some, none,
}
use distqueue.Raft.{Node, LogEntry, no_entry, is_leader, last_index, propose}
use distqueue.Raft.Election.{RequestVoteArgs, start_election}
use distqueue.Raft.Replication.{
  AppendEntriesArgs, AppendEntriesReply, append_reply, handle_append_entries,
}
use distqueue.Raft.Installing.{append, send_append_entries}
use distqueue.Raft.Lifecycle.{Applying, new_node}
use distqueue.Raft.Cluster.{
  Cluster, Ballot, IsSent, IsMember, update, with_node, campaign, answer, take_in, same,
}
use distqueue.Raft.Cluster.Leaders.{new_cluster}

-- The answer of a follower to a request of a leader.
pub record Answer : Type 0 where
  pub peer : Bytes
  pub args : AppendEntriesArgs
  pub reply : AppendEntriesReply

-- What has happened, which no node knows as a whole. For each term: the log of its leader, how long
-- it was at the election, and who that is. For each node and term: the last index and the last term
-- of its log when it ran, and up to which index its log has been the one of the leader.
pub record History : Type 0 where
  pub log_of : ℕ → List LogEntry
  pub start_of : ℕ → ℕ
  pub leader_of : ℕ → Bytes
  pub backers : ℕ → Bytes → Bool
  pub ran : Bytes → ℕ → ℕ × ℕ
  pub shared : Bytes → ℕ → ℕ

-- `asks`, `requests` and `answers` are what has been sent so far.
pub record System : Type 0 where
  pub cluster : Cluster
  pub asks : List RequestVoteArgs
  pub requests : List AppendEntriesArgs
  pub answers : List Answer
  pub past : History

unfoldable pub at_term {ℓ} : {A : Type ℓ} → (ℕ → A) → ℕ → A → ℕ → A
at_term f t v u = if t == u then v else f u

-- The history once `i` has the index `k` of the log of the leader of `t`.
unfoldable pub share : History → Bytes → ℕ → ℕ → History
share h i t k = record h {
  shared = update h.shared i (at_term (h.shared i) t (max (h.shared i t) k));
}

-- The history once the leader `i` is `n`.
unfoldable pub extend : History → Bytes → Node → History
extend h i n =
    if is_leader n.state
    then share (record h { log_of = at_term h.log_of n.current_term n.log }) i n.current_term
        (length n.log - 1)
    else h

-- The history once `i`, which was `n`, is `n'`, and the votes are as in `cast`.
unfoldable pub crown : History → (Bytes → ℕ → Bytes) → Bytes → Node → Node → History
crown h cast i n n' =
    if is_leader n'.state && not (is_leader n.state)
    then extend
        (record h {
          start_of = at_term h.start_of n'.current_term (length n.log);
          leader_of = at_term h.leader_of n'.current_term i;
          backers = at_term h.backers n'.current_term (λ v. same (cast v n'.current_term) i);
        })
        i n'
    else h

abbrev pub IsIn : {A : Type 0} → List A → A → Type 0
IsIn [] x = ⊥
IsIn (y ∷ ys) x = (y ≡ x) ⊎ IsIn ys x

-- `i` starts an election and asks for votes.
unfoldable pub campaigned : System → Bytes → System
campaigned s i =
    let args = (start_election (s.cluster.nodes i)).1 in
    record s {
      cluster = campaign s.cluster i;
      asks = args ∷ s.asks;
      past = record s.past {
        ran =
            update s.past.ran i
              (at_term (s.past.ran i) args.term (args.last_log_index, args.last_log_term));
      };
    }

unfoldable pub answered : System → Bytes → RequestVoteArgs → System
answered s j args = record s { cluster = answer s.cluster j args }

unfoldable pub taken_in : System → Ballot → ℕ → System
taken_in s b votes =
    let i = b.candidate in
    let c = take_in s.cluster b votes in
    record s { cluster = c; past = crown s.past c.cast i (s.cluster.nodes i) (c.nodes i) }

unfoldable pub proposed : System → Bytes → Bytes → System
proposed s i command =
    let n = (propose (s.cluster.nodes i) command).0 in
    record s { cluster = with_node s.cluster i n; past = extend s.past i n }

-- `i` handles a request of a leader and answers it.
unfoldable pub appended : System → Bytes → AppendEntriesArgs → System
appended s i args =
    let r = handle_append_entries (s.cluster.nodes i) args in
    record s {
      cluster = with_node s.cluster i r.0;
      answers = record { peer = i; args = args; reply = r.1 } ∷ s.answers;
      past =
          if r.1.success
          then share s.past i args.term (args.prev_log_index + length args.entries)
          else s.past;
    }

unfoldable pub heard : System → Bytes → Answer → System
heard s i a = record s {
  cluster =
      with_node s.cluster i (append_reply (s.cluster.nodes i) a.args.term a.args a.peer a.reply);
}

-- `i` crashes and starts from its state file.
unfoldable pub restarted : System → Bytes → System
restarted s i =
    let n = s.cluster.nodes i in
    record s {
      cluster =
          with_node s.cluster i
            (new_node n.id n.peers (record { state_file = some n.disk; snapshot_file = [] }));
    }

-- Members campaign and nodes take in votes as in a cluster. A request that was sent arrives at any
-- node, at any time and any number of times, or never; and so do the answers of a peer.
pub data Move (ms : List Bytes) : System → System → Type 0 where
  campaigns : (s : System) (i : Bytes) → IsMember ms i → i ≢ [] → Move ms s (campaigned s i)
  answers :
      (s : System) (j : Bytes) (args : RequestVoteArgs)
      → IsIn s.asks args
      → Move ms s (answered s j args)
  takes_in :
      (s : System) (b : Ballot) (votes : ℕ)
      → IsSent s.cluster.ballots b
      → IsMember ms b.voter
      → (b.term ≡ (s.cluster.polls b.candidate).term
          → (votes ≡ (s.cluster.polls b.candidate).votes)
            × ((s.cluster.polls b.candidate).heard b.voter ≡ false))
      → Move ms s (taken_in s b votes)
  proposes : (s : System) (i command : Bytes) → Move ms s (proposed s i command)
  sends :
      (s : System) (i peer : Bytes) (args : AppendEntriesArgs)
      → send_append_entries (s.cluster.nodes i) peer ≡ append args
      → Move ms s (record s { requests = args ∷ s.requests })
  appends :
      (s : System) (i : Bytes) (args : AppendEntriesArgs)
      → IsIn s.requests args
      → Move ms s (appended s i args)
  hears :
      (s : System) (i : Bytes) (a : Answer)
      → IsIn s.answers a
      → IsMember (s.cluster.nodes i).peers a.peer
      → Move ms s (heard s i a)
  feeds :
      (s : System) (i : Bytes) (n : Node)
      → Applying (s.cluster.nodes i) n
      → Move ms s (record s { cluster = with_node s.cluster i n })
  restarts : (s : System) (i : Bytes) → Move ms s (restarted s i)

pub data Course (ms : List Bytes) : System → System → Type 0 where
  start : (s : System) → Course ms s s
  move : (r s t : System) → Course ms r s → Move ms s t → Course ms r t

-- The log that every new node has belongs to the term 0, which no node leads.
unfoldable pub no_past : History
no_past = record {
  log_of = λ t. if t == 0 then no_entry ∷ [] else [];
  start_of = λ _. 0;
  leader_of = λ _. [];
  backers = λ _ _. false;
  ran = λ _ _. (0, 0);
  shared = λ _ _. 0;
}

unfoldable pub new_system : (Bytes → List Bytes) → System
new_system peers = record {
  cluster = new_cluster peers;
  asks = [];
  requests = [];
  answers = [];
  past = no_past;
}
