-- ===== src/Raft/Runs.antt =====
-- Runs of a node: every step that a timer, a client, a peer or the state machine can make it take.
use distqueue.Base.{◌≡◌, refl, some, ap, true, ltb, length, if-intro, ℕ, Bytes}
use distqueue.Raft.{Node, PersistentState, propose, is_follower, first_index}
use distqueue.Raft.Election.{
  RequestVoteArgs, RequestVoteReply, start_election, vote_reply, handle_request_vote,
}
use distqueue.Raft.Replication.{
  AppendEntriesArgs, AppendEntriesReply, append_reply, handle_append_entries,
}
use distqueue.Raft.Installing.{
  InstallSnapshotArgs, snapshot, install_reply, handle_install_snapshot,
}
use distqueue.Raft.Applying.{Applying-IsFed, IsFed-Keeps}
use distqueue.Raft.Lifecycle.{Applying, blank, new_node, read_persist}
use distqueue.Raft.Safety.{
  IsSaved, Keeps, Keeps-refl, Keeps-trans, propose-Keeps, start_election-Keeps, vote_reply-Keeps,
  handle_request_vote-Keeps, append_reply-Keeps, handle_append_entries-Keeps, snapshot-Keeps,
  install_reply-Keeps, handle_install_snapshot-Keeps,
}

-- Any message may come at any time, also a stale, a repeated or a made-up one.
pub data Step : Node → Node → Type 0 where
  proposes : (n : Node) (command : Bytes) → Step n (propose n command).0
  campaigns : (n : Node) → Step n (start_election n).0
  hears_vote :
      (n : Node) (term votes : ℕ) (reply : RequestVoteReply)
      → Step n (vote_reply n term votes reply).0
  answers : (n : Node) (args : RequestVoteArgs) → Step n (handle_request_vote n args).0
  hears_append :
      (n : Node) (term : ℕ) (args : AppendEntriesArgs) (peer : Bytes) (reply : AppendEntriesReply)
      → Step n (append_reply n term args peer reply)
  appends : (n : Node) (args : AppendEntriesArgs) → Step n (handle_append_entries n args).0
  cuts : (n : Node) (index : ℕ) (contents : Bytes) → Step n (snapshot n index contents)
  hears_install :
      (n : Node) (term : ℕ) (args : InstallSnapshotArgs) (peer : Bytes) (reply : ℕ)
      → Step n (install_reply n term args peer reply)
  installs : (n : Node) (args : InstallSnapshotArgs) → Step n (handle_install_snapshot n args).0
  feeds : (n n' : Node) → Applying n n' → Step n n'

pub data Run : Node → Node → Type 0 where
  start : (n : Node) → Run n n
  step : (l m n : Node) → Step l m → Run m n → Run l n

Step-Keeps : (m n : Node) → Step m n → Keeps m n
Step-Keeps m _ (proposes _ command) = propose-Keeps m command
Step-Keeps m _ (campaigns _) = start_election-Keeps m
Step-Keeps m _ (hears_vote _ term votes reply) = vote_reply-Keeps m term votes reply
Step-Keeps m _ (answers _ args) = handle_request_vote-Keeps m args
Step-Keeps m _ (hears_append _ term args peer reply) = append_reply-Keeps m term args peer reply
Step-Keeps m _ (appends _ args) = handle_append_entries-Keeps m args
Step-Keeps m _ (cuts _ index contents) = snapshot-Keeps m index contents
Step-Keeps m _ (hears_install _ term args peer reply) = install_reply-Keeps m term args peer reply
Step-Keeps m _ (installs _ args) = handle_install_snapshot-Keeps m args
Step-Keeps m _ (feeds _ n a) = IsFed-Keeps m n (Applying-IsFed m n a)

-- Over any run of a Raft node, with any messages in any order: its term does not fall; if the term
-- is the same at the end and the node had voted in it, the vote is the same; and if the state file
-- held its term, vote and log at the start, so it does at the end.
pub Run-Keeps : (m n : Node) → Run m n → Keeps m n
Run-Keeps m _ (start _) = Keeps-refl m
Run-Keeps m n (step _ l _ s r) = Keeps-trans m l n (Step-Keeps m l s) (Run-Keeps l n r)

-- What a restart brings back.
pub record Restores (n r : Node) : Type 0 where
  pub term : r.current_term ≡ n.current_term
  pub vote : r.voted_for ≡ n.voted_for
  pub entries : r.log ≡ n.log
  pub saved : IsSaved r
  pub follows : is_follower r.state ≡ true

pub loaded-Restores :
    (n : Node) (contents : Bytes)
    → IsSaved n
    → Restores n
        (new_node n.id n.peers (record { state_file = some n.disk; snapshot_file = contents }))
unfolding new_node read_persist blank
loaded-Restores n contents s =
    let term = ap (λ (d : PersistentState). d.current_term) s in
    let vote = ap (λ (d : PersistentState). d.voted_for) s in
    let entries = ap (λ (d : PersistentState). d.log) s in
    if-intro
      (λ (x : Node).
        Restores n (record x { commit_index = first_index x; last_applied = first_index x }))
      (ltb 0 (length contents))
      (λ _. record { term = term; vote = vote; entries = entries; saved = refl; follows = refl })
      (λ _. record { term = term; vote = vote; entries = entries; saved = refl; follows = refl })

-- After any run from a node whose state file held its term, vote and log, the node that `NewNode`
-- makes of the state file, and of any snapshot file, is a follower with the term, vote and log that
-- the node had at the end of the run, and its state file holds them.
pub Run-Restores :
    (m n : Node) (contents : Bytes)
    → Run m n
    → IsSaved m
    → Restores n
        (new_node n.id n.peers (record { state_file = some n.disk; snapshot_file = contents }))
Run-Restores m n contents r s = loaded-Restores n contents ((Run-Keeps m n r).saved s)
