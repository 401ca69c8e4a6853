-- ===== src/Raft/Cluster.antt =====
-- A cluster of Raft nodes, as far as elections go: raft/ on every node, with the vote requests and
-- their answers between them.
pub mod Ballots
pub mod Elected
pub mod Moves
pub mod Counted
pub mod Leaders
use distqueue.Base.{
  ℕ, ◌+◌, ◌<◌, ◌≡◌, ◌≢◌, refl, Bool, true, false, ◌||◌, ◌⊎◌, List, [], ◌∷◌, ◌==◌, if◌then◌else◌,
  Bytes, bytes_discrete, ite, ite-intro, ite-intro₂, count, some, arith,
}
use distqueue.Raft.{Node, propose}
use distqueue.Raft.Election.{
  RequestVoteArgs, RequestVoteReply, start_election, vote_reply, handle_request_vote,
}
use distqueue.Raft.Replication.{
  AppendEntriesArgs, AppendEntriesReply, append_reply, handle_append_entries,
}
use distqueue.Raft.Installing.{
  InstallSnapshotArgs, snapshot, install_reply, handle_install_snapshot,
}
use distqueue.Raft.Lifecycle.{Applying, new_node}

abbrev pub same : Bytes → Bytes → Bool
same a b = ite (bytes_discrete a b) true false

-- The function that gives `v` at `i`, and elsewhere what `f` gives.
unfoldable pub update {ℓ} : {A : Type ℓ} → (Bytes → A) → Bytes → A → Bytes → A
update f i v j = ite (bytes_discrete i j) v (f j)

-- The variables that the goroutines of one election share: its term and the votes. `heard` says
-- whose votes these are; the goroutine of a peer adds at most one.
pub record Poll : Type 0 where
  pub term : ℕ
  pub votes : ℕ
  pub heard : Bytes → Bool

-- The answer of a voter to the request of a candidate in a term.
pub record Ballot : Type 0 where
  pub voter : Bytes
  pub candidate : Bytes
  pub term : ℕ
  pub reply : RequestVoteReply

-- `cast` keeps for whom a node has voted in each term; the source keeps the last one only.
pub record Cluster : Type 0 where
  pub nodes : Bytes → Node
  pub polls : Bytes → Poll
  pub ballots : List Ballot
  pub cast : Bytes → ℕ → Bytes

-- The votes of a node, once it is `n`.
unfoldable pub record_vote : (ℕ → Bytes) → Node → ℕ → Bytes
record_vote past n t = if t == n.current_term then n.voted_for else past t

-- The cluster once the node `i` is `n`.
unfoldable pub with_node : Cluster → Bytes → Node → Cluster
with_node c i n = record c {
  nodes = update c.nodes i n;
  cast = update c.cast i (record_vote (c.cast i) n);
}

unfoldable pub with_poll : Cluster → Bytes → Poll → Cluster
with_poll c i p = record c { polls = update c.polls i p }

-- The steps of a node that have nothing to do with votes; one is a crash and the start from the
-- files.
pub data Local : Node → Node → Type 0 where
  proposes : (n : Node) (command : Bytes) → Local n (propose n command).0
  hears_append :
      (n : Node) (term : ℕ) (args : AppendEntriesArgs) (peer : Bytes) (reply : AppendEntriesReply)
      → Local n (append_reply n term args peer reply)
  appends : (n : Node) (args : AppendEntriesArgs) → Local n (handle_append_entries n args).0
  cuts : (n : Node) (index : ℕ) (contents : Bytes) → Local n (snapshot n index contents)
  hears_install :
      (n : Node) (term : ℕ) (args : InstallSnapshotArgs) (peer : Bytes) (reply : ℕ)
      → Local n (install_reply n term args peer reply)
  installs : (n : Node) (args : InstallSnapshotArgs) → Local n (handle_install_snapshot n args).0
  feeds : (n n' : Node) → Applying n n' → Local n n'
  restarts :
      (n : Node) (file : Bytes)
      → Local n (new_node n.id n.peers (record { state_file = some n.disk; snapshot_file = file }))

-- A node's new election, with its own vote.
unfoldable pub campaign : Cluster → Bytes → Cluster
campaign c i =
    let n = (start_election (c.nodes i)).0 in
    with_poll (with_node c i n) i
      (record { term = n.current_term; votes = 1; heard = λ v. same v i })

-- A node answers a request.
unfoldable pub answer : Cluster → Bytes → RequestVoteArgs → Cluster
answer c j args =
    let r = handle_request_vote (c.nodes j) args in
    let ballot : Ballot = record {
      voter = j;
      candidate = args.candidate_id;
      term = args.term;
      reply = r.1;
    } in
    record (with_node c j r.0) { ballots = ballot ∷ c.ballots }

-- A candidate takes in an answer; `votes` is the count of the election that the answer belongs to.
unfoldable pub take_in : Cluster → Ballot → ℕ → Cluster
take_in c b votes =
    let i = b.candidate in
    let r = vote_reply (c.nodes i) b.term votes b.reply in
    let p = c.polls i in
    if r.1 == votes
    then with_node c i r.0
    else with_poll (with_node c i r.0) i
        (record { term = p.term; votes = r.1; heard = λ v. same v b.voter || p.heard v })

abbrev pub IsMember : List Bytes → Bytes → Type 0
IsMember ms i = 0 < count (λ v. same v i) ms

abbrev pub IsSent : List Ballot → Ballot → Type 0
IsSent [] b = ⊥
IsSent (x ∷ xs) b = (x ≡ b) ⊎ IsSent xs b

-- Any node takes any local step at any time, any member campaigns, and any node answers any vote
-- request. An answer that was sent is taken in late, or never, or by its own election, which counts
-- each voter once.
pub data Step (ms : List Bytes) : Cluster → Cluster → Type 0 where
  acts : (c : Cluster) (i : Bytes) (n : Node) → Local (c.nodes i) n → Step ms c (with_node c i n)
  campaigns : (c : Cluster) (i : Bytes) → IsMember ms i → i ≢ [] → Step ms c (campaign c i)
  answers :
      (c : Cluster) (j : Bytes) (args : RequestVoteArgs)
      → args.candidate_id ≢ []
      → Step ms c (answer c j args)
  takes_in :
      (c : Cluster) (b : Ballot) (votes : ℕ)
      → IsSent c.ballots b
      → IsMember ms b.voter
      → (b.term ≡ (c.polls b.candidate).term
          → (votes ≡ (c.polls b.candidate).votes) × ((c.polls b.candidate).heard b.voter ≡ false))
      → Step ms c (take_in c b votes)

pub data Run (ms : List Bytes) : Cluster → Cluster → Type 0 where
  start : (c : Cluster) → Run ms c c
  step : (b c d : Cluster) → Run ms b c → Step ms c d → Run ms b d

pub update-intro {ℓ} :
    {A : Type ℓ} (P : A → Type 0) (f : Bytes → A) (i : Bytes) (v : A) (j : Bytes)
    → (i ≡ j → P v)
    → (i ≢ j → P (f j))
    → P (update f i v j)
unfolding update
update-intro P f i v j here there = ite-intro P (bytes_discrete i j) here there

-- Two such functions at once.
pub update-intro₂ {ℓ κ} :
    {A : Type ℓ} {B : Type κ} (P : A → B → Type 0) (f : Bytes → A) (g : Bytes → B) (i : Bytes)
    (v : A) (w : B) (j : Bytes)
    → (i ≡ j → P v w)
    → P (f j) (g j)
    → P (update f i v j) (update g i w j)
unfolding update
update-intro₂ P f g i v w j here there = ite-intro₂ P (bytes_discrete i j) here (λ _. there)

pub same-lem : (a b : Bytes) → same a b ≡ true → a ≡ b
same-lem a b h = ground arith

pub same_refl : (a : Bytes) → same a a ≡ true
same_refl a = ground arith
