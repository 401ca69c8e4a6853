-- ===== src/Raft/Election.antt =====
-- Elections, raft/election.go. The requests of one election go out at once; each answer is a step.
use distqueue.Base.{
  ℕ, ◌+◌, Bool, true, false, not, ◌&&◌, ◌||◌, List, [], ◌∷◌, ◌++◌, ltb, leb, ◌==◌, if◌then◌else◌,
  Bytes, bytes_discrete, ite,
}
use distqueue.Base.Maps.{insert}
use distqueue.Raft.{
  Node, LogEntry, leader, candidate, is_candidate, last_index, last_term, majority, persist,
  become_follower,
}

pub record RequestVoteArgs : Type 0 where
  pub term : ℕ
  pub candidate_id : Bytes
  pub last_log_index : ℕ
  pub last_log_term : ℕ

pub record RequestVoteReply : Type 0 where
  pub term : ℕ
  pub vote_granted : Bool

-- `startElectionLocked`: the node, and the request that goes to each peer
unfoldable pub start_election : Node → Node × RequestVoteArgs
start_election n =
    let n' =
      persist
        (record n { state = candidate; current_term = n.current_term + 1; voted_for = n.id }) in
    (
      record n' { elections_started = n'.elections_started + 1 },
      record {
        term = n'.current_term;
        candidate_id = n'.id;
        last_log_index = last_index n';
        last_log_term = last_term n';
      },
    )

-- The two maps that a new leader fills.
unfoldable pub reset_peers : Node → List Bytes → Node
reset_peers n [] = n
reset_peers n (p ∷ ps) =
    reset_peers
      (record n {
        next_index = insert n.next_index p (last_index n + 1);
        match_index = insert n.match_index p 0;
      })
      ps

-- `becomeLeaderLocked`
unfoldable pub become_leader : Node → Node
become_leader n =
    let fresh = reset_peers (record n { state = leader; leader_id = n.id }) n.peers in
    let noop : LogEntry = record {
      index = last_index fresh + 1;
      term = fresh.current_term;
      command = [];
    } in
    let grown = persist (record fresh { log = fresh.log ++ noop ∷ [] }) in
    record grown { match_index = insert grown.match_index grown.id (last_index grown) }

-- The answer to a vote request that was sent in `term`, when `votes` have come in: the node, and
-- the votes that it then has.
unfoldable pub vote_reply : Node → ℕ → ℕ → RequestVoteReply → Node × ℕ
vote_reply n term votes reply =
    if ltb n.current_term reply.term
    then (persist (become_follower n reply.term), votes)
    else if not (is_candidate n.state) || not (n.current_term == term)
    then (n, votes)
    else if reply.vote_granted
    then (if leb (majority n) (votes + 1) then become_leader n else n, votes + 1)
    else (n, votes)

-- The election restriction: the candidate's log is at least as far as this one.
abbrev pub up_to_date : Node → RequestVoteArgs → Bool
up_to_date n args =
    ltb (last_term n) args.last_log_term
    || (args.last_log_term == last_term n && leb (last_index n) args.last_log_index)

-- No vote in this term yet, or one for this candidate.
unfoldable pub may_vote : Node → Bytes → Bool
may_vote n id =
    ite (bytes_discrete n.voted_for []) true (ite (bytes_discrete n.voted_for id) true false)

-- `HandleRequestVote`
unfoldable pub handle_request_vote : Node → RequestVoteArgs → Node × RequestVoteReply
handle_request_vote n args =
    let n' = if ltb n.current_term args.term then persist (become_follower n args.term) else n in
    if ltb args.term n'.current_term
    then (n', record { term = n'.current_term; vote_granted = false })
    else if may_vote n' args.candidate_id && up_to_date n' args
    then (
      persist (record n' { voted_for = args.candidate_id }),
      record { term = n'.current_term; vote_granted = true },
    )
    else (n', record { term = n'.current_term; vote_granted = false })
