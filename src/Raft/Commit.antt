-- ===== src/Raft/Commit.antt =====
-- How a leader moves its commit index, and when a vote is given.
use distqueue.Base.{
  ℕ, zero, suc, ◌≤◌, ◌<◌, ◌≡◌, ◌⊎◌, inl, inr, refl, subst, ap, true, false, not, ◌&&◌, [], arith,
  ltb, leb, ◌==◌, if◌then◌else◌, Bytes, if-intro, bytes_discrete,
}
use distqueue.Raft.{
  Node, first_index, last_index, last_term, term_at, last_entry, majority, persist, become_follower,
}
use distqueue.Raft.Election.{
  RequestVoteArgs, RequestVoteReply, handle_request_vote, may_vote, up_to_date,
}
use distqueue.Raft.Replication.{advance_loop, advance_commit, replicas}

-- The commit index moves up to an entry of the current term that a majority has.
pub record Commits (n : Node) (i : ℕ) (n' : Node) : Type 0 where
  pub higher : n.commit_index < n'.commit_index
  pub held : n'.commit_index ≤ i
  pub behind : first_index n < n'.commit_index
  pub own_term : term_at n n'.commit_index ≡ n.current_term
  pub quorum : majority n ≤ replicas n n'.commit_index
  pub only : n' ≡ record n { commit_index = n'.commit_index }

weaker : (n n' : Node) (i : ℕ) → (n' ≡ n) ⊎ Commits n i n' → (n' ≡ n) ⊎ Commits n (suc i) n'
weaker n n' i (inl e) = inl e
weaker n n' i (inr c) = inr (record {
  higher = c.higher;
  held = omega (arith, c.held);
  behind = c.behind;
  own_term = c.own_term;
  quorum = c.quorum;
  only = c.only;
})

advance_loop-Commits : (n : Node) (i : ℕ) → (advance_loop n i ≡ n) ⊎ Commits n i (advance_loop n i)
unfolding advance_loop
advance_loop-Commits n zero = inl refl
advance_loop-Commits n (suc i) =
    if-intro (λ n'. (n' ≡ n) ⊎ Commits n (suc i) n')
      (not (ltb n.commit_index (suc i) && ltb (first_index n) (suc i))) (λ _. inl refl)
      (λ above.
        if-intro (λ n'. (n' ≡ n) ⊎ Commits n (suc i) n') (not (term_at n (suc i) == n.current_term))
          (λ _. inl refl)
          (λ own.
            if-intro (λ n'. (n' ≡ n) ⊎ Commits n (suc i) n') (leb (majority n) (replicas n (suc i)))
              (λ most. inr (record {
                higher = ground arith;
                held = omega arith;
                behind = ground arith;
                own_term = ground arith;
                quorum = ground arith;
                only = refl;
              }))
              (λ _. weaker n (advance_loop n i) i (advance_loop-Commits n i))))

-- `advanceCommitLocked` leaves the node as it is, or moves just the commit index, up to an index of
-- the log behind the boundary, whose entry is of the current term and which a majority is known to
-- have.
pub advance_commit-Commits :
    (n : Node) → (advance_commit n ≡ n) ⊎ Commits n (last_index n) (advance_commit n)
unfolding advance_commit
advance_commit-Commits n = advance_loop-Commits n (last_index n)

-- What a vote given to a candidate means.
pub record Grants (n : Node) (args : RequestVoteArgs) (n' : Node) : Type 0 where
  pub vote : n'.voted_for ≡ args.candidate_id
  pub term : n'.current_term ≡ args.term
  pub file : (n'.disk.voted_for ≡ args.candidate_id) × (n'.disk.current_term ≡ args.term)
  pub free : (n.current_term < args.term) ⊎ ((n.voted_for ≡ []) ⊎ (n.voted_for ≡ args.candidate_id))
  pub far :
      (last_term n < args.last_log_term)
      ⊎ ((last_term n ≡ args.last_log_term) × (last_index n ≤ args.last_log_index))
  pub log : n'.log ≡ n.log

may_vote-cases :
    (n : Node) (id : Bytes) → may_vote n id ≡ true → (n.voted_for ≡ []) ⊎ (n.voted_for ≡ id)
unfolding may_vote
may_vote-cases n id h = elim (bytes_discrete n.voted_for []) [
  | yes e ↦ inl e
  | no ne ↦ inr (ground arith)
]

-- The node `n'` that `n` becomes when it hears of the term.
abbrev Heard : Node → ℕ → Node → Type 0
Heard n term n' =
    ((n.current_term < term) × (n'.current_term ≡ term) × (n'.log ≡ n.log))
    ⊎ ((term ≤ n.current_term) × (n' ≡ n))

become_follower-Heard :
    (n : Node) (term : ℕ)
    → Heard n term (if ltb n.current_term term then persist (become_follower n term) else n)
unfolding persist become_follower
become_follower-Heard n term =
    if-intro (Heard n term) (ltb n.current_term term)
      (λ later. inl (
        ground arith,
        if-intro (λ (x : Node). x.current_term ≡ term) (ltb n.current_term term) (λ _. refl)
            (λ h. absurd (cc)),
        if-intro (λ (x : Node). x.log ≡ n.log) (ltb n.current_term term) (λ _. refl) (λ _. refl),
      ))
      (λ not_later. inr (ground arith, refl))

le_of_ltb : (a b : ℕ) → ltb a b ≡ false → b ≤ a
le_of_ltb a b h = ground arith

far_lem :
    (n : Node) (args : RequestVoteArgs)
    → up_to_date n args ≡ true
    → (last_term n < args.last_log_term)
      ⊎ ((last_term n ≡ args.last_log_term) × (last_index n ≤ args.last_log_index))
far_lem n args h = ground arith

far_of :
    (n n' : Node) (args : RequestVoteArgs)
    → n'.log ≡ n.log
    → up_to_date n' args ≡ true
    → (last_term n < args.last_log_term)
      ⊎ ((last_term n ≡ args.last_log_term) × (last_index n ≤ args.last_log_index))
far_of n n' args same h =
    subst
      (λ log.
        ((last_entry log).term < args.last_log_term)
        ⊎ (((last_entry log).term ≡ args.last_log_term)
            × ((last_entry log).index ≤ args.last_log_index)))
      same (far_lem n' args h)

voted-Grants :
    (n n' : Node) (args : RequestVoteArgs)
    → Heard n args.term n'
    → ltb args.term n'.current_term ≡ false
    → (may_vote n' args.candidate_id && up_to_date n' args) ≡ true
    → Grants n args (persist (record n' { voted_for = args.candidate_id }))
unfolding persist
voted-Grants n n' args (inl (later, term, log)) in_time h = record {
  vote = refl;
  term = term;
  file = (refl, term);
  free = inl later;
  far = far_of n n' args log (ground arith);
  log = log;
}
voted-Grants n n' args (inr (not_later, same)) in_time h =
    let term : n'.current_term ≡ args.term = omega (
      arith,
      ap (λ (x : Node). x.current_term) same,
      le_of_ltb args.term n'.current_term in_time,
    ) in
    record {
      vote = refl;
      term = term;
      file = (refl, term);
      free = inr (
          subst (λ (x : Node). (x.voted_for ≡ []) ⊎ (x.voted_for ≡ args.candidate_id)) same
            (may_vote-cases n' args.candidate_id (ground arith)));
      far = far_of n n' args (ap (λ (x : Node). x.log) same) (ground arith);
      log = ap (λ (x : Node). x.log) same;
    }

-- If `HandleRequestVote` grants a vote, the node and its state file have the vote for the candidate
-- and the term of the request; the node was in an earlier term, or had not voted for another; the
-- last entry of the log of the candidate is of a later term, or of the same term and not behind;
-- and the log is as before.
pub handle_request_vote-Grants :
    (n : Node) (args : RequestVoteArgs)
    → (handle_request_vote n args).1.vote_granted ≡ true
    → Grants n args (handle_request_vote n args).0
unfolding handle_request_vote
handle_request_vote-Grants n args =
    let n' = if ltb n.current_term args.term then persist (become_follower n args.term) else n in
    if-intro (λ (r : Node × RequestVoteReply). r.1.vote_granted ≡ true → Grants n args r.0)
      (ltb args.term n'.current_term) (λ _ g. absurd (cc))
      (λ in_time.
        if-intro (λ (r : Node × RequestVoteReply). r.1.vote_granted ≡ true → Grants n args r.0)
          (may_vote n' args.candidate_id && up_to_date n' args)
          (λ h g. voted-Grants n n' args (become_follower-Heard n args.term) in_time h)
          (λ _ g. absurd (cc)))
