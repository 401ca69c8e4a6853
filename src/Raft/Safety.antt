-- ===== src/Raft/Safety.antt =====
-- The term, the vote and the state file of a node in each step of raft/.
use distqueue.Base.{
  ℕ, zero, suc, ◌+◌, ◌-◌, ◌≤◌, ◌≡◌, ◌≢◌, refl, sym, ◌∙◌, Bool, true, not, ◌&&◌, ◌||◌, List, [], ◌∷◌,
  arith, ltb, leb, ◌==◌, if◌then◌else◌, Bytes, if-intro, length,
}
use distqueue.Raft.{
  Node, LogEntry, persist, become_follower, propose, is_leader, is_candidate, is_follower,
  first_index, last_index, term_at, majority,
}
use distqueue.Raft.Election.{
  RequestVoteArgs, RequestVoteReply, start_election, reset_peers, become_leader, vote_reply,
  may_vote, up_to_date, handle_request_vote,
}
use distqueue.Raft.Replication.{
  AppendEntriesArgs, AppendEntriesReply, advance_loop, advance_commit, append_reply, append_each,
  accept, check_append, follow, handle_append_entries, replicas,
}
use distqueue.Raft.Installing.{
  InstallSnapshotArgs, snapshot, install_reply, handle_install_snapshot,
}

-- The state file is up to date.
abbrev pub IsSaved : Node → Type 0
IsSaved n = n.disk ≡ record { current_term = n.current_term; voted_for = n.voted_for; log = n.log }

pub record Keeps (n n' : Node) : Type 0 where
  pub grows : n.current_term ≤ n'.current_term
  pub one_vote : n'.current_term ≡ n.current_term → n.voted_for ≢ [] → n'.voted_for ≡ n.voted_for
  pub saved : IsSaved n → IsSaved n'

pub Keeps-refl : (n : Node) → Keeps n n
Keeps-refl n = record { grows = omega arith; one_vote = λ _ _. refl; saved = λ s. s }

pub Keeps-trans : (l m n : Node) → Keeps l m → Keeps m n → Keeps l n
Keeps-trans l m n a b = record {
  grows = omega (arith, a.grows, b.grows);
  one_vote = λ e v. ground (arith, a.grows, b.grows, a.one_vote, b.one_vote);
  saved = λ s. b.saved (a.saved s);
}

-- A step that leaves alone what the file holds.
pub same-Keeps :
    (n n' : Node)
    → n'.current_term ≡ n.current_term
    → n'.voted_for ≡ n.voted_for
    → n'.log ≡ n.log
    → n'.disk ≡ n.disk
    → Keeps n n'
same-Keeps n n' t v l d = record {
  grows = omega arith;
  one_vote = λ _ _. v;
  saved = λ s. d ∙ s ∙ λ i. record { current_term = sym t i; voted_for = sym v i; log = sym l i };
}

-- A step that saves the node.
persist-Keeps :
    (n n' : Node)
    → n.current_term ≤ n'.current_term
    → (n'.current_term ≡ n.current_term → n.voted_for ≢ [] → n'.voted_for ≡ n.voted_for)
    → Keeps n (persist n')
unfolding persist
persist-Keeps n n' g v = record { grows = g; one_vote = v; saved = λ _. refl }

pub become_follower-Keeps : (n : Node) (term : ℕ) → Keeps n (persist (become_follower n term))
unfolding become_follower
become_follower-Keeps n term =
    if-intro (λ x. Keeps n (persist x)) (ltb n.current_term term)
      (λ up. persist-Keeps n _ (ground arith) (λ e v. absurd (ground arith)))
      (λ _. persist-Keeps n _ (omega arith) (λ _ _. refl))

pub propose-Keeps : (n : Node) (command : Bytes) → Keeps n (propose n command).0
unfolding propose
propose-Keeps n command =
    if-intro (λ (r : Node × ℕ × ℕ × Bool). Keeps n r.0) (is_leader n.state)
      (λ _.
        Keeps-trans n _ _ (persist-Keeps n _ (omega arith) (λ _ _. refl))
          (same-Keeps _ _ refl refl refl refl))
      (λ _. Keeps-refl n)

pub start_election-Keeps : (n : Node) → Keeps n (start_election n).0
unfolding start_election
start_election-Keeps n =
    Keeps-trans n _ _ (persist-Keeps n _ (omega arith) (λ e v. absurd (omega arith)))
      (same-Keeps _ _ refl refl refl refl)

reset_peers-Keeps : (ps : List Bytes) (n : Node) → Keeps n (reset_peers n ps)
unfolding reset_peers
reset_peers-Keeps [] n = Keeps-refl n
reset_peers-Keeps (p ∷ ps) n =
    Keeps-trans n _ _ (same-Keeps n _ refl refl refl refl) (reset_peers-Keeps ps _)

pub become_leader-Keeps : (n : Node) → Keeps n (become_leader n)
unfolding become_leader
become_leader-Keeps n = Keeps-trans n _ _ (same-Keeps n _ refl refl refl refl) (
    Keeps-trans _ _ _ (reset_peers-Keeps n.peers _) (
      Keeps-trans _ _ _ (persist-Keeps _ _ (omega arith) (λ _ _. refl))
        (same-Keeps _ _ refl refl refl refl)))

pub vote_reply-Keeps :
    (n : Node) (term votes : ℕ) (reply : RequestVoteReply)
    → Keeps n (vote_reply n term votes reply).0
unfolding vote_reply
vote_reply-Keeps n term votes reply =
    if-intro (λ (r : Node × ℕ). Keeps n r.0) (ltb n.current_term reply.term)
      (λ _. become_follower-Keeps n reply.term)
      (λ _.
        if-intro (λ (r : Node × ℕ). Keeps n r.0)
          (not (is_candidate n.state) || not (n.current_term == term)) (λ _. Keeps-refl n)
          (λ _.
            if-intro (λ (r : Node × ℕ). Keeps n r.0) reply.vote_granted
              (λ _.
                if-intro (Keeps n) (leb (majority n) (votes + 1)) (λ _. become_leader-Keeps n)
                  (λ _. Keeps-refl n))
              (λ _. Keeps-refl n)))

-- Hearing of a later term.
heard-Keeps :
    (n : Node) (b : Bool) (term : ℕ) → Keeps n (if b then persist (become_follower n term) else n)
heard-Keeps n b term = if-intro (Keeps n) b (λ _. become_follower-Keeps n term) (λ _. Keeps-refl n)

-- A vote is given only where there is none, or one for the same candidate.
may_vote-same : (n : Node) (id : Bytes) → may_vote n id ≡ true → n.voted_for ≢ [] → id ≡ n.voted_for
unfolding may_vote
may_vote-same n id h v = ground arith

voted-Keeps :
    (n : Node) (args : RequestVoteArgs)
    → (may_vote n args.candidate_id && up_to_date n args) ≡ true
    → Keeps n (persist (record n { voted_for = args.candidate_id }))
voted-Keeps n args h =
    persist-Keeps n _ (omega arith) (λ e v. may_vote-same n args.candidate_id (ground arith) v)

pub handle_request_vote-Keeps :
    (n : Node) (args : RequestVoteArgs) → Keeps n (handle_request_vote n args).0
unfolding handle_request_vote
handle_request_vote-Keeps n args =
    let n' = if ltb n.current_term args.term then persist (become_follower n args.term) else n in
    let heard = heard-Keeps n (ltb n.current_term args.term) args.term in
    if-intro (λ (r : Node × RequestVoteReply). Keeps n r.0) (ltb args.term n'.current_term)
      (λ _. heard)
      (λ _.
        if-intro (λ (r : Node × RequestVoteReply). Keeps n r.0)
          (may_vote n' args.candidate_id && up_to_date n' args)
          (λ h. Keeps-trans n n' _ heard (voted-Keeps n' args h)) (λ _. heard))

advance_loop-Keeps : (n : Node) (i : ℕ) → Keeps n (advance_loop n i)
unfolding advance_loop
advance_loop-Keeps n zero = Keeps-refl n
advance_loop-Keeps n (suc i) =
    if-intro (Keeps n) (not (ltb n.commit_index (suc i) && ltb (first_index n) (suc i)))
      (λ _. Keeps-refl n)
      (λ _.
        if-intro (Keeps n) (not (term_at n (suc i) == n.current_term)) (λ _. Keeps-refl n)
          (λ _.
            if-intro (Keeps n) (leb (majority n) (replicas n (suc i)))
              (λ _. same-Keeps n _ refl refl refl refl) (λ _. advance_loop-Keeps n i)))

pub append_reply-Keeps :
    (n : Node) (term : ℕ) (args : AppendEntriesArgs) (peer : Bytes) (reply : AppendEntriesReply)
    → Keeps n (append_reply n term args peer reply)
unfolding append_reply advance_commit
append_reply-Keeps n term args peer reply =
    if-intro (Keeps n) (ltb n.current_term reply.term) (λ _. become_follower-Keeps n reply.term)
      (λ _.
        if-intro (Keeps n) (not (is_leader n.state) || not (n.current_term == term))
          (λ _. Keeps-refl n)
          (λ _.
            if-intro (Keeps n) reply.success
              (λ _.
                Keeps-trans n _ _ (same-Keeps n _ refl refl refl refl)
                  (advance_loop-Keeps _ (last_index n)))
              (λ _. same-Keeps n _ refl refl refl refl)))

-- Appending saves the node whenever it changes the log.
append_each-Keeps :
    (n : Node) (es : List LogEntry)
    → Keeps n (let r = append_each n es in if r.1 then persist r.0 else r.0)
unfolding append_each
append_each-Keeps n [] = Keeps-refl n
append_each-Keeps n (e ∷ es) =
    if-intro (λ (r : Node × Bool). Keeps n (if r.1 then persist r.0 else r.0))
      (leb e.index (last_index n))
      (λ _.
        if-intro (λ (r : Node × Bool). Keeps n (if r.1 then persist r.0 else r.0))
          (term_at n e.index == e.term) (λ _. append_each-Keeps n es)
          (λ _. persist-Keeps n _ (omega arith) (λ _ _. refl)))
      (λ _. persist-Keeps n _ (omega arith) (λ _ _. refl))

accept-Keeps : (n : Node) (prev : ℕ) (es : List LogEntry) (c : ℕ) → Keeps n (accept n prev es c)
unfolding accept
accept-Keeps n prev es c =
    let r = append_each n es in
    let saved = if r.1 then persist r.0 else r.0 in
    if-intro (Keeps n) (ltb saved.commit_index c)
      (λ _. Keeps-trans n saved _ (append_each-Keeps n es) (same-Keeps saved _ refl refl refl refl))
      (λ _. append_each-Keeps n es)

check_append-Keeps :
    (n : Node) (prev term : ℕ) (es : List LogEntry) (c : ℕ)
    → Keeps n (check_append n prev term es c).0
unfolding check_append
check_append-Keeps n prev term es c =
    if-intro (λ (r : Node × AppendEntriesReply). Keeps n r.0) (ltb (last_index n) prev)
      (λ _. Keeps-refl n)
      (λ _.
        if-intro (λ (r : Node × AppendEntriesReply). Keeps n r.0) (not (term_at n prev == term))
          (λ _. Keeps-refl n) (λ _. accept-Keeps n prev es c))

follow-Keeps : (n : Node) (term : ℕ) (id : Bytes) → Keeps n (follow n term id)
unfolding follow
follow-Keeps n term id =
    let b = ltb n.current_term term || not (is_follower n.state) in
    Keeps-trans n (if b then persist (become_follower n term) else n) _ (heard-Keeps n b term)
      (same-Keeps _ _ refl refl refl refl)

pub handle_append_entries-Keeps :
    (n : Node) (args : AppendEntriesArgs) → Keeps n (handle_append_entries n args).0
unfolding handle_append_entries
handle_append_entries-Keeps n args =
    let n' = follow n args.term args.leader_id in
    let heard = follow-Keeps n args.term args.leader_id in
    let first = first_index n' in
    if-intro (λ (r : Node × AppendEntriesReply). Keeps n r.0) (ltb args.term n.current_term)
      (λ _. Keeps-refl n)
      (λ _.
        if-intro (λ (r : Node × AppendEntriesReply). Keeps n r.0) (ltb args.prev_log_index first)
          (λ _.
            if-intro (λ (r : Node × AppendEntriesReply). Keeps n r.0)
              (ltb (length args.entries) (first - args.prev_log_index)) (λ _. heard)
              (λ _. Keeps-trans n n' _ heard (check_append-Keeps n' _ _ _ _)))
          (λ _. Keeps-trans n n' _ heard (check_append-Keeps n' _ _ _ _)))

pub snapshot-Keeps : (n : Node) (index : ℕ) (contents : Bytes) → Keeps n (snapshot n index contents)
unfolding snapshot
snapshot-Keeps n index contents =
    if-intro (Keeps n) (leb index (first_index n) || ltb n.last_applied index) (λ _. Keeps-refl n)
      (λ _. persist-Keeps n _ (omega arith) (λ _ _. refl))

pub install_reply-Keeps :
    (n : Node) (term : ℕ) (args : InstallSnapshotArgs) (peer : Bytes) (reply : ℕ)
    → Keeps n (install_reply n term args peer reply)
unfolding install_reply
install_reply-Keeps n term args peer reply =
    if-intro (Keeps n) (ltb n.current_term reply) (λ _. become_follower-Keeps n reply)
      (λ _.
        if-intro (Keeps n) (not (is_leader n.state) || not (n.current_term == term))
          (λ _. Keeps-refl n) (λ _. same-Keeps n _ refl refl refl refl))

pub handle_install_snapshot-Keeps :
    (n : Node) (args : InstallSnapshotArgs) → Keeps n (handle_install_snapshot n args).0
unfolding handle_install_snapshot
handle_install_snapshot-Keeps n args =
    let n' = follow n args.term args.leader_id in
    let heard = follow-Keeps n args.term args.leader_id in
    if-intro (λ (r : Node × ℕ). Keeps n r.0) (ltb args.term n.current_term) (λ _. Keeps-refl n)
      (λ _.
        if-intro (λ (r : Node × ℕ). Keeps n r.0) (leb args.last_included_index n'.commit_index)
          (λ _. heard)
          (λ _. Keeps-trans n n' _ heard (
            Keeps-trans n' _ _ (persist-Keeps n' _ (omega arith) (λ _ _. refl))
              (same-Keeps _ _ refl refl refl refl))))
