-- ===== src/Raft/Consensus/Votes.antt =====
-- When nodes vote, raft/election.go: who has voted anew, and what a new vote says of the logs.
use distqueue.Base.{
  ℕ, ◌+◌, ◌-◌, ◌≡◌, ◌⊎◌, inl, inr, refl, ap, ◌∙◌, Bool, true, false, not, ◌&&◌, ◌||◌, List, [], ◌∷◌,
  ltb, leb, ◌==◌, if◌then◌else◌, if-intro, Bytes, length, some,
}
use distqueue.Raft.{
  Node, LogEntry, is_leader, is_candidate, is_follower, last_index, first_index, term_at, majority,
  persist, become_follower, propose,
}
use distqueue.Raft.Election.{
  RequestVoteArgs, RequestVoteReply, vote_reply, become_leader, reset_peers, handle_request_vote,
  may_vote, up_to_date,
}
use distqueue.Raft.Replication.{
  AppendEntriesArgs, AppendEntriesReply, append_reply, append_each, accept, check_append, follow,
  handle_append_entries,
}
use distqueue.Raft.Lifecycle.{new_node, read_persist, blank}
use distqueue.Raft.Safety.{IsSaved}
use distqueue.Raft.Commit.{advance_commit-Commits}

-- The node has no vote, or the one that it had in the same term.
abbrev pub IsUnvoted : Node → Node → Type 0
IsUnvoted n n' =
    (n'.voted_for ≡ []) ⊎ ((n'.voted_for ≡ n.voted_for) × (n'.current_term ≡ n.current_term))

pub IsUnvoted-refl : (n : Node) → IsUnvoted n n
IsUnvoted-refl n = inr (refl, refl)

IsUnvoted-trans :
    (l m n : Node)
    → IsUnvoted l m
    → (n.voted_for ≡ m.voted_for) × (n.current_term ≡ m.current_term)
    → IsUnvoted l n
IsUnvoted-trans l m n (inl none_yet) (vote, term) = inl (vote ∙ none_yet)
IsUnvoted-trans l m n (inr (vote, term)) (vote', term') = inr (vote' ∙ vote, term' ∙ term)

pub become_follower-IsUnvoted :
    (n : Node) (term : ℕ) → IsUnvoted n (persist (become_follower n term))
unfolding persist become_follower
become_follower-IsUnvoted n term =
    if-intro (λ (x : Node). IsUnvoted n (persist x)) (ltb n.current_term term) (λ _. inl refl)
      (λ _. inr (refl, refl))

pub propose-IsUnvoted : (n : Node) (command : Bytes) → IsUnvoted n (propose n command).0
unfolding propose persist
propose-IsUnvoted n command =
    if-intro (λ (r : Node × ℕ × ℕ × Bool). IsUnvoted n r.0) (is_leader n.state)
      (λ _. inr (refl, refl)) (λ _. inr (refl, refl))

pub append_reply-IsUnvoted :
    (n : Node) (term : ℕ) (args : AppendEntriesArgs) (peer : Bytes) (reply : AppendEntriesReply)
    → IsUnvoted n (append_reply n term args peer reply)
unfolding append_reply
append_reply-IsUnvoted n term args peer reply =
    if-intro (IsUnvoted n) (ltb n.current_term reply.term)
      (λ _. become_follower-IsUnvoted n reply.term)
      (λ _.
        if-intro (IsUnvoted n) (not (is_leader n.state) || not (n.current_term == term))
          (λ _. inr (refl, refl))
          (λ _.
            if-intro (IsUnvoted n) reply.success
              (λ _. elim (advance_commit-Commits _) [
                | inl e ↦
                    inr (ap (λ (x : Node). x.voted_for) e, ap (λ (x : Node). x.current_term) e)
                | inr c ↦ inr (
                  ap (λ (x : Node). x.voted_for) c.only,
                  ap (λ (x : Node). x.current_term) c.only,
                )
              ])
              (λ _. inr (refl, refl))))

-- The vote and the term are as before.
abbrev HasVote : Node → Node → Type 0
HasVote n n' = (n'.voted_for ≡ n.voted_for) × (n'.current_term ≡ n.current_term)

append_each-HasVote : (n : Node) (es : List LogEntry) → HasVote n (append_each n es).0
unfolding append_each
append_each-HasVote n [] = (refl, refl)
append_each-HasVote n (e ∷ es) =
    if-intro (λ (r : Node × Bool). HasVote n r.0) (leb e.index (last_index n))
      (λ _.
        if-intro (λ (r : Node × Bool). HasVote n r.0) (term_at n e.index == e.term)
          (λ _. append_each-HasVote n es) (λ _. (refl, refl)))
      (λ _. (refl, refl))

persist_if-HasVote : (b : Bool) (n m : Node) → HasVote n m → HasVote n (if b then persist m else m)
unfolding persist
persist_if-HasVote true n m h = h
persist_if-HasVote false n m h = h

check_append-HasVote :
    (n : Node) (q term : ℕ) (es : List LogEntry) (c : ℕ) → HasVote n (check_append n q term es c).0
unfolding check_append accept
check_append-HasVote n q term es c =
    let r = append_each n es in
    let saved = persist_if-HasVote r.1 n r.0 (append_each-HasVote n es) in
    if-intro (λ (r : Node × AppendEntriesReply). HasVote n r.0) (ltb (last_index n) q)
      (λ _. (refl, refl))
      (λ _.
        if-intro (λ (r : Node × AppendEntriesReply). HasVote n r.0) (not (term_at n q == term))
          (λ _. (refl, refl))
          (λ _.
            if-intro (HasVote n) (ltb (if r.1 then persist r.0 else r.0).commit_index c)
              (λ _. saved) (λ _. saved)))

check_append-IsUnvoted :
    (n m : Node) (q term : ℕ) (es : List LogEntry) (c : ℕ)
    → IsUnvoted n m
    → IsUnvoted n (check_append m q term es c).0
check_append-IsUnvoted n m q term es c h =
    IsUnvoted-trans n m (check_append m q term es c).0 h (check_append-HasVote m q term es c)

follow-IsUnvoted : (n : Node) (term : ℕ) (id : Bytes) → IsUnvoted n (follow n term id)
unfolding follow
follow-IsUnvoted n term id =
    let b = ltb n.current_term term || not (is_follower n.state) in
    if-intro (IsUnvoted n) b (λ _. become_follower-IsUnvoted n term) (λ _. IsUnvoted-refl n)

pub handle_append_entries-IsUnvoted :
    (n : Node) (args : AppendEntriesArgs) → IsUnvoted n (handle_append_entries n args).0
unfolding handle_append_entries
handle_append_entries-IsUnvoted n args =
    let n' = follow n args.term args.leader_id in
    let heard = follow-IsUnvoted n args.term args.leader_id in
    let first = first_index n' in
    let P : Node × AppendEntriesReply → Type 0 = λ r. IsUnvoted n r.0 in
    if-intro P (ltb args.term n.current_term) (λ _. IsUnvoted-refl n)
      (λ _.
        if-intro P (ltb args.prev_log_index first)
          (λ _.
            if-intro P (ltb (length args.entries) (first - args.prev_log_index)) (λ _. heard)
              (λ _. check_append-IsUnvoted n n' _ _ _ _ heard))
          (λ _. check_append-IsUnvoted n n' _ _ _ _ heard))

reset_peers-HasVote : (ps : List Bytes) (n : Node) → HasVote n (reset_peers n ps)
unfolding reset_peers
reset_peers-HasVote [] n = (refl, refl)
reset_peers-HasVote (p ∷ ps) n = reset_peers-HasVote ps _

pub vote_reply-IsUnvoted :
    (n : Node) (term votes : ℕ) (reply : RequestVoteReply)
    → IsUnvoted n (vote_reply n term votes reply).0
unfolding vote_reply become_leader persist
vote_reply-IsUnvoted n term votes reply =
    let P : Node × ℕ → Type 0 = λ r. IsUnvoted n r.0 in
    if-intro P (ltb n.current_term reply.term) (λ _. become_follower-IsUnvoted n reply.term)
      (λ _.
        if-intro P (not (is_candidate n.state) || not (n.current_term == term))
          (λ _. IsUnvoted-refl n)
          (λ _.
            if-intro P reply.vote_granted
              (λ _.
                if-intro (IsUnvoted n) (leb (majority n) (votes + 1))
                  (λ _. inr (reset_peers-HasVote n.peers _)) (λ _. IsUnvoted-refl n))
              (λ _. IsUnvoted-refl n)))

pub restart-IsUnvoted :
    (n : Node)
    → IsSaved n
    → IsUnvoted n (new_node n.id n.peers (record { state_file = some n.disk; snapshot_file = [] }))
unfolding new_node read_persist blank
restart-IsUnvoted n s = inr (ap (λ d. d.voted_for) s, ap (λ d. d.current_term) s)

-- A request for a vote is refused, or the vote is for the candidate.
pub handle_request_vote-IsUnvoted :
    (n : Node) (args : RequestVoteArgs)
    → IsUnvoted n (handle_request_vote n args).0
      ⊎ ((handle_request_vote n args).1.vote_granted ≡ true)
unfolding handle_request_vote
handle_request_vote-IsUnvoted n args =
    let n' = if ltb n.current_term args.term then persist (become_follower n args.term) else n in
    let heard : IsUnvoted n n' =
      if-intro (IsUnvoted n) (ltb n.current_term args.term)
        (λ _. become_follower-IsUnvoted n args.term) (λ _. IsUnvoted-refl n) in
    let P : Node × RequestVoteReply → Type 0 = λ r. IsUnvoted n r.0 ⊎ (r.1.vote_granted ≡ true) in
    if-intro P (ltb args.term n'.current_term) (λ _. inl heard)
      (λ _.
        if-intro P (may_vote n' args.candidate_id && up_to_date n' args) (λ _. inr refl)
          (λ _. inl heard))
