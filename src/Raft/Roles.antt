-- ===== src/Raft/Roles.antt =====
-- Who a node is, and how it comes to lead, in each step of raft/ but the count of votes.
use distqueue.Base.{
  ℕ, zero, suc, ◌-◌, ◌≡◌, refl, ◌∙◌, Bool, not, ◌&&◌, ◌||◌, List, [], ◌∷◌, some, ltb, leb, ◌==◌,
  if◌then◌else◌, Bytes, if-intro, length,
}
use distqueue.Raft.{
  Node, LogEntry, leader, candidate, persist, become_follower, propose, is_leader, is_follower,
  first_index, last_index, term_at, majority,
}
use distqueue.Raft.Election.{
  RequestVoteArgs, RequestVoteReply, may_vote, up_to_date, handle_request_vote,
}
use distqueue.Raft.Replication.{
  AppendEntriesArgs, AppendEntriesReply, advance_loop, advance_commit, append_reply, append_each,
  accept, check_append, follow, handle_append_entries, replicas,
}
use distqueue.Raft.Installing.{
  InstallSnapshotArgs, snapshot, install_reply, handle_install_snapshot,
}
use distqueue.Raft.Lifecycle.{new_node, read_persist, blank}

-- The node is the same one, and if it leads or runs, it did so already in the same term.
pub record Stays (n n' : Node) : Type 0 where
  pub id : n'.id ≡ n.id
  pub peers : n'.peers ≡ n.peers
  pub leads : n'.state ≡ leader → (n.state ≡ leader) × (n'.current_term ≡ n.current_term)
  pub runs : n'.state ≡ candidate → (n.state ≡ candidate) × (n'.current_term ≡ n.current_term)

pub Stays-refl : (n : Node) → Stays n n
Stays-refl n = record { id = refl; peers = refl; leads = λ h. (h, refl); runs = λ h. (h, refl) }

pub Stays-trans : (l m n : Node) → Stays l m → Stays m n → Stays l n
Stays-trans l m n a b = record {
  id = b.id ∙ a.id;
  peers = b.peers ∙ a.peers;
  leads =
      λ h. let (led, term) = b.leads h in let (led', term') = a.leads led in (led', term ∙ term');
  runs = λ h. let (ran, term) = b.runs h in let (ran', term') = a.runs ran in (ran', term ∙ term');
}

-- A step that leaves the role and the term alone.
pub same-Stays :
    (n n' : Node)
    → n'.id ≡ n.id
    → n'.peers ≡ n.peers
    → n'.state ≡ n.state
    → n'.current_term ≡ n.current_term
    → Stays n n'
same-Stays n n' id peers state term = record {
  id = id;
  peers = peers;
  leads = λ h. (cc, term);
  runs = λ h. (cc, term);
}

persist-Stays : (n : Node) → Stays n (persist n)
unfolding persist
persist-Stays n = same-Stays n _ refl refl refl refl

pub become_follower-Stays : (n : Node) (term : ℕ) → Stays n (persist (become_follower n term))
unfolding become_follower persist
become_follower-Stays n term =
    if-intro (λ x. Stays n (persist x)) (ltb n.current_term term)
      (λ _. record { id = refl; peers = refl; leads = λ h. absurd (cc); runs = λ h. absurd (cc) })
      (λ _. record { id = refl; peers = refl; leads = λ h. absurd (cc); runs = λ h. absurd (cc) })

pub propose-Stays : (n : Node) (command : Bytes) → Stays n (propose n command).0
unfolding propose persist
propose-Stays n command =
    if-intro (λ (r : Node × ℕ × ℕ × Bool). Stays n r.0) (is_leader n.state)
      (λ _. same-Stays n _ refl refl refl refl) (λ _. Stays-refl n)

heard-Stays :
    (n : Node) (b : Bool) (term : ℕ) → Stays n (if b then persist (become_follower n term) else n)
heard-Stays n b term = if-intro (Stays n) b (λ _. become_follower-Stays n term) (λ _. Stays-refl n)

pub handle_request_vote-Stays :
    (n : Node) (args : RequestVoteArgs) → Stays n (handle_request_vote n args).0
unfolding handle_request_vote persist
handle_request_vote-Stays n args =
    let n' = if ltb n.current_term args.term then persist (become_follower n args.term) else n in
    let heard = heard-Stays n (ltb n.current_term args.term) args.term in
    if-intro (λ (r : Node × RequestVoteReply). Stays n r.0) (ltb args.term n'.current_term)
      (λ _. heard)
      (λ _.
        if-intro (λ (r : Node × RequestVoteReply). Stays n r.0)
          (may_vote n' args.candidate_id && up_to_date n' args)
          (λ _. Stays-trans n n' _ heard (same-Stays n' _ refl refl refl refl)) (λ _. heard))

advance_loop-Stays : (n : Node) (i : ℕ) → Stays n (advance_loop n i)
unfolding advance_loop
advance_loop-Stays n zero = Stays-refl n
advance_loop-Stays n (suc i) =
    if-intro (Stays n) (not (ltb n.commit_index (suc i) && ltb (first_index n) (suc i)))
      (λ _. Stays-refl n)
      (λ _.
        if-intro (Stays n) (not (term_at n (suc i) == n.current_term)) (λ _. Stays-refl n)
          (λ _.
            if-intro (Stays n) (leb (majority n) (replicas n (suc i)))
              (λ _. same-Stays n _ refl refl refl refl) (λ _. advance_loop-Stays n i)))

pub append_reply-Stays :
    (n : Node) (term : ℕ) (args : AppendEntriesArgs) (peer : Bytes) (reply : AppendEntriesReply)
    → Stays n (append_reply n term args peer reply)
unfolding append_reply advance_commit
append_reply-Stays n term args peer reply =
    if-intro (Stays n) (ltb n.current_term reply.term) (λ _. become_follower-Stays n reply.term)
      (λ _.
        if-intro (Stays n) (not (is_leader n.state) || not (n.current_term == term))
          (λ _. Stays-refl n)
          (λ _.
            if-intro (Stays n) reply.success
              (λ _.
                Stays-trans n _ _ (same-Stays n _ refl refl refl refl)
                  (advance_loop-Stays _ (last_index n)))
              (λ _. same-Stays n _ refl refl refl refl)))

append_each-Stays :
    (n : Node) (es : List LogEntry)
    → Stays n (let r = append_each n es in if r.1 then persist r.0 else r.0)
unfolding append_each persist
append_each-Stays n [] = Stays-refl n
append_each-Stays n (e ∷ es) =
    if-intro (λ (r : Node × Bool). Stays n (if r.1 then persist r.0 else r.0))
      (leb e.index (last_index n))
      (λ _.
        if-intro (λ (r : Node × Bool). Stays n (if r.1 then persist r.0 else r.0))
          (term_at n e.index == e.term) (λ _. append_each-Stays n es)
          (λ _. same-Stays n _ refl refl refl refl))
      (λ _. same-Stays n _ refl refl refl refl)

accept-Stays : (n : Node) (prev : ℕ) (es : List LogEntry) (c : ℕ) → Stays n (accept n prev es c)
unfolding accept
accept-Stays n prev es c =
    let r = append_each n es in
    let saved = if r.1 then persist r.0 else r.0 in
    if-intro (Stays n) (ltb saved.commit_index c)
      (λ _. Stays-trans n saved _ (append_each-Stays n es) (same-Stays saved _ refl refl refl refl))
      (λ _. append_each-Stays n es)

check_append-Stays :
    (n : Node) (prev term : ℕ) (es : List LogEntry) (c : ℕ)
    → Stays n (check_append n prev term es c).0
unfolding check_append
check_append-Stays n prev term es c =
    if-intro (λ (r : Node × AppendEntriesReply). Stays n r.0) (ltb (last_index n) prev)
      (λ _. Stays-refl n)
      (λ _.
        if-intro (λ (r : Node × AppendEntriesReply). Stays n r.0) (not (term_at n prev == term))
          (λ _. Stays-refl n) (λ _. accept-Stays n prev es c))

follow-Stays : (n : Node) (term : ℕ) (id : Bytes) → Stays n (follow n term id)
unfolding follow
follow-Stays n term id =
    let b = ltb n.current_term term || not (is_follower n.state) in
    Stays-trans n (if b then persist (become_follower n term) else n) _ (heard-Stays n b term)
      (same-Stays _ _ refl refl refl refl)

pub handle_append_entries-Stays :
    (n : Node) (args : AppendEntriesArgs) → Stays n (handle_append_entries n args).0
unfolding handle_append_entries
handle_append_entries-Stays n args =
    let n' = follow n args.term args.leader_id in
    let heard = follow-Stays n args.term args.leader_id in
    let first = first_index n' in
    if-intro (λ (r : Node × AppendEntriesReply). Stays n r.0) (ltb args.term n.current_term)
      (λ _. Stays-refl n)
      (λ _.
        if-intro (λ (r : Node × AppendEntriesReply). Stays n r.0) (ltb args.prev_log_index first)
          (λ _.
            if-intro (λ (r : Node × AppendEntriesReply). Stays n r.0)
              (ltb (length args.entries) (first - args.prev_log_index)) (λ _. heard)
              (λ _. Stays-trans n n' _ heard (check_append-Stays n' _ _ _ _)))
          (λ _. Stays-trans n n' _ heard (check_append-Stays n' _ _ _ _)))

pub snapshot-Stays : (n : Node) (index : ℕ) (contents : Bytes) → Stays n (snapshot n index contents)
unfolding snapshot persist
snapshot-Stays n index contents =
    if-intro (Stays n) (leb index (first_index n) || ltb n.last_applied index) (λ _. Stays-refl n)
      (λ _. same-Stays n _ refl refl refl refl)

pub install_reply-Stays :
    (n : Node) (term : ℕ) (args : InstallSnapshotArgs) (peer : Bytes) (reply : ℕ)
    → Stays n (install_reply n term args peer reply)
unfolding install_reply
install_reply-Stays n term args peer reply =
    if-intro (Stays n) (ltb n.current_term reply) (λ _. become_follower-Stays n reply)
      (λ _.
        if-intro (Stays n) (not (is_leader n.state) || not (n.current_term == term))
          (λ _. Stays-refl n) (λ _. same-Stays n _ refl refl refl refl))

pub handle_install_snapshot-Stays :
    (n : Node) (args : InstallSnapshotArgs) → Stays n (handle_install_snapshot n args).0
unfolding handle_install_snapshot persist
handle_install_snapshot-Stays n args =
    let n' = follow n args.term args.leader_id in
    let heard = follow-Stays n args.term args.leader_id in
    if-intro (λ (r : Node × ℕ). Stays n r.0) (ltb args.term n.current_term) (λ _. Stays-refl n)
      (λ _.
        if-intro (λ (r : Node × ℕ). Stays n r.0) (leb args.last_included_index n'.commit_index)
          (λ _. heard) (λ _. Stays-trans n n' _ heard (same-Stays n' _ refl refl refl refl)))

-- A node that starts from its files.
pub restart-Stays :
    (n : Node) (file : Bytes)
    → Stays n (new_node n.id n.peers (record { state_file = some n.disk; snapshot_file = file }))
unfolding new_node read_persist blank
restart-Stays n file =
    if-intro
      (λ (x : Node).
        Stays n (record x { commit_index = first_index x; last_applied = first_index x }))
      (ltb 0 (length file))
      (λ _. record { id = refl; peers = refl; leads = λ h. absurd (cc); runs = λ h. absurd (cc) })
      (λ _. record { id = refl; peers = refl; leads = λ h. absurd (cc); runs = λ h. absurd (cc) })
