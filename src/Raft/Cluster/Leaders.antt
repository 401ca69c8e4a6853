-- ===== src/Raft/Cluster/Leaders.antt =====
-- Who leads a cluster, raft/election.go on every node.
use distqueue.Base.{
  ℕ, ◌+◌, ◌*◌, ◌<◌, ◌≤◌, ◌≡◌, ◌≢◌, refl, sym, ◌∙◌, subst, true, false, ◌||◌, List, [], leb, ◌==◌,
  if◌then◌else◌, Bytes, bytes_discrete, none, if-intro, count, length, arith, count-disjoint,
  count-length,
}
use distqueue.Raft.{Node, leader, majority}
use distqueue.Raft.Election.{become_leader}
use distqueue.Raft.Lifecycle.{new_node, read_persist, blank}
use distqueue.Raft.Safety.{Keeps, vote_reply-Keeps}
use distqueue.Raft.Cluster.{
  Cluster, Ballot, Step, Run, IsSent, IsMember, acts, campaigns, answers, takes_in, start, step,
  with_node, with_poll, take_in, same,
}
use distqueue.Raft.Cluster.Elected.{
  votes_for, IsPolled, IsSound, Grow, IsElected-Grow, IsPolled-Grow, with_node-Grow,
}
use distqueue.Raft.Cluster.Counted.{vote_reply-intro, counted-IsElected, counted-IsPolled}
use distqueue.Raft.Cluster.Moves.{
  Local-Keeps, Local-Stays, Stays-IsSound, polls-IsSound, campaign-IsSound, answer-IsSound,
}

pub take_in-IsSound :
    (ms : List Bytes) (c : Cluster) (b : Ballot) (votes : ℕ)
    → IsSound ms c
    → IsSent c.ballots b
    → IsMember ms b.voter
    → (b.term ≡ (c.polls b.candidate).term
        → (votes ≡ (c.polls b.candidate).votes) × ((c.polls b.candidate).heard b.voter ≡ false))
    → IsSound ms (take_in c b votes)
unfolding take_in
take_in-IsSound ms c b votes s sent member once =
    let i = b.candidate in
    let n = c.nodes i in
    let p = c.polls i in
    let after : Node × ℕ → Cluster = λ r.
      if r.1 == votes
      then with_node c i r.0
      else with_poll (with_node c i r.0) i
          (record { term = p.term; votes = r.1; heard = λ v. same v b.voter || p.heard v }) in
    vote_reply-intro (λ r. Keeps n r.0 → IsSound ms (after r)) n b.term votes b.reply
      (λ n' stays k _.
        if-intro (IsSound ms) (votes == votes) (λ _. Stays-IsSound ms c i n' s stays k)
          (λ h. absurd (ground arith)))
      (λ ran term granted k.
        if-intro (IsSound ms) (votes + 1 == votes) (λ h. absurd (ground arith))
          (λ _.
            let (some_one, voted) = s.sent b sent granted in
            let this : p.term ≡ b.term = (s.elected i).ran ran ∙ term in
            let (all_votes, new) = once (sym this) in
            let n' = if leb (majority n) (votes + 1) then become_leader n else n in
            let cast' = (with_node c i n').cast in
            let g : Grow c.cast cast' = with_node-Grow c i n' (s.past i) k in
            let polled =
              subst
                (λ x. IsPolled ms c.cast i (record {
                  term = p.term;
                  votes = x + 1;
                  heard = λ v. same v b.voter || p.heard v;
                }))
                (sym all_votes)
                (counted-IsPolled ms c.cast i b.voter p (s.polled i) some_one
                  (subst (λ t. c.cast b.voter t ≡ i) (sym this) voted) new member) in
            let polled' = IsPolled-Grow ms c.cast cast' i _ g polled in
            polls-IsSound ms c i n' _ s k
              (counted-IsElected ms cast' p _ i n (votes + 1)
                (IsElected-Grow ms c.cast cast' p i n g (s.elected i)) ran some_one refl refl
                polled')
              polled'))
      (vote_reply-Keeps n b.term votes b.reply)

-- Each step keeps the cluster sound.
Step-IsSound : (ms : List Bytes) (c d : Cluster) → Step ms c d → IsSound ms c → IsSound ms d
Step-IsSound ms c _ (acts _ i n l) s =
    Stays-IsSound ms c i n s (Local-Stays _ n l) (Local-Keeps _ n (s.elected i).saved l)
Step-IsSound ms c _ (campaigns _ i member some_one) s = campaign-IsSound ms c i s member some_one
Step-IsSound ms c _ (answers _ j args some_one) s = answer-IsSound ms c j args s some_one
Step-IsSound ms c _ (takes_in _ b votes sent member once) s =
    take_in-IsSound ms c b votes s sent member once

Run-IsSound : (ms : List Bytes) (c d : Cluster) → Run ms c d → IsSound ms c → IsSound ms d
Run-IsSound ms c _ (start _) s = s
Run-IsSound ms c d (step _ m _ r t) s = Step-IsSound ms m d t (Run-IsSound ms c m r s)

-- The cluster of new nodes without files.
unfoldable pub new_cluster : (Bytes → List Bytes) → Cluster
new_cluster peers = record {
  nodes = λ i. new_node i (peers i) (record { state_file = none; snapshot_file = [] });
  polls = λ _. record { term = 0; votes = 0; heard = λ _. false };
  ballots = [];
  cast = λ _ _. [];
}

pub new_cluster-IsSound :
    (ms : List Bytes) (peers : Bytes → List Bytes)
    → ((i : Bytes) → length (peers i) + 1 ≡ length ms)
    → IsSound ms (new_cluster peers)
unfolding new_cluster new_node read_persist blank
new_cluster-IsSound ms peers size = record {
  past = λ i. record { whole = refl; future = λ _ _. refl };
  elected = λ i. record {
    id = refl;
    size = size i;
    saved = refl;
    ran = λ h. absurd (cc);
    led = λ h. absurd (cc);
  };
  polled = λ i. record { backed = λ v h. absurd (cc); tally = omega arith };
  sent = λ b h. absurd h;
}

apart : (a i j : Bytes) → i ≢ j → same a i ≡ true → same a j ≡ false
apart a i j other h = ground arith

-- Two nodes with the votes of most members in the same term are the same node.
pub most-same :
    (ms : List Bytes) (cast : Bytes → ℕ → Bytes) (i j : Bytes) (t : ℕ)
    → length ms < 2 * votes_for ms cast i t
    → length ms < 2 * votes_for ms cast j t
    → i ≡ j
most-same ms cast i j t most_i most_j = elim (bytes_discrete i j) [
  | yes e ↦ e
  | no other ↦
      let sum : votes_for ms cast i t + votes_for ms cast j t ≤ count (λ _. true) ms =
        count-disjoint (λ v. same (cast v t) i) (λ v. same (cast v t) j) (λ _. true) ms
          (λ v h. (apart (cast v t) i j other h, refl)) (λ _ _. refl) in
      absurd (omega (arith, sum, most_i, most_j, count-length (λ _. true) ms))
]

-- In any run of a cluster of new nodes, each with as many peers as there are members but itself,
-- where members with an id campaign, nodes answer vote requests, crash and restart from their files
-- and take any other step at any time, and answers of members come late or never but are counted
-- once: two nodes that lead in the same term are the same node.
pub one_leader :
    (ms : List Bytes) (peers : Bytes → List Bytes) (c : Cluster) (i j : Bytes)
    → ((v : Bytes) → length (peers v) + 1 ≡ length ms)
    → Run ms (new_cluster peers) c
    → (c.nodes i).state ≡ leader
    → (c.nodes j).state ≡ leader
    → (c.nodes i).current_term ≡ (c.nodes j).current_term
    → i ≡ j
one_leader ms peers c i j size r led_i led_j same_term =
    let s = Run-IsSound ms _ c r (new_cluster-IsSound ms peers size) in
    most-same ms c.cast i j (c.nodes i).current_term ((s.elected i).led led_i).1 (
      subst (λ t. length ms < 2 * votes_for ms c.cast j t) (sym same_term)
        ((s.elected j).led led_j).1)
