-- ===== src/Raft/Consensus/Winning.antt =====
-- Proposals and won elections in a cluster, raft/raft.go and raft/election.go.
use distqueue.Base.{
  ℕ, ◌+◌, ◌*◌, ◌<◌, ◌≡◌, ◌⊎◌, inl, inr, refl, sym, subst, ap, ◌∙◌, false, not, ◌&&◌, ◌||◌, List, [],
  ◌∷◌, arith, ltb, leb, ◌==◌, if-intro, length, Bytes,
}
use distqueue.Raft.{
  Node, candidate, is_leader, is_candidate, majority, persist, become_follower, propose,
}
use distqueue.Raft.Election.{RequestVoteReply, vote_reply, become_leader}
use distqueue.Raft.Safety.{Keeps, propose-Keeps, vote_reply-Keeps}
use distqueue.Raft.Roles.{Stays, Stays-refl, propose-Stays, become_follower-Stays}
use distqueue.Raft.Cluster.{
  Cluster, Ballot, IsSent, IsMember, update, with_node, with_poll, take_in, same,
}
use distqueue.Raft.Cluster.Elected.{votes_for, votes_for-Grow, IsSound, Grow, with_node-Grow}
use distqueue.Raft.Cluster.Counted.{is_candidate-lem}
use distqueue.Raft.Cluster.Moves.{Stays-IsSound, update-here}
use distqueue.Raft.Cluster.Leaders.{take_in-IsSound, most-same}
use distqueue.Raft.Consensus.{System, History, at_term, share, extend, crown, proposed, taken_in}
use distqueue.Raft.Consensus.Histories.{at_term-here, at_term-there}
use distqueue.Raft.Consensus.Matched.{IsMatched}
use distqueue.Raft.Consensus.Quiet.{moved-IsMatched, quiet-IsMatched}
use distqueue.Raft.Consensus.Grown.{
  Leads, is_leader-lem, propose-Leads, become_leader-Leads, grown-IsMatched,
}

pub proposed-IsMatched :
    (ms : List Bytes) (s : System) (i command : Bytes)
    → IsMatched ms s
    → IsMatched ms (proposed s i command)
unfolding proposed extend share with_node
proposed-IsMatched ms s i command m =
    let c = s.cluster in
    let n = c.nodes i in
    let n' = (propose n command).0 in
    let stays = propose-Stays n command in
    let keeps = propose-Keeps n command in
    let After : History → Type 0 =
      λ h. IsMatched ms (record s { cluster = with_node c i n'; past = h }) in
    elim (propose-Leads n command) [
      | inl (same, follows) ↦
          if-intro After (is_leader n'.state)
            (λ leads. absurd (cc (leads, follows, ap (λ (x : Node). is_leader x.state) same)))
            (λ _. quiet-IsMatched ms s m i n' stays keeps (ap (λ (x : Node). x.log) same))
      | inr (led, leads) ↦
          let (some_term, whole, its) = (m.node i).led led in
          if-intro After (is_leader n'.state)
            (λ _.
              grown-IsMatched ms s m i n' (with_node c i n') _ leads
                (Stays-IsSound ms c i n' m.sound stays keeps) refl (update-here c.nodes i n')
                (with_node-Grow c i n' (m.sound.past i) keeps) some_term
                (λ j. at_term s.past.log_of (leads.term j) (leads.log j)) its (λ u _. refl)
                (inr (whole, its)))
            (λ no_leader. absurd (cc (no_leader, ap is_leader leads.state)))
    ]

-- Nothing but the term, the vote and the role has changed.
pub record IsIdle (n n' : Node) : Type 0 where
  pub stays : Stays n n'
  pub log : n'.log ≡ n.log
  pub commit : n'.commit_index ≡ n.commit_index
  pub match : n'.match_index ≡ n.match_index

become_follower-IsIdle : (n : Node) (term : ℕ) → IsIdle n (persist (become_follower n term))
unfolding persist become_follower
become_follower-IsIdle n term = record {
  stays = become_follower-Stays n term;
  log = ground arith;
  commit = ground arith;
  match = ground arith;
}

IsIdle-refl : (n : Node) → IsIdle n n
IsIdle-refl n = record { stays = Stays-refl n; log = refl; commit = refl; match = refl }

-- An answer leaves the log alone, or it wins the election.
pub vote_reply-cases :
    (n : Node) (term votes : ℕ) (reply : RequestVoteReply)
    → IsIdle n (vote_reply n term votes reply).0
      ⊎ ((n.state ≡ candidate) × ((vote_reply n term votes reply).0 ≡ become_leader n))
unfolding vote_reply
vote_reply-cases n term votes reply =
    let P : Node × ℕ → Type 0 =
      λ r. IsIdle n r.0 ⊎ ((n.state ≡ candidate) × (r.0 ≡ become_leader n)) in
    if-intro P (ltb n.current_term reply.term) (λ _. inl (become_follower-IsIdle n reply.term))
      (λ _.
        if-intro P (not (is_candidate n.state) || not (n.current_term == term))
          (λ _. inl (IsIdle-refl n))
          (λ runs.
            if-intro P reply.vote_granted
              (λ _.
                if-intro (λ (x : Node). P (x, votes + 1)) (leb (majority n) (votes + 1))
                  (λ _. inr (is_candidate-lem n.state (ground arith), refl))
                  (λ _. inl (IsIdle-refl n)))
              (λ _. inl (IsIdle-refl n))))

pub take_in-nodes :
    (c : Cluster) (b : Ballot) (votes : ℕ)
    → let n = (vote_reply (c.nodes b.candidate) b.term votes b.reply).0 in
      ((take_in c b votes).nodes ≡ update c.nodes b.candidate n)
      × ((take_in c b votes).cast ≡ (with_node c b.candidate n).cast)
unfolding take_in with_node with_poll
take_in-nodes c b votes =
    let r = vote_reply (c.nodes b.candidate) b.term votes b.reply in
    if-intro
      (λ (d : Cluster).
        (d.nodes ≡ update c.nodes b.candidate r.0) × (d.cast ≡ (with_node c b.candidate r.0).cast))
      (r.1 == votes) (λ _. (refl, refl)) (λ _. (refl, refl))

is_empty : {A : Type 0} (xs : List A) → (0 < length xs → ⊥) → xs ≡ []
is_empty [] h = refl
is_empty (x ∷ xs) h = absurd (h (omega arith))

-- The term that a candidate wins had no leader.
pub none_led :
    (ms : List Bytes) (s : System) (i : Bytes) (c : Cluster)
    → IsMatched ms s
    → (s.cluster.nodes i).state ≡ candidate
    → Grow s.cluster.cast c.cast
    → length ms < 2 * votes_for ms c.cast i (s.cluster.nodes i).current_term
    → s.past.log_of (s.cluster.nodes i).current_term ≡ []
none_led ms s i c m ran g most =
    let t = (s.cluster.nodes i).current_term in
    let (some_term, not_own) = (m.node i).runs ran in
    is_empty (s.past.log_of t) (λ led.
      let (_, some_one, most') = m.led t some_term led in
      not_own led (
        most-same ms c.cast (s.past.leader_of t) i t
          (omega (
            arith,
            most',
            votes_for-Grow ms s.cluster.cast c.cast (s.past.leader_of t) t some_one g,
          ))
          most))

taken_in_node :
    (ms : List Bytes) (s : System) (b : Ballot) (n' : Node) (c : Cluster)
    → IsMatched ms s
    → IsSound ms c
    → c.nodes ≡ update s.cluster.nodes b.candidate n'
    → Grow s.cluster.cast c.cast
    → Keeps (s.cluster.nodes b.candidate) n'
    → IsIdle (s.cluster.nodes b.candidate) n'
      ⊎ (((s.cluster.nodes b.candidate).state ≡ candidate)
          × (n' ≡ become_leader (s.cluster.nodes b.candidate)))
    → IsMatched ms (record s {
      cluster = c;
      past = crown s.past c.cast b.candidate (s.cluster.nodes b.candidate) (c.nodes b.candidate);
    })
unfolding crown extend share
taken_in_node ms s b n' c m sound nodes g keeps cases =
    let i = b.candidate in
    let n = s.cluster.nodes i in
    let here : c.nodes i ≡ n' = ap (λ f. f i) nodes ∙ update-here s.cluster.nodes i n' in
    let After : History → Type 0 = λ h. IsMatched ms (record s { cluster = c; past = h }) in
    subst (λ x. After (crown s.past c.cast i n x)) (sym here)
      (elim cases [
        | inl idle ↦
            if-intro After (is_leader n'.state && not (is_leader n.state))
              (λ new.
                let was = (idle.stays.leads (is_leader-lem n'.state (ground arith))).0 in
                absurd (ground (arith, ap is_leader was)))
              (λ _. moved-IsMatched ms s i n' c m sound nodes g idle.stays keeps idle.log)
        | inr (ran, won) ↦
            let leads : Leads n n' = subst (Leads n) (sym won) (become_leader-Leads n) in
            let some_term = ((m.node i).runs ran).0 in
            let most =
              subst (λ t. length ms < 2 * votes_for ms c.cast i t)
                (ap (λ (x : Node). x.current_term) here ∙ leads.term)
                ((sound.elected i).led (ap (λ (x : Node). x.state) here ∙ leads.state)).1 in
            if-intro After (is_leader n'.state && not (is_leader n.state))
              (λ _.
                if-intro After (is_leader n'.state)
                  (λ _.
                    grown-IsMatched ms s m i n' c _ leads sound nodes here g some_term
                      (λ j. at_term s.past.log_of (leads.term j) (leads.log j))
                      (ap (λ t. at_term s.past.leader_of t i n.current_term) leads.term
                        ∙ at_term-here s.past.leader_of n.current_term i)
                      (λ u other.
                        ap (λ t. at_term s.past.leader_of t i u) leads.term
                        ∙ at_term-there s.past.leader_of n.current_term i u other)
                      (inl (none_led ms s i c m ran g most)))
                  (λ no_leader. absurd (cc (no_leader, ap is_leader leads.state))))
              (λ old. absurd (ground (arith, ap is_leader leads.state, ap is_leader ran)))
      ])

pub taken_in-IsMatched :
    (ms : List Bytes) (s : System) (b : Ballot) (votes : ℕ)
    → IsMatched ms s
    → IsSent s.cluster.ballots b
    → IsMember ms b.voter
    → (b.term ≡ (s.cluster.polls b.candidate).term
        → (votes ≡ (s.cluster.polls b.candidate).votes)
          × ((s.cluster.polls b.candidate).heard b.voter ≡ false))
    → IsMatched ms (taken_in s b votes)
unfolding taken_in
taken_in-IsMatched ms s b votes m sent member once =
    let n = s.cluster.nodes b.candidate in
    let n' = (vote_reply n b.term votes b.reply).0 in
    let (nodes, cast) = take_in-nodes s.cluster b votes in
    let keeps = vote_reply-Keeps n b.term votes b.reply in
    taken_in_node ms s b n' (take_in s.cluster b votes) m
      (take_in-IsSound ms s.cluster b votes m.sound sent member once) nodes
      (subst (Grow s.cluster.cast) (sym cast)
        (with_node-Grow s.cluster b.candidate n' (m.sound.past b.candidate) keeps))
      keeps (vote_reply-cases n b.term votes b.reply)
