-- ===== src/Raft/Cluster/Counted.antt =====
-- The count of the votes of an election, raft/election.go.
use distqueue.Base.{
  ℕ, ◌+◌, ◌*◌, ◌<◌, ◌≤◌, ◌≡◌, ◌≢◌, refl, sym, ◌∙◌, subst, Bool, true, false, not, ◌||◌, List, [],
  ◌∷◌, ltb, leb, ◌==◌, if◌then◌else◌, Bytes, if-intro, length, arith, count_mono, count-disjoint,
}
use distqueue.Raft.{Node, State, follower, leader, candidate, is_candidate, majority, persist}
use distqueue.Raft.Election.{RequestVoteReply, become_leader, reset_peers, vote_reply}
use distqueue.Raft.Safety.{Keeps, Keeps-refl, become_follower-Keeps, become_leader-Keeps}
use distqueue.Raft.Roles.{Stays, become_follower-Stays, Stays-refl}
use distqueue.Raft.Cluster.{Poll, IsMember, same, same-lem, same_refl}
use distqueue.Raft.Cluster.Elected.{votes_for, IsElected, IsPolled}

-- A new leader is the same node, in the same term.
record IsSameNode (n n' : Node) : Type 0 where
  pub id : n'.id ≡ n.id
  pub peers : n'.peers ≡ n.peers
  pub term : n'.current_term ≡ n.current_term

reset_peers-IsSameNode : (ps : List Bytes) (n : Node) → IsSameNode n (reset_peers n ps)
unfolding reset_peers
reset_peers-IsSameNode [] n = record { id = refl; peers = refl; term = refl }
reset_peers-IsSameNode (p ∷ ps) n =
    let r = reset_peers-IsSameNode ps _ in record { id = r.id; peers = r.peers; term = r.term }

become_leader-IsSameNode : (n : Node) → IsSameNode n (become_leader n)
unfolding become_leader persist
become_leader-IsSameNode n =
    let r = reset_peers-IsSameNode n.peers (record n { state = leader; leader_id = n.id }) in
    record { id = r.id; peers = r.peers; term = r.term }

pub is_candidate-lem : (s : State) → is_candidate s ≡ true → s ≡ candidate
is_candidate-lem candidate h = refl
is_candidate-lem leader h = absurd (cc)
is_candidate-lem follower h = absurd (cc)

-- An answer is not counted, or it is the vote of a peer in the election that still runs.
pub vote_reply-intro :
    (P : Node × ℕ → Type 0) (n : Node) (term votes : ℕ) (reply : RequestVoteReply)
    → ((n' : Node) → Stays n n' → Keeps n n' → P (n', votes))
    → (n.state ≡ candidate
        → n.current_term ≡ term
        → reply.vote_granted ≡ true
        → P (if leb (majority n) (votes + 1) then become_leader n else n, votes + 1))
    → P (vote_reply n term votes reply)
unfolding vote_reply
vote_reply-intro P n term votes reply idle counted =
    if-intro P (ltb n.current_term reply.term)
      (λ _. idle _ (become_follower-Stays n reply.term) (become_follower-Keeps n reply.term))
      (λ _.
        if-intro P (not (is_candidate n.state) || not (n.current_term == term))
          (λ _. idle n (Stays-refl n) (Keeps-refl n))
          (λ runs.
            if-intro P reply.vote_granted
              (λ granted. counted (is_candidate-lem n.state (ground arith)) (ground arith) granted)
              (λ _. idle n (Stays-refl n) (Keeps-refl n))))

-- The winner of a count: it has the votes of most members.
won-lem :
    (ms : List Bytes) (cast : Bytes → ℕ → Bytes) (i : Bytes) (p : Poll) (n : Node)
    → length n.peers + 1 ≡ length ms
    → IsPolled ms cast i p
    → majority n ≤ p.votes
    → length ms < 2 * votes_for ms cast i p.term
won-lem ms cast i p n size polled most =
    let backed =
      count_mono p.heard (λ v. same (cast v p.term) i) ms
        (λ v h. subst (λ x. same x i ≡ true) (sym (polled.backed v h).1) (same_refl i)) in
    omega (arith, backed, polled.tally, most, size)

pub counted-IsElected :
    (ms : List Bytes) (cast : Bytes → ℕ → Bytes) (p p' : Poll) (i : Bytes) (n : Node) (votes : ℕ)
    → IsElected ms cast p i n
    → n.state ≡ candidate
    → i ≢ []
    → p'.term ≡ p.term
    → p'.votes ≡ votes
    → IsPolled ms cast i p'
    → IsElected ms cast p' i (if leb (majority n) votes then become_leader n else n)
counted-IsElected ms cast p p' i n votes e ran some_one term tally polled =
    let term' : p'.term ≡ n.current_term = term ∙ e.ran ran in
    if-intro (IsElected ms cast p' i) (leb (majority n) votes)
      (λ most.
        let crowned = become_leader-IsSameNode n in
        let now = sym (crowned.term) in
        record {
          id = crowned.id ∙ e.id;
          size = cc (crowned.peers, e.size);
          saved = (become_leader-Keeps n).saved e.saved;
          ran = λ _. term' ∙ now;
          led = λ _. (
            some_one,
            subst (λ t. length ms < 2 * votes_for ms cast i t) (term' ∙ now)
                (won-lem ms cast i p' n e.size polled (ground arith)),
          );
        })
      (λ _. record {
        id = e.id;
        size = e.size;
        saved = e.saved;
        ran = λ _. term';
        led = λ h. absurd (cc (ran, h));
      })

or-intro : (P : Type 0) (a b : Bool) → (a ≡ true → P) → (b ≡ true → P) → (a || b) ≡ true → P
or-intro P true b f g h = f refl
or-intro P false b f g h = g h

-- A count with one more vote.
pub counted-IsPolled :
    (ms : List Bytes) (cast : Bytes → ℕ → Bytes) (i voter : Bytes) (p : Poll)
    → IsPolled ms cast i p
    → i ≢ []
    → cast voter p.term ≡ i
    → p.heard voter ≡ false
    → IsMember ms voter
    → IsPolled ms cast i
        (record { term = p.term; votes = p.votes + 1; heard = λ v. same v voter || p.heard v })
counted-IsPolled ms cast i voter p q some_one voted new member =
    let heard : Bytes → Bool = λ v. same v voter || p.heard v in
    let sum =
      count-disjoint (λ v. same v voter) p.heard heard ms
        (λ v h. (subst (λ x. p.heard x ≡ false) (sym (same-lem v voter h)) new, ground arith))
        (λ v h. ground arith) in
    record {
      backed = λ v h.
          or-intro ((i ≢ []) × (cast v p.term ≡ i)) (same v voter) (p.heard v)
            (λ is. (some_one, subst (λ x. cast x p.term ≡ i) (sym (same-lem v voter is)) voted))
            (q.backed v) h;
      tally = omega (arith, sum, q.tally, member);
    }
