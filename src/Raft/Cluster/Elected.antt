-- ===== src/Raft/Cluster/Elected.antt =====
-- What makes a node a candidate or a leader, raft/election.go: the votes that back it.
use distqueue.Base.{
  ℕ, ◌+◌, ◌*◌, ◌<◌, ◌≤◌, ◌≡◌, ◌≢◌, refl, sym, ◌∙◌, subst, true, List, [], Bytes, bytes_discrete,
  count, length, arith, count_mono,
}
use distqueue.Raft.{Node, leader, candidate}
use distqueue.Raft.Safety.{IsSaved, Keeps}
use distqueue.Raft.Roles.{Stays}
use distqueue.Raft.Cluster.{
  Cluster, Poll, Ballot, IsSent, record_vote, update-intro, update-intro₂, with_node, same,
  same-lem,
}
use distqueue.Raft.Cluster.Ballots.{IsPast, Grows, record_vote-IsPast, record_vote-Grows}

-- How many members have voted for `i` in a term.
abbrev pub votes_for : List Bytes → (Bytes → ℕ → Bytes) → Bytes → ℕ → ℕ
votes_for ms cast i t = count (λ v. same (cast v t) i) ms

-- What makes a node that runs or leads entitled to it.
pub record IsElected (ms : List Bytes) (cast : Bytes → ℕ → Bytes) (p : Poll) (i : Bytes) (n : Node)
    : Type 0 where
  pub id : n.id ≡ i
  pub size : length n.peers + 1 ≡ length ms
  pub saved : IsSaved n
  pub ran : n.state ≡ candidate → p.term ≡ n.current_term
  pub led : n.state ≡ leader → (i ≢ []) × (length ms < 2 * votes_for ms cast i n.current_term)

-- The count of an election, backed by votes.
pub record IsPolled (ms : List Bytes) (cast : Bytes → ℕ → Bytes) (i : Bytes) (p : Poll)
    : Type 0 where
  pub backed : (v : Bytes) → p.heard v ≡ true → (i ≢ []) × (cast v p.term ≡ i)
  pub tally : p.votes ≤ count p.heard ms

abbrev pub IsCast : (Bytes → ℕ → Bytes) → Ballot → Type 0
IsCast cast b =
    b.reply.vote_granted ≡ true → (b.candidate ≢ []) × (cast b.voter b.term ≡ b.candidate)

pub record IsSound (ms : List Bytes) (c : Cluster) : Type 0 where
  pub past : (i : Bytes) → IsPast (c.cast i) (c.nodes i)
  pub elected : (i : Bytes) → IsElected ms c.cast (c.polls i) i (c.nodes i)
  pub polled : (i : Bytes) → IsPolled ms c.cast i (c.polls i)
  pub sent : (b : Ballot) → IsSent c.ballots b → IsCast c.cast b

abbrev pub Grow : (Bytes → ℕ → Bytes) → (Bytes → ℕ → Bytes) → Type 0
Grow cast cast' = (v : Bytes) → Grows (cast v) (cast' v)

pub votes_for-Grow :
    (ms : List Bytes) (cast cast' : Bytes → ℕ → Bytes) (i : Bytes) (t : ℕ)
    → i ≢ []
    → Grow cast cast'
    → votes_for ms cast i t ≤ votes_for ms cast' i t
votes_for-Grow ms cast cast' i t e g =
    count_mono _ _ ms (λ v h. let is = same-lem (cast v t) i h in ground (arith, g v t))

pub IsElected-Grow :
    (ms : List Bytes) (cast cast' : Bytes → ℕ → Bytes) (p : Poll) (i : Bytes) (n : Node)
    → Grow cast cast'
    → IsElected ms cast p i n
    → IsElected ms cast' p i n
IsElected-Grow ms cast cast' p i n g e = record {
  id = e.id;
  size = e.size;
  saved = e.saved;
  ran = e.ran;
  led = λ h.
      let (some_one, most) = e.led h in
      (some_one, omega (arith, most, votes_for-Grow ms cast cast' i n.current_term some_one g));
}

pub IsElected-Stays :
    (ms : List Bytes) (cast : Bytes → ℕ → Bytes) (p : Poll) (i : Bytes) (n n' : Node)
    → Stays n n'
    → Keeps n n'
    → IsElected ms cast p i n
    → IsElected ms cast p i n'
IsElected-Stays ms cast p i n n' s k e = record {
  id = s.id ∙ e.id;
  size = cc (s.peers, e.size);
  saved = k.saved e.saved;
  ran = λ h. let (was, term) = s.runs h in e.ran was ∙ sym term;
  led = λ h.
      let (was, term) = s.leads h in
      subst (λ t. (i ≢ []) × (length ms < 2 * votes_for ms cast i t)) (sym term) (e.led was);
}

pub IsPolled-Grow :
    (ms : List Bytes) (cast cast' : Bytes → ℕ → Bytes) (i : Bytes) (p : Poll)
    → Grow cast cast'
    → IsPolled ms cast i p
    → IsPolled ms cast' i p
IsPolled-Grow ms cast cast' i p g b = record {
  backed = λ v h. let (e, voted) = b.backed v h in (e, ground (arith, g v p.term));
  tally = b.tally;
}

pub IsCast-Grow :
    (cast cast' : Bytes → ℕ → Bytes) (b : Ballot) → Grow cast cast' → IsCast cast b → IsCast cast' b
IsCast-Grow cast cast' b g s = λ h. let (e, voted) = s h in (e, ground (arith, g b.voter b.term))

pub with_node-Grow :
    (c : Cluster) (i : Bytes) (n : Node)
    → IsPast (c.cast i) (c.nodes i)
    → Keeps (c.nodes i) n
    → Grow c.cast (with_node c i n).cast
unfolding with_node
with_node-Grow c i n p k v =
    update-intro (λ past. Grows (c.cast v) past) c.cast i _ v
      (λ e.
        subst (λ w. Grows (c.cast w) (record_vote (c.cast i) n)) e
          (record_vote-Grows (c.cast i) (c.nodes i) n p k))
      (λ _ t _. refl)

-- One node moves on, and perhaps its count.
pub moved-IsSound :
    (ms : List Bytes) (c : Cluster) (i : Bytes) (n : Node) (polls : Bytes → Poll)
    → IsSound ms c
    → Keeps (c.nodes i) n
    → ((j : Bytes) → i ≢ j → polls j ≡ c.polls j)
    → IsElected ms (with_node c i n).cast (polls i) i n
    → IsPolled ms (with_node c i n).cast i (polls i)
    → IsSound ms (record (with_node c i n) { polls = polls })
unfolding with_node
moved-IsSound ms c i n polls s k others e p =
    let cast' = (with_node c i n).cast in
    let g : Grow c.cast cast' = with_node-Grow c i n (s.past i) k in
    record {
      past = λ j.
          update-intro₂ IsPast c.cast c.nodes i _ n j
            (λ _. record_vote-IsPast (c.cast i) (c.nodes i) n (s.past i) k) (s.past j);
      elected = λ j.
          update-intro (IsElected ms cast' (polls j) j) c.nodes i n j
            (λ same_one. subst (λ x. IsElected ms cast' (polls x) x n) same_one e)
            (λ other.
              subst (λ x. IsElected ms cast' x j (c.nodes j)) (sym (others j other))
                (IsElected-Grow ms c.cast cast' (c.polls j) j (c.nodes j) g (s.elected j)));
      polled = λ j. elim (bytes_discrete i j) [
        | yes same_one ↦ subst (λ x. IsPolled ms cast' x (polls x)) same_one p
        | no other ↦
            subst (IsPolled ms cast' j) (sym (others j other))
              (IsPolled-Grow ms c.cast cast' j (c.polls j) g (s.polled j))
      ];
      sent = λ b h. IsCast-Grow c.cast cast' b g (s.sent b h);
    }
