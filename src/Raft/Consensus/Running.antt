-- ===== src/Raft/Consensus/Running.antt =====
-- A node runs for an election, `startElectionLocked` of raft/election.go, and what the nodes know.
use distqueue.Base.{
  ℕ, ◌+◌, ◌≤◌, ◌<◌, ◌≡◌, ◌≢◌, ◌⊎◌, inl, inr, refl, sym, subst, ap, ◌∙◌, List, arith, Bytes, length,
  bytes_discrete,
}
use distqueue.Base.Maps.{IsMap}
use distqueue.Raft.{Node, candidate, last_index, last_term, last_entry, persist}
use distqueue.Raft.Replication.{index_of}
use distqueue.Raft.Election.{RequestVoteArgs, start_election}
use distqueue.Raft.Cluster.{IsMember, with_node, with_poll, campaign, update, update-intro}
use distqueue.Raft.Cluster.Moves.{update-here, update-there}
use distqueue.Raft.Consensus.{System, History, at_term, campaigned}
use distqueue.Raft.Consensus.Logs.{Agree, Agree-refl}
use distqueue.Raft.Consensus.Histories.{at_term-here, at_term-there}
use distqueue.Raft.Consensus.Matched.{IsMatched}
use distqueue.Raft.Consensus.Quiet.{start_election-log, start_election-id}
use distqueue.Raft.Consensus.Facts.{Backs, MayCommit, IsKnowing, IsAgreed}
use distqueue.Raft.Consensus.Onward.{Onward, Holds-Onward, Backs-same, MayCommit-Onward}
use distqueue.Raft.Consensus.Frame.{moved-IsAgreed, same-IsCounted}
use distqueue.Raft.Consensus.Backing.{voter-Backs}
use distqueue.Raft.Consensus.Voting.{with_node-cast_cases}

-- What a new candidate is, and what it asks.
record Runs (n n' : Node) (args : RequestVoteArgs) : Type 0 where
  pub term : n'.current_term ≡ n.current_term + 1
  pub sent : args.term ≡ n.current_term + 1
  pub index : args.last_log_index ≡ last_index n
  pub last : args.last_log_term ≡ last_term n
  pub commit : n'.commit_index ≡ n.commit_index
  pub match : n'.match_index ≡ n.match_index
  pub vote : n'.voted_for ≡ n.id
  pub state : n'.state ≡ candidate
  pub peers : n'.peers ≡ n.peers

start_election-Runs : (n : Node) → Runs n (start_election n).0 (start_election n).1
unfolding start_election persist
start_election-Runs n = record {
  term = refl;
  sent = refl;
  index = refl;
  last = refl;
  commit = refl;
  match = refl;
  vote = refl;
  state = refl;
  peers = refl;
}

module _ (ms : List Bytes) (s : System) (m : IsMatched ms s) (a : IsAgreed ms s) (i : Bytes) where
  abbrev old : Node
  old = s.cluster.nodes i

  abbrev n' : Node
  n' = (start_election old).0

  abbrev args : RequestVoteArgs
  args = (start_election old).1

  abbrev ran' : Bytes → ℕ → ℕ × ℕ
  ran' =
      update s.past.ran i
        (at_term (s.past.ran i) args.term (args.last_log_index, args.last_log_term))

  abbrev h' : History
  h' = record s.past { ran = ran' }

  ran-here : ran' i args.term ≡ (last_index old, last_term old)
  ran-here =
      let r = start_election-Runs old in
      ap (λ f. f args.term) (update-here s.past.ran i _)
      ∙ at_term-here (s.past.ran i) args.term _
      ∙ (λ j. (r.index j, r.last j))

  ran-sent : ran' i args.term ≡ (args.last_log_index, args.last_log_term)
  ran-sent =
      ap (λ f. f args.term) (update-here s.past.ran i _) ∙ at_term-here (s.past.ran i) args.term _

  ran-there : (v : Bytes) (t : ℕ) → (i ≢ v) ⊎ (t ≤ old.current_term) → ran' v t ≡ s.past.ran v t
  ran-there v t when = elim (bytes_discrete i v) [
    | no other ↦ ap (λ f. f t) (update-there s.past.ran i _ v other)
    | yes same ↦ elim when [
      | inl other ↦ absurd (other same)
      | inr in_time ↦
          let later = (start_election-Runs old).sent in
          subst (λ x. ran' x t ≡ s.past.ran x t) same
            (ap (λ f. f t) (update-here s.past.ran i _)
              ∙ at_term-there (s.past.ran i) args.term _ t (λ e. absurd (omega arith)))
    ]
  ]

  pub onward : Onward i old s.past h'
  onward = record {
    logs = λ t k p. Agree-refl (s.past.log_of t) k p;
    starts = λ _ _. refl;
    up = λ _ _. omega arith;
    same = λ _ _ _. refl;
    ran = ran-there;
  }

  now : n'.current_term ≡ args.term
  now = let r = start_election-Runs old in r.term ∙ sym r.sent

  runs-IsKnowing : IsMember ms i → IsKnowing ms h' i n'
  runs-IsKnowing member =
      let r = start_election-Runs old in
      let k = a.knows i in
      let log = start_election-log old in
      let longer : (j : ℕ) → j < length old.log → Agree old.log j n'.log =
        subst (λ xs. (j : ℕ) → j < length old.log → Agree old.log j xs) (sym log)
          (λ j p. Agree-refl old.log j p) in
      record {
        held = λ t x had.
            let (in_time, holds) = k.held t x had in
            (
              omega (arith, r.term),
              Holds-Onward ms i old s.past h' m.past a.counted onward old n' t x longer
                  (omega (arith, r.term)) holds,
            );
        commit = subst (MayCommit ms h' n'.log n'.current_term) (sym r.commit) (
            MayCommit-Onward ms i old s.past h' m.past a.counted onward old.log n'.log
              old.current_term n'.current_term old.commit_index longer (omega (arith, r.term))
              k.commit);
        map = subst IsMap (sym r.match) k.map;
        peers = λ p far.
            subst (λ ps. (p ≡ i) ⊎ IsMember ps p) (sym r.peers)
              (k.peers p (subst (λ x. 0 < index_of x p) r.match far));
        members = λ p peer. k.members p (subst (λ ps. IsMember ps p) r.peers peer);
        leads_member = λ leads. absurd (cc (leads, r.state));
        runs_member = λ _. member;
        matches = λ leads. absurd (cc (leads, r.state));
        runs = λ _.
            subst (λ t. ran' i t ≡ (last_index n', last_term n')) (sym now)
              (ran-here ∙ (λ j. ((last_entry (sym log j)).index, (last_entry (sym log j)).term)));
      }

  pub campaigned-IsAgreed : IsMember ms i → IsAgreed ms (campaigned s i)
  unfolding campaigned campaign with_node with_poll
  campaigned-IsAgreed member =
      let c = s.cluster in
      let r = start_election-Runs old in
      let voted_id : n'.voted_for ≡ i = r.vote ∙ (m.sound.elected i).id in
      let later : old.current_term ≤ n'.current_term = omega (arith, r.term) in
      let far : (last_term old < (last_term old))
          ⊎ ((last_term old ≡ last_term old) × (last_index old ≤ last_index old)) =
        inr (refl, omega arith) in
      let Entitled : Bytes → ℕ → Bytes → Type 0 = λ v t x.
        (t ≤ (update c.nodes i n' x).current_term)
        × ((0 < length (s.past.log_of t)) ⊎ Backs h' v (ran' x t) t) in
      let entitled : Entitled i n'.current_term i = (
        update-intro (λ (x : Node). n'.current_term ≤ x.current_term) c.nodes i n' i
            (λ _. omega arith) (λ apart. absurd (apart refl)),
        elim (voter-Backs ms s.past i old (last_index old, last_term old) n'.current_term a.counted
            (m.node i) (a.knows i) later far) [
              | inl led ↦ inl led
              | inr backs ↦ inr (
                  subst (λ r. Backs h' i r n'.current_term) (sym (ap (ran' i) now ∙ ran-here))
                    (Backs-same ms i old s.past h' m.past a.counted onward i _ n'.current_term
                      (λ _ _. refl) backs))
            ],
      ) in
      let moved =
        moved-IsAgreed ms s m a i n' (campaign c i) h' refl later onward
          (same-IsCounted ms s m a i ran' s.past.shared onward a.counted.bound)
          (runs-IsKnowing member)
          (λ v t voted. elim (with_node-cast_cases c i n' v t) [
            | inl same ↦ inl same
            | inr (own, its, for) ↦ inr (
                subst (λ x. Entitled v t x) (sym (for ∙ voted_id))
                  (subst (λ x. Entitled x t i) own
                    (subst (λ x. Entitled i x i) (sym its) entitled)))
          ])
          (λ t v led backs. inr (a.backed t v led backs)) in
      record {
        counted = moved.counted;
        knows = moved.knows;
        cast = moved.cast;
        backed = moved.backed;
        commits = moved.commits;
        answered = moved.answered;
        asked = λ x sent. elim sent [
          | inr before ↦ moved.asked x before
          | inl e ↦
              subst
                (λ (x : RequestVoteArgs).
                  (ran' x.candidate_id x.term ≡ (x.last_log_index, x.last_log_term))
                  × (x.term ≤ (update c.nodes i n' x.candidate_id).current_term))
                e
                (subst
                  (λ x.
                    (ran' x args.term ≡ (args.last_log_index, args.last_log_term))
                    × (args.term ≤ (update c.nodes i n' x).current_term))
                  (sym (start_election-id old ∙ (m.sound.elected i).id))
                  (ran-sent, subst (λ t. t ≤ (update c.nodes i n' i).current_term) now entitled.0))
        ];
      }
