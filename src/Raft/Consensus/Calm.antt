-- ===== src/Raft/Consensus/Calm.antt =====
-- The steps that leave the logs alone, raft/election.go, raft/replication.go and raft/persist.go,
-- and what the nodes know.
use distqueue.Base.{
  ℕ, ◌≤◌, ◌<◌, ◌≡◌, ◌⊎◌, inl, inr, refl, sym, subst, ap, ◌∙◌, List, [], arith, Bytes, length, some,
  get_or,
}
use distqueue.Base.Maps.{IsMap, get}
use distqueue.Raft.{Node, LogEntry, leader, last_index, last_term, no_entry, last_entry}
use distqueue.Raft.Replication.{index_of}
use distqueue.Raft.Applying.{Applying-IsFed, IsFed-Stays}
use distqueue.Raft.Lifecycle.{Applying, new_node, read_persist, blank}
use distqueue.Raft.Safety.{IsSaved}
use distqueue.Raft.Roles.{Stays, restart-Stays}
use distqueue.Raft.Cluster.{IsMember, with_node}
use distqueue.Raft.Cluster.Moves.{restart-Keeps}
use distqueue.Raft.Consensus.{System, History, restarted}
use distqueue.Raft.Consensus.Logs.{at}
use distqueue.Raft.Consensus.Matched.{IsMatched}
use distqueue.Raft.Consensus.Quiet.{restart-log}
use distqueue.Raft.Consensus.Facts.{MayCommit, Holds, IsKnowing, IsAgreed}
use distqueue.Raft.Consensus.Onward.{Onward-refl}
use distqueue.Raft.Consensus.Frame.{moved-IsAgreed}
use distqueue.Raft.Consensus.Votes.{IsUnvoted, restart-IsUnvoted}
use distqueue.Raft.Consensus.Backing.{with_node-cast}

Holds-later :
    (h : History) (n n' : Node) (t k : ℕ)
    → n'.log ≡ n.log
    → n.current_term ≤ n'.current_term
    → Holds h n t k
    → Holds h n' t k
Holds-later h n n' t k log later (inl held) =
    inl (subst (λ xs. (k < length xs) × ((at xs k).term ≡ t)) (sym log) held)
Holds-later h n n' t k log later (inr (u, after, in_time, lacks)) =
    inr (u, after, omega arith, lacks)

-- A node with the same log, in the same role or none.
pub calm-IsKnowing :
    (ms : List Bytes) (h : History) (i : Bytes) (n n' : Node)
    → IsKnowing ms h i n
    → Stays n n'
    → n.current_term ≤ n'.current_term
    → n'.log ≡ n.log
    → MayCommit ms h n.log n'.current_term n'.commit_index
    → IsMap n'.match_index
    → ((p : Bytes) → 0 < index_of n'.match_index p → (p ≡ i) ⊎ IsMember n.peers p)
    → (n'.state ≡ leader → (p : Bytes) → index_of n'.match_index p ≤ h.shared p n'.current_term)
    → IsKnowing ms h i n'
calm-IsKnowing ms h i n n' k stays later log commit map peers matches = record {
  held = λ t x had.
      let (in_time, holds) = k.held t x had in
      (omega arith, Holds-later h n n' t x log later holds);
  commit = subst (λ xs. MayCommit ms h xs n'.current_term n'.commit_index) (sym log) commit;
  map = map;
  peers = λ p far. elim (peers p far) [
    | inl e ↦ inl e
    | inr peer ↦ inr (subst (λ ps. IsMember ps p) (sym stays.peers) peer)
  ];
  members = λ p peer. k.members p (subst (λ ps. IsMember ps p) stays.peers peer);
  leads_member = λ leads. k.leads_member (stays.leads leads).0;
  runs_member = λ runs. k.runs_member (stays.runs runs).0;
  matches = matches;
  runs = λ runs.
      let (ran, term) = stays.runs runs in
      subst (λ t. h.ran i t ≡ (last_index n', last_term n')) (sym term)
        (subst
          (λ (xs : List LogEntry).
            h.ran i n.current_term ≡ ((last_entry xs).index, (last_entry xs).term))
          (sym log) (k.runs ran));
}

pub MayCommit-later :
    (ms : List Bytes) (h : History) (log : List LogEntry) (now now' x : ℕ)
    → now ≤ now'
    → MayCommit ms h log now x
    → MayCommit ms h log now' x
MayCommit-later ms h log now now' x later (inl none_yet) = inl none_yet
MayCommit-later ms h log now now' x later (inr j) = inr (record {
  index = j.index;
  term = j.term;
  committed = j.committed;
  within = j.within;
  in_time = omega (arith, j.in_time);
  has = j.has;
})

-- The node also has the commit index and the indices of its peers that it had.
pub same-IsKnowing :
    (ms : List Bytes) (h : History) (i : Bytes) (n n' : Node)
    → IsKnowing ms h i n
    → Stays n n'
    → n.current_term ≤ n'.current_term
    → n'.log ≡ n.log
    → n'.commit_index ≡ n.commit_index
    → n'.match_index ≡ n.match_index
    → IsKnowing ms h i n'
same-IsKnowing ms h i n n' k stays later log commit match =
    calm-IsKnowing ms h i n n' k stays later log
      (subst (MayCommit ms h n.log n'.current_term) (sym commit)
        (MayCommit-later ms h n.log n.current_term n'.current_term n.commit_index later k.commit))
      (subst IsMap (sym match) k.map)
      (subst (λ m. (p : Bytes) → 0 < index_of m p → (p ≡ i) ⊎ IsMember n.peers p) (sym match)
        k.peers)
      (λ leads p.
        let (led, term) = stays.leads leads in
        subst (λ m. index_of m p ≤ h.shared p n'.current_term) (sym match)
          (subst (λ t. index_of n.match_index p ≤ h.shared p t) (sym term) (k.matches led p)))

pub no_match : IsMap {V = ℕ} []
unfolding IsMap
no_match = tt

pub none_match : (p : Bytes) → index_of [] p ≡ 0
unfolding get
none_match p = refl

module _ (ms : List Bytes) (s : System) (m : IsMatched ms s) (a : IsAgreed ms s) (i : Bytes) where
  -- A node that has no new vote moves on.
  pub calm-IsAgreed :
      (n : Node)
      → (s.cluster.nodes i).current_term ≤ n.current_term
      → IsUnvoted (s.cluster.nodes i) n
      → IsKnowing ms s.past i n
      → IsAgreed ms (record s { cluster = with_node s.cluster i n })
  unfolding with_node
  calm-IsAgreed n later unvoted knows =
      moved-IsAgreed ms s m a i n (with_node s.cluster i n) s.past refl later
        (Onward-refl i (s.cluster.nodes i) s.past) a.counted knows
        (λ v t voted. inl (with_node-cast s.cluster i n v t (m.sound.past i) unvoted voted))
        (λ t v led backs. inr (a.backed t v led backs))

  pub fed-IsAgreed :
      (n : Node)
      → Applying (s.cluster.nodes i) n
      → IsAgreed ms (record s { cluster = with_node s.cluster i n })
  fed-IsAgreed n applying =
      let old = s.cluster.nodes i in
      let fed = Applying-IsFed old n applying in
      let term = ap (λ (x : Node). x.current_term) fed in
      calm-IsAgreed n (omega (arith, term)) (inr (ap (λ (x : Node). x.voted_for) fed, term)) (
        same-IsKnowing ms s.past i old n (a.knows i) (IsFed-Stays old n fed) (omega (arith, term))
          (ap (λ (x : Node). x.log) fed) (ap (λ (x : Node). x.commit_index) fed)
          (ap (λ (x : Node). x.match_index) fed))

  restart-fresh :
      (n : Node)
      → IsSaved n
      → let n' = new_node n.id n.peers (record { state_file = some n.disk; snapshot_file = [] }) in
        (n'.commit_index ≡ (at n.log 0).index) × (n'.match_index ≡ [])
  unfolding new_node read_persist blank
  restart-fresh n saved = (ap (λ d. (get_or d.log 0 no_entry).index) saved, refl)

  pub restarted-IsAgreed : IsAgreed ms (restarted s i)
  unfolding restarted
  restarted-IsAgreed =
      let n = s.cluster.nodes i in
      let n' = new_node n.id n.peers (record { state_file = some n.disk; snapshot_file = [] }) in
      let saved = (m.sound.elected i).saved in
      let node = m.node i in
      let (commit, match) = restart-fresh n saved in
      let later = (restart-Keeps n [] saved).grows in
      calm-IsAgreed n' later (restart-IsUnvoted n saved) (
        calm-IsKnowing ms s.past i n n' (a.knows i) (restart-Stays n []) later (restart-log n saved)
          (inl (commit ∙ node.told.index 0 node.some_entry)) (subst IsMap (sym match) no_match)
          (λ p far. absurd (omega (arith, far, ap (λ x. index_of x p) match, none_match p)))
          (λ _ p. omega (arith, ap (λ x. index_of x p) match, none_match p)))
