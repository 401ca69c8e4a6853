-- ===== src/Raft/Consensus/Committed.antt =====
-- What the nodes of a cluster have committed, raft/raft.go, raft/election.go and
-- raft/replication.go.
use distqueue.Base.{
  ℕ, ◌≤◌, ◌<◌, ◌≡◌, inl, inr, sym, subst, List, arith, Bytes, length, get_or, dec_le,
}
use distqueue.Raft.{LogEntry, leader, no_entry}
use distqueue.Raft.Consensus.{
  System, Move, Course, campaigns, answers, takes_in, proposes, sends, appends, hears, feeds,
  restarts, start, move, new_system, campaigned, answered, heard, restarted,
}
use distqueue.Raft.Consensus.Logs.{Agree, Agree-refl, Agree-sym, Agree-trans, Agree-lower}
use distqueue.Raft.Consensus.Matched.{IsMatched}
use distqueue.Raft.Consensus.Matches.{new_system-IsMatched}
use distqueue.Raft.Consensus.Facts.{IsJustified, MayCommit, IsAgreed}
use distqueue.Raft.Consensus.Completeness.{complete-Agree, IsCommitted-inside}
use distqueue.Raft.Consensus.Onward.{Onward, Onward-refl, MayCommit-Onward}
use distqueue.Raft.Consensus.Running
use distqueue.Raft.Consensus.Taking.{appended-Onward}
use distqueue.Raft.Consensus.Proposing.{proposed-Onward}
use distqueue.Raft.Consensus.Winners.{taken_in-Onward}
use distqueue.Raft.Consensus.Agreement.{Course-IsAgreed, IsConfig, new_system-IsAgreed}

-- In each step one node moves on.
Move-Onward :
    (ms : List Bytes) (s t : System)
    → Move ms s t
    → IsMatched ms s
    → IsAgreed ms s
    → (i : Bytes) × Onward i (s.cluster.nodes i) s.past t.past
unfolding answered heard restarted campaigned
Move-Onward ms s _ (campaigns _ i member some_one) m a = (i, Running.onward ms s m a i)
Move-Onward ms s _ (answers _ j args asked) m a = (j, Onward-refl j (s.cluster.nodes j) s.past)
Move-Onward ms s _ (takes_in _ b votes sent member once) m a =
    (b.candidate, taken_in-Onward ms s b votes m a sent member once)
Move-Onward ms s _ (proposes _ i command) m a = (i, proposed-Onward ms s i command m a)
Move-Onward ms s _ (sends _ i peer args sent) m a = (i, Onward-refl i (s.cluster.nodes i) s.past)
Move-Onward ms s _ (appends _ i args sent) m a = (i, appended-Onward ms s i args m a sent)
Move-Onward ms s _ (hears _ i x sent peer) m a = (i, Onward-refl i (s.cluster.nodes i) s.past)
Move-Onward ms s _ (feeds _ i n applying) m a = (i, Onward-refl i (s.cluster.nodes i) s.past)
Move-Onward ms s _ (restarts _ i) m a = (i, Onward-refl i (s.cluster.nodes i) s.past)

-- What was committed in a log stays committed.
Course-MayCommit :
    (ms : List Bytes) (s t : System) (log : List LogEntry) (now c : ℕ)
    → Course ms s t
    → IsMatched ms s × IsAgreed ms s
    → MayCommit ms s.past log now c
    → MayCommit ms t.past log now c
Course-MayCommit ms s _ log now c (start _) h k = k
Course-MayCommit ms s t log now c (move _ r _ course d) h k =
    let (m, a) = Course-IsAgreed ms s r course h in
    let (i, onward) = Move-Onward ms r t d m a in
    MayCommit-Onward ms i (r.cluster.nodes i) r.past t.past m.past a.counted onward log log now now
      c (λ j p. Agree-refl log j p) (omega arith) (Course-MayCommit ms s r log now c course h k)

module _ (ms : List Bytes) (s : System) (m : IsMatched ms s) (a : IsAgreed ms s) where
  earlier :
      (xs ys : List LogEntry) (c d k : ℕ) (now later : ℕ)
      → (x : IsJustified ms s.past xs now c) → (y : IsJustified ms s.past ys later d)
      → x.term ≤ y.term
      → k ≤ c
      → k ≤ d
      → Agree xs k ys
  earlier xs ys c d k now later x y order below_c below_d =
      let led : 0 < length (s.past.log_of y.term) =
        omega (arith, IsCommitted-inside ms s.past m.past a.counted y.term y.index y.committed) in
      let whole =
        complete-Agree ms s.past m.past a.counted x.term x.index y.term x.committed order led in
      Agree-trans xs (s.past.log_of x.term) ys k
        (Agree-sym (s.past.log_of x.term) xs k (Agree-lower _ xs c k below_c x.has))
        (Agree-trans (s.past.log_of x.term) (s.past.log_of y.term) ys k
          (Agree-sym (s.past.log_of y.term) (s.past.log_of x.term) k
            (Agree-lower _ _ x.index k (omega (arith, x.within)) whole))
          (Agree-lower _ ys d k below_d y.has))

  -- Two logs with committed entries agree up to there.
  committed-Agree :
      (xs ys : List LogEntry) (c d k now later : ℕ)
      → 0 < k
      → MayCommit ms s.past xs now c
      → MayCommit ms s.past ys later d
      → k ≤ c
      → k ≤ d
      → Agree xs k ys
  committed-Agree xs ys c d k now later positive (inl e) y below_c below_d = absurd (omega arith)
  committed-Agree xs ys c d k now later positive (inr x) (inl e) below_c below_d =
      absurd (omega arith)
  committed-Agree xs ys c d k now later positive (inr x) (inr y) below_c below_d =
      elim (dec_le x.term y.term) [
        | yes order ↦ earlier xs ys c d k now later x y order below_c below_d
        | no order ↦
            Agree-sym ys xs k (earlier ys xs d c k later now y x (omega arith) below_d below_c)
      ]

-- In any course of a cluster of new nodes that keep their whole logs, whose peers are members, for
-- each as many as there are members but itself; where members with an id campaign, nodes answer
-- vote requests, propose, replicate, apply, crash and restart from their files, messages come late,
-- more than once or never, and votes of members are counted once: an index, from 1 on, that one
-- node has committed at some time and a node has committed at that time or later, is in both logs,
-- with the same entry.
pub commits_agree :
    (ms : List Bytes) (peers : Bytes → List Bytes) (s t : System) (i j : Bytes) (k : ℕ)
    → IsConfig ms peers
    → Course ms (new_system peers) s
    → Course ms s t
    → 0 < k
    → k ≤ (s.cluster.nodes i).commit_index
    → k ≤ (t.cluster.nodes j).commit_index
    → (k < length (s.cluster.nodes i).log)
      × (k < length (t.cluster.nodes j).log)
      × (get_or (s.cluster.nodes i).log k no_entry ≡ get_or (t.cluster.nodes j).log k no_entry)
commits_agree ms peers s t i j k config before after positive at_i at_j =
    let h =
      Course-IsAgreed ms _ s before
        (new_system-IsMatched ms peers config.size, new_system-IsAgreed ms peers config) in
    let (m, a) = Course-IsAgreed ms s t after h in
    let agree =
      committed-Agree ms t m a _ _ _ _ k _ _ positive
        (Course-MayCommit ms s t _ _ _ after h (h.1.knows i).commit) (a.knows j).commit at_i at_j in
    (agree.left, agree.right, agree.same k (omega arith))

-- In any course of a cluster of new nodes that keep their whole logs, whose peers are members, for
-- each as many as there are members but itself; where members with an id campaign, nodes answer
-- vote requests, propose, replicate, apply, crash and restart from their files, messages come late,
-- more than once or never, and votes of members are counted once: an entry, from the index 1 on,
-- that a node has committed at some time is in the log of each node that leads then or later in the
-- term that the first node had then or a later one.
pub leaders_have :
    (ms : List Bytes) (peers : Bytes → List Bytes) (s t : System) (i j : Bytes) (k : ℕ)
    → IsConfig ms peers
    → Course ms (new_system peers) s
    → Course ms s t
    → 0 < k
    → k ≤ (s.cluster.nodes i).commit_index
    → (t.cluster.nodes j).state ≡ leader
    → (s.cluster.nodes i).current_term ≤ (t.cluster.nodes j).current_term
    → (k < length (t.cluster.nodes j).log)
      × (get_or (t.cluster.nodes j).log k no_entry ≡ get_or (s.cluster.nodes i).log k no_entry)
leaders_have ms peers s t i j k config before after positive at_i leads later =
    let h =
      Course-IsAgreed ms _ s before
        (new_system-IsMatched ms peers config.size, new_system-IsAgreed ms peers config) in
    let (m, a) = Course-IsAgreed ms s t after h in
    let (_, whole, _) = (m.node j).led leads in
    elim (Course-MayCommit ms s t _ _ _ after h (h.1.knows i).commit) [
      | inl none_yet ↦ absurd (omega arith)
      | inr x ↦
          let n = t.cluster.nodes j in
          let led : 0 < length (t.past.log_of n.current_term) =
            subst (λ xs. 0 < length xs) (sym whole) (m.node j).some_entry in
          let has : Agree n.log x.index (t.past.log_of x.term) =
            subst (λ xs. Agree xs x.index (t.past.log_of x.term)) whole
              (complete-Agree ms t.past m.past a.counted x.term x.index n.current_term x.committed
                (omega (arith, x.in_time)) led) in
          let log = (s.cluster.nodes i).log in
          let same : Agree n.log k log =
            Agree-trans n.log (t.past.log_of x.term) log k
              (Agree-lower n.log _ x.index k (omega (arith, x.within)) has)
              (Agree-lower _ log _ k at_i x.has) in
          (same.left, same.same k (omega arith))
    ]
