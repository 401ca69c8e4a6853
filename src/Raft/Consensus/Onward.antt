-- ===== src/Raft/Consensus/Onward.antt =====
-- What is known of committed entries while a node of the cluster moves on, raft/replication.go
-- and raft/election.go.
use distqueue.Base.{
  ℕ, ◌≤◌, ◌<◌, ◌≡◌, ◌≢◌, ◌⊎◌, inl, inr, refl, sym, ap, ◌∙◌, List, leb, arith, Bytes, length,
  count_mono,
}
use distqueue.Raft.{Node, LogEntry}
use distqueue.Raft.Consensus.{History}
use distqueue.Raft.Consensus.Logs.{at, Agree, Agree-refl, Agree-sym, Agree-trans}
use distqueue.Raft.Consensus.Histories.{IsHistory, Extends, Grows}
use distqueue.Raft.Consensus.Facts.{
  IsShared, IsCommitted, Lacks, Covers, near, over, Backs, IsCounted, MayCommit, Holds, IsKnowing,
}
use distqueue.Raft.Consensus.Completeness.{IsCommitted-inside}

-- The node `i`, which was `n`, has moved on, and the history is `h'`.
pub record Onward (i : Bytes) (n : Node) (h h' : History) : Type 0 where
  pub logs : Grows h.log_of h'.log_of
  pub starts : (t : ℕ) → 0 < length (h.log_of t) → h'.start_of t ≡ h.start_of t
  pub up : (v : Bytes) (t : ℕ) → h.shared v t ≤ h'.shared v t
  pub same : (v : Bytes) (t : ℕ) → (i ≢ v) ⊎ (t < n.current_term) → h'.shared v t ≡ h.shared v t
  pub ran : (v : Bytes) (t : ℕ) → (i ≢ v) ⊎ (t ≤ n.current_term) → h'.ran v t ≡ h.ran v t

pub Onward-refl : (i : Bytes) (n : Node) (h : History) → Onward i n h h
Onward-refl i n h = record {
  logs = λ t k p. Agree-refl (h.log_of t) k p;
  starts = λ _ _. refl;
  up = λ _ _. omega arith;
  same = λ _ _ _. refl;
  ran = λ _ _ _. refl;
}

module _ (ms : List Bytes) (i : Bytes) (n : Node) (h h' : History) (a : IsHistory h.log_of)
    (c : IsCounted ms h) (o : Onward i n h h') where
  pub IsShared-back :
      (v : Bytes) (t k : ℕ) → h'.shared v t ≡ h.shared v t → IsShared h' v t k → IsShared h v t k
  IsShared-back v t k same (positive, own, had) =
      let led : 0 < length (h.log_of t) = elim (c.bound v t) [
        | inl none_had ↦ absurd (omega (arith, same, none_had, positive, had))
        | inr inside ↦ omega (arith, inside)
      ] in
      (positive, omega (arith, own, o.starts t led), omega (arith, had, same))

  pub IsCommitted-Onward : (k t : ℕ) → IsCommitted ms h k t → IsCommitted ms h' k t
  IsCommitted-Onward k t m =
      let inside = IsCommitted-inside ms h a c t k m in
      record {
        positive = m.positive;
        own = omega (arith, m.own, o.starts t (omega (arith, inside)));
        most =
            let more =
              count_mono (λ v. leb k (h.shared v t)) (λ v. leb k (h'.shared v t)) ms
                (λ v had. ground (arith, o.up v t)) in
            omega (arith, more, m.most);
      }

  entry-Onward : (t k : ℕ) → k < length (h.log_of t) → at (h'.log_of t) k ≡ at (h.log_of t) k
  entry-Onward t k inside = sym ((o.logs t k inside).same k (omega arith))

  pub Lacks-Onward : (u t k : ℕ) → 0 < u → Lacks h u t k → Lacks h' u t k
  Lacks-Onward u t k positive (led, lacks) =
      let (_, grown, _) = c.starts u positive led in
      let start = o.starts u led in
      (
        omega (arith, (o.logs u 0 led).right),
        λ early term. lacks (omega (arith, early, start)) (
            ap (λ (e : LogEntry). e.term)
              (sym (entry-Onward u k (omega (arith, early, start, grown))))
            ∙ term),
      )

  Covers-Onward : (t' : ℕ) (r : ℕ × ℕ) (t k : ℕ) → Covers h t' r t k → Covers h' t' r t k
  Covers-Onward t' r t k (near u l far inside here own term later) =
      near u l far inside (o.logs u l here).right
        (omega (arith, own, o.starts u (omega (arith, here))))
        (ap (λ (e : LogEntry). e.term) (entry-Onward u k (omega arith)) ∙ term) later
  Covers-Onward t' r t k (over u after before lacks) =
      over u after before (Lacks-Onward u t k (omega arith) lacks)

  -- The voter has had nothing more of the earlier leaders.
  pub Backs-same :
      (v : Bytes) (r : ℕ × ℕ) (t' : ℕ)
      → ((t : ℕ) → t < t' → h'.shared v t ≡ h.shared v t)
      → Backs h v r t'
      → Backs h' v r t'
  Backs-same v r t' same b t k before had =
      Covers-Onward t' r t k (b t k before (IsShared-back v t k (same t before) had))

  -- The term of the vote has not passed for the node.
  pub Backs-Onward :
      (v : Bytes) (r : ℕ × ℕ) (t' : ℕ)
      → (i ≢ v) ⊎ (t' ≤ n.current_term)
      → Backs h v r t'
      → Backs h' v r t'
  Backs-Onward v r t' when = Backs-same v r t' (λ t before.
      o.same v t (elim when [ inl other ↦ inl other | inr in_time ↦ inr (omega arith) ]))

  pub MayCommit-Onward :
      (log log' : List LogEntry) (now now' x : ℕ)
      → Extends log log'
      → now ≤ now'
      → MayCommit ms h log now x
      → MayCommit ms h' log' now' x
  MayCommit-Onward log log' now now' x longer later (inl none_yet) = inl none_yet
  MayCommit-Onward log log' now now' x longer later (inr j) = inr (record {
    index = j.index;
    term = j.term;
    committed = IsCommitted-Onward j.index j.term j.committed;
    within = j.within;
    in_time = omega (arith, j.in_time);
    has =
        Agree-trans (h'.log_of j.term) (h.log_of j.term) log' x
          (Agree-sym (h.log_of j.term) (h'.log_of j.term) x (o.logs j.term x j.has.left))
          (Agree-trans (h.log_of j.term) log log' x j.has (longer x j.has.right));
  })

  pub Holds-Onward :
      (m m' : Node) (t k : ℕ)
      → ((j : ℕ) → j < length m.log → Agree m.log j m'.log)
      → m.current_term ≤ m'.current_term
      → Holds h m t k
      → Holds h' m' t k
  Holds-Onward m m' t k longer later (inl (inside, term)) =
      let kept = longer k inside in
      inl (kept.right, ap (λ (e : LogEntry). e.term) (sym (kept.same k (omega arith))) ∙ term)
  Holds-Onward m m' t k longer later (inr (u, after, in_time, lacks)) =
      inr (u, after, omega arith, Lacks-Onward u t k (omega arith) lacks)

  -- The other nodes know what they knew.
  pub other-IsKnowing : (j : Bytes) (m : Node) → i ≢ j → IsKnowing ms h j m → IsKnowing ms h' j m
  other-IsKnowing j m other k = record {
    held = λ t x had.
        let (in_time, holds) = k.held t x (IsShared-back j t x (o.same j t (inl other)) had) in
        (in_time, Holds-Onward m m t x (λ y p. Agree-refl m.log y p) (omega arith) holds);
    commit =
        MayCommit-Onward m.log m.log m.current_term m.current_term m.commit_index
          (λ y p. Agree-refl m.log y p) (omega arith) k.commit;
    map = k.map;
    peers = k.peers;
    members = k.members;
    leads_member = k.leads_member;
    runs_member = k.runs_member;
    matches = λ leads p. omega (arith, k.matches leads p, o.up p m.current_term);
    runs = λ runs. o.ran j m.current_term (inl other) ∙ k.runs runs;
  }
