-- ===== src/Raft/Consensus/Frame.antt =====
-- One node of the cluster moves on, raft/replication.go and raft/election.go, and the others do not.
use distqueue.Base.{
  ℕ, ◌+◌, ◌≤◌, ◌<◌, ◌≡◌, ◌≢◌, ◌⊎◌, inl, inr, sym, subst, ◌∙◌, true, List, [], arith, Bytes, length,
  bytes_discrete, dec_lt,
}
use distqueue.Raft.{Node}
use distqueue.Raft.Cluster.{Cluster, update, update-intro}
use distqueue.Raft.Consensus.{System, History}
use distqueue.Raft.Consensus.Logs.{at}
use distqueue.Raft.Consensus.Matched.{IsMatched}
use distqueue.Raft.Consensus.Facts.{Backs, IsCounted, IsKnowing, IsAgreed}
use distqueue.Raft.Consensus.Onward.{Onward, Backs-Onward, MayCommit-Onward, other-IsKnowing}

-- A term that has not passed for `v` has not passed for `i`, or they are apart.
pub in_time_or_other :
    (nodes : Bytes → Node) (i v : Bytes) (t : ℕ)
    → t ≤ (nodes v).current_term
    → (i ≢ v) ⊎ (t ≤ (nodes i).current_term)
in_time_or_other nodes i v t in_time = elim (bytes_discrete i v) [
  | no other ↦ inl other
  | yes same ↦ inr (subst (λ x. t ≤ (nodes x).current_term) (sym same) in_time)
]

module _ (ms : List Bytes) (s : System) (m : IsMatched ms s) (a : IsAgreed ms s) (i : Bytes) where
  -- The voters of a leader had the logs that they had.
  pub kept_votes :
      (h' : History) (t : ℕ) (v : Bytes)
      → Onward i (s.cluster.nodes i) s.past h'
      → 0 < t
      → 0 < length (s.past.log_of t)
      → s.past.backers t v ≡ true
      → Backs h' v (h'.ran (s.past.leader_of t) t) t
  kept_votes h' t v o positive led backs =
      let nodes = s.cluster.nodes in
      let w = s.past.leader_of t in
      subst (λ r. Backs h' v r t)
        (sym (o.ran w t (in_time_or_other nodes i w t (m.led t positive led).0)))
        (Backs-Onward ms i (nodes i) s.past h' m.past a.counted o v (s.past.ran w t) t
          (in_time_or_other nodes i v t (a.backed t v led backs))
          (a.counted.backs t v positive led backs))

  pub starts-Onward :
      (h' : History) (t : ℕ)
      → Onward i (s.cluster.nodes i) s.past h'
      → 0 < t
      → 0 < length (s.past.log_of t)
      → let r = h'.ran (s.past.leader_of t) t in
        (s.past.start_of t ≡ r.0 + 1)
        × (s.past.start_of t < length (s.past.log_of t))
        × ((at (s.past.log_of t) r.0).term ≡ r.1)
  starts-Onward h' t o positive led =
      let w = s.past.leader_of t in
      let when = in_time_or_other s.cluster.nodes i w t (m.led t positive led).0 in
      subst
        (λ (r : ℕ × ℕ).
          (s.past.start_of t ≡ r.0 + 1)
          × (s.past.start_of t < length (s.past.log_of t))
          × ((at (s.past.log_of t) r.0).term ≡ r.1))
        (sym (o.ran w t when)) (a.counted.starts t positive led)

  -- The logs of the leaders have not changed.
  pub same-IsCounted :
      (ran : Bytes → ℕ → ℕ × ℕ) (shared : Bytes → ℕ → ℕ)
      → Onward i (s.cluster.nodes i) s.past (record s.past { ran = ran; shared = shared })
      → ((v : Bytes) (t : ℕ) → (shared v t ≡ 0) ⊎ (shared v t < length (s.past.log_of t)))
      → IsCounted ms (record s.past { ran = ran; shared = shared })
  same-IsCounted ran shared o bound = record {
    starts = λ t positive led. starts-Onward _ t o positive led;
    origin = a.counted.origin;
    old = a.counted.old;
    new = a.counted.new;
    bound = bound;
    most = a.counted.most;
    backs = λ t v positive led backs. kept_votes _ t v o positive led backs;
  }

  -- A vote is of a term that the voter has reached.
  pub vote_in_time :
      (v : Bytes) (t : ℕ) → s.cluster.cast v t ≢ [] → t ≤ (s.cluster.nodes v).current_term
  vote_in_time v t voted = elim (dec_lt (s.cluster.nodes v).current_term t) [
    | yes beyond ↦ absurd (voted ((m.sound.past v).future t beyond))
    | no in_time ↦ omega arith
  ]

  -- The node is `n`, the cluster `c` and the history `h'`.
  pub moved-IsAgreed :
      (n : Node) (c : Cluster) (h' : History)
      → c.nodes ≡ update s.cluster.nodes i n
      → (s.cluster.nodes i).current_term ≤ n.current_term
      → Onward i (s.cluster.nodes i) s.past h'
      → IsCounted ms h'
      → IsKnowing ms h' i n
      → ((v : Bytes) (t : ℕ)
          → c.cast v t ≢ []
          → (c.cast v t ≡ s.cluster.cast v t)
            ⊎ ((t ≤ (update s.cluster.nodes i n (c.cast v t)).current_term)
                × ((0 < length (h'.log_of t)) ⊎ Backs h' v (h'.ran (c.cast v t) t) t)))
      → ((t : ℕ) (v : Bytes)
          → 0 < length (h'.log_of t)
          → h'.backers t v ≡ true
          → (t ≤ n.current_term × (i ≡ v)) ⊎ (t ≤ (s.cluster.nodes v).current_term))
      → IsAgreed ms (record s { cluster = c; past = h' })
  moved-IsAgreed n c h' nodes later o counted knows cast backed =
      let old = s.cluster.nodes in
      let onward : (v : Bytes) (t : ℕ) → t ≤ (old v).current_term → t ≤ (c.nodes v).current_term =
        λ v t in_time.
          subst (λ f. t ≤ (f v).current_term) (sym nodes)
            (update-intro (λ (x : Node). t ≤ x.current_term) old i n v
              (λ e. omega (arith, later, subst (λ x. t ≤ (old x).current_term) (sym e) in_time))
              (λ _. in_time)) in
      record {
        counted = counted;
        knows = λ j.
            subst (λ f. IsKnowing ms h' j (f j)) (sym nodes)
              (update-intro (IsKnowing ms h' j) old i n j
                (λ e. subst (λ x. IsKnowing ms h' x n) e knows)
                (λ other.
                  other-IsKnowing ms i (old i) s.past h' m.past a.counted o j (old j) other
                    (a.knows j)));
        cast = λ v t voted. elim (cast v t voted) [
          | inr new ↦ (subst (λ f. t ≤ (f (c.cast v t)).current_term) (sym nodes) new.0, new.1)
          | inl same ↦
              let voted' : s.cluster.cast v t ≢ [] = λ e. voted (same ∙ e) in
              let (in_time, backs) = a.cast v t voted' in
              let own_time : t ≤ (old v).current_term = vote_in_time v t voted' in
              subst
                (λ w.
                  (t ≤ (c.nodes w).current_term)
                  × ((0 < length (h'.log_of t)) ⊎ Backs h' v (h'.ran w t) t))
                (sym same)
                (
                  onward (s.cluster.cast v t) t in_time,
                  elim backs [
                    | inl led ↦ inl (omega (arith, (o.logs t 0 led).right))
                    | inr b ↦ inr (
                        subst (λ r. Backs h' v r t)
                          (sym (
                            o.ran (s.cluster.cast v t) t
                              (in_time_or_other old i (s.cluster.cast v t) t in_time)))
                          (Backs-Onward ms i (old i) s.past h' m.past a.counted o v _ t
                            (in_time_or_other old i v t own_time) b))
                  ],
                )
        ];
        backed = λ t v led backs. elim (backed t v led backs) [
          | inl new ↦
              subst (λ f. t ≤ (f v).current_term) (sym nodes)
                (update-intro (λ (x : Node). t ≤ x.current_term) old i n v (λ _. new.0)
                  (λ other. absurd (other new.1)))
          | inr before ↦ onward v t before
        ];
        commits = λ args sent.
            MayCommit-Onward ms i (old i) s.past h' m.past a.counted o _ _ args.term args.term
              args.leader_commit (o.logs args.term) (omega arith) (a.commits args sent);
        answered =
            λ x sent success. omega (arith, a.answered x sent success, o.up x.peer x.args.term);
        asked = λ args sent.
            let (ran, in_time) = a.asked args sent in
            let w = args.candidate_id in
            (
              o.ran w args.term (in_time_or_other old i w args.term in_time) ∙ ran,
              onward w args.term in_time,
            );
      }
