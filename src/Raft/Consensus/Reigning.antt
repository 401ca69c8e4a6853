-- ===== src/Raft/Consensus/Reigning.antt =====
-- What the nodes know once a leader has a new entry, raft/election.go and raft/raft.go.
use distqueue.Base.{
  ℕ, ◌-◌, ◌*◌, ◌≤◌, ◌<◌, ◌≡◌, ◌≢◌, ◌⊎◌, inl, inr, sym, subst, ap, ◌∙◌, true, List, [], ◌∷◌, arith,
  Bytes, length, count, ℕ_discrete,
}
use distqueue.Base.Maps.{IsMap}
use distqueue.Raft.{Node}
use distqueue.Raft.Replication.{index_of}
use distqueue.Raft.Cluster.{Cluster, IsMember, update}
use distqueue.Raft.Consensus.{System, History}
use distqueue.Raft.Consensus.Logs.{at, Agree, Agree-append}
use distqueue.Raft.Consensus.Matched.{IsMatched}
use distqueue.Raft.Consensus.Facts.{
  IsShared, IsCounted, Backs, Holds, MayCommit, IsKnowing, IsAgreed,
}
use distqueue.Raft.Consensus.Onward.{Onward, IsShared-back, Holds-Onward, MayCommit-Onward}
use distqueue.Raft.Consensus.Sharing.{shared_to-cases}
use distqueue.Raft.Consensus.Frame.{kept_votes, moved-IsAgreed}
use distqueue.Raft.Consensus.Leading.{
  Entitles, IsThere, Led, led-Onward, log-here, log-there, Starts, Starts-here, Starts-there,
  led-old, led-new, led-bound,
}

module _ (ms : List Bytes) (s : System) (m : IsMatched ms s) (a : IsAgreed ms s) (i : Bytes)
    (n : Node) (h' : History) (d : Led s i n h')
    (e : Entitles ms h' (s.cluster.nodes i).current_term (s.cluster.nodes i).log)
    (there : IsThere (s.cluster.nodes i).current_term s.past h') where
  abbrev old : Node
  old = s.cluster.nodes i

  abbrev t : ℕ
  t = old.current_term

  abbrev onward : Onward i old s.past h'
  onward = led-Onward ms s m a i n h' d

  led-IsCounted : IsCounted ms h'
  unfolding Starts
  led-IsCounted = record {
    starts = λ u positive led. elim (ℕ_discrete t u) [
      | yes now ↦
          subst (λ u. Starts ms s m a i n h' d e there u (h'.log_of u)) now
            (Starts-here ms s m a i n h' d e there)
      | no other ↦
          let same = log-there ms s m a i n h' d u other in
          subst (Starts ms s m a i n h' d e there u) (sym same) (
            Starts-there ms s m a i n h' d e there u other positive
              (subst (λ xs. 0 < length xs) same led))
    ];
    origin = there.start 0 (λ z. absurd (omega (arith, d.some_term))) ∙ a.counted.origin;
    old = led-old ms s m a i n h' d e there;
    new = led-new ms s m a i n h' d e there;
    bound = led-bound ms s m a i n h' d e there;
    most = λ u positive led. elim (ℕ_discrete t u) [
      | yes now ↦ subst (λ u. length ms < 2 * count (h'.backers u) ms) now e.most
      | no other ↦
          subst (λ f. length ms < 2 * count f ms) (sym (there.backers u other))
            (a.counted.most u positive
              (subst (λ xs. 0 < length xs) (log-there ms s m a i n h' d u other) led))
    ];
    backs = λ u v positive led backs. elim (ℕ_discrete t u) [
      | yes now ↦
          subst (λ u. h'.backers u v ≡ true → Backs h' v (h'.ran (h'.leader_of u) u) u) now
            (e.backs v) backs
      | no other ↦
          subst (λ w. Backs h' v (h'.ran w u) u) (sym (there.leader u other))
            (kept_votes ms s m a i h' u v onward positive
              (subst (λ xs. 0 < length xs) (log-there ms s m a i n h' d u other) led)
              (subst (λ f. f v ≡ true) (there.backers u other) backs))
    ];
  }

  longer : (j : ℕ) → j < length old.log → Agree old.log j n.log
  longer =
      subst (λ xs. (j : ℕ) → j < length old.log → Agree old.log j xs) (sym d.leads.log)
        (Agree-append old.log (d.leads.entry ∷ []))

  led-held : (u k : ℕ) → IsShared h' i u k → (u ≤ n.current_term) × Holds h' n u k
  led-held u k (positive, own, had) =
      let before : h'.shared i u ≡ s.past.shared i u → (u ≤ n.current_term) × Holds h' n u k =
        λ same.
          let (in_time, holds) = (a.knows i).held u k (
            IsShared-back ms i old s.past h' m.past a.counted onward i u k same
              (positive, own, had)) in
          (
            omega (arith, d.leads.term),
            Holds-Onward ms i old s.past h' m.past a.counted onward old n u k longer
                (omega (arith, d.leads.term)) holds,
          ) in
      elim (shared_to-cases s.past.shared i t (length n.log - 1) i u) [
        | inr (_, same) ↦ before (ap (λ f. f i u) d.shared ∙ same)
        | inl (_, now, _) ↦
            let inside : k < length (h'.log_of u) = elim (led-bound ms s m a i n h' d e there i u) [
              | inl none_had ↦ absurd (omega arith)
              | inr room ↦ omega arith
            ] in
            let whole : h'.log_of u ≡ n.log =
              subst (λ u. h'.log_of u ≡ n.log) now (log-here ms s m a i n h' d ∙ sym d.leads.log) in
            (
              omega (arith, d.leads.term),
              inl (
                  subst (λ xs. (k < length xs) × ((at xs k).term ≡ u)) whole
                    (inside, led-new ms s m a i n h' d e there u k inside own)),
            )
      ]

  module _ (id : IsMember ms i) (peers : n.peers ≡ old.peers)
      (commit : n.commit_index ≡ old.commit_index) (map : IsMap n.match_index)
      (known : (p : Bytes) → 0 < index_of n.match_index p → (p ≡ i) ⊎ IsMember old.peers p)
      (matches : (p : Bytes) → index_of n.match_index p ≤ h'.shared p t) where
    led-IsKnowing : IsKnowing ms h' i n
    led-IsKnowing = record {
      held = led-held;
      commit = subst (MayCommit ms h' n.log n.current_term) (sym commit) (
          MayCommit-Onward ms i old s.past h' m.past a.counted onward old.log n.log t n.current_term
            old.commit_index longer (omega (arith, d.leads.term)) (a.knows i).commit);
      map = map;
      peers = λ p far. subst (λ ps. (p ≡ i) ⊎ IsMember ps p) (sym peers) (known p far);
      members = λ p peer. (a.knows i).members p (subst (λ ps. IsMember ps p) peers peer);
      leads_member = λ _. id;
      runs_member = λ _. id;
      matches = λ _ p.
          subst (λ u. index_of n.match_index p ≤ h'.shared p u) (sym d.leads.term) (matches p);
      runs = λ runs. absurd (cc (runs, d.leads.state));
    }

    pub led-IsAgreed :
        (c : Cluster)
        → c.nodes ≡ update s.cluster.nodes i n
        → ((v : Bytes) (u : ℕ) → c.cast v u ≢ [] → c.cast v u ≡ s.cluster.cast v u)
        → ((v : Bytes) → h'.backers t v ≡ true → t ≤ (s.cluster.nodes v).current_term)
        → IsAgreed ms (record s { cluster = c; past = h' })
    led-IsAgreed c nodes unvoted in_time =
        moved-IsAgreed ms s m a i n c h' nodes (omega (arith, d.leads.term)) onward led-IsCounted
          led-IsKnowing (λ v u voted. inl (unvoted v u voted))
          (λ u v led backs. inr (elim (ℕ_discrete t u) [
            | yes now ↦
                subst (λ u. h'.backers u v ≡ true → u ≤ (s.cluster.nodes v).current_term) now
                  (in_time v) backs
            | no other ↦
                a.backed u v (subst (λ xs. 0 < length xs) (log-there ms s m a i n h' d u other) led)
                  (subst (λ f. f v ≡ true) (there.backers u other) backs)
          ]))
