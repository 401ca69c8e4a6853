-- ===== src/Raft/Consensus/Proposing.antt =====
-- A leader proposes, `Propose` of raft/raft.go, and what the nodes know.
use distqueue.Base.{
  ℕ, ◌+◌, ◌-◌, ◌≤◌, ◌<◌, ◌≡◌, ◌⊎◌, inl, inr, refl, sym, subst, ap, ◌∙◌, Bool, List, [], ◌∷◌, arith,
  if-intro, Bytes, length, length-append,
}
use distqueue.Base.Maps.{IsMap, insert, insert-IsMap}
use distqueue.Raft.{Node, leader, is_leader, last_index, persist, propose}
use distqueue.Raft.Replication.{index_of}
use distqueue.Raft.Safety.{propose-Keeps}
use distqueue.Raft.Cluster.{IsMember, with_node}
use distqueue.Raft.Consensus.{System, History, at_term, share, extend, proposed}
use distqueue.Raft.Consensus.Logs.{at, last-IsTold}
use distqueue.Raft.Consensus.Matched.{IsMatched}
use distqueue.Raft.Consensus.Grown.{Leads, propose-Leads}
use distqueue.Raft.Consensus.Facts.{IsKnowing, IsAgreed}
use distqueue.Raft.Consensus.Counting.{insert-intro}
use distqueue.Raft.Consensus.Sharing.{shared_to, shared_to-here, shared_to-up}
use distqueue.Raft.Consensus.Onward.{Onward, Onward-refl}
use distqueue.Raft.Consensus.Frame.{kept_votes}
use distqueue.Raft.Consensus.Votes.{propose-IsUnvoted}
use distqueue.Raft.Consensus.Backing.{with_node-cast}
use distqueue.Raft.Consensus.Calm.{calm-IsAgreed}
use distqueue.Raft.Consensus.Leading.{Entitles, IsThere, Led, led-Onward}
use distqueue.Raft.Consensus.Reigning.{led-IsAgreed}

-- What a proposal leaves as it is, and the index that it notes.
record Notes (n n' : Node) : Type 0 where
  pub peers : n'.peers ≡ n.peers
  pub commit : n'.commit_index ≡ n.commit_index
  pub match : n'.match_index ≡ insert n.match_index n.id (last_index n + 1)

propose-Notes : (n : Node) (command : Bytes) → n.state ≡ leader → Notes n (propose n command).0
unfolding propose persist
propose-Notes n command leads =
    if-intro (λ (r : Node × ℕ × ℕ × Bool). Notes n r.0) (is_leader n.state)
      (λ _. record { peers = refl; commit = refl; match = refl })
      (λ no_leader. absurd (cc (no_leader, ap is_leader leads)))

-- The history once the leader `i` is `n`.
abbrev noted : History → Bytes → Node → History
noted h i n =
    share (record h { log_of = at_term h.log_of n.current_term n.log }) i n.current_term
      (length n.log - 1)

noted-Led :
    (ms : List Bytes) (s : System) (i : Bytes) (n : Node)
    → IsMatched ms s
    → (s.cluster.nodes i).state ≡ leader
    → Leads (s.cluster.nodes i) n
    → Led s i n (noted s.past i n)
unfolding share
noted-Led ms s i n m led leads =
    let (some_term, whole, its) = (m.node i).led led in
    record {
      leads = leads;
      some_term = some_term;
      log = λ j. at_term s.past.log_of (leads.term j) (leads.log j);
      shared = λ j. shared_to s.past.shared i (leads.term j) (length n.log - 1);
      ran = refl;
      starts = λ _ _. refl;
      was = inr whole;
    }

pub proposed-Onward :
    (ms : List Bytes) (s : System) (i command : Bytes)
    → IsMatched ms s
    → IsAgreed ms s
    → Onward i (s.cluster.nodes i) s.past (proposed s i command).past
unfolding proposed extend
proposed-Onward ms s i command m a =
    let n = s.cluster.nodes i in
    let n' = (propose n command).0 in
    if-intro (Onward i n s.past) (is_leader n'.state)
      (λ leads. elim (propose-Leads n command) [
        | inl (same, follows) ↦
            absurd (cc (leads, follows, ap (λ (x : Node). is_leader x.state) same))
        | inr (led, leads) ↦
            led-Onward ms s m a i n' (noted s.past i n') (noted-Led ms s i n' m led leads)
      ])
      (λ _. Onward-refl i n s.past)

pub proposed-IsAgreed :
    (ms : List Bytes) (s : System) (i command : Bytes)
    → IsMatched ms s
    → IsAgreed ms s
    → IsAgreed ms (proposed s i command)
unfolding proposed extend share with_node
proposed-IsAgreed ms s i command m a =
    let c = s.cluster in
    let n = c.nodes i in
    let t = n.current_term in
    let n' = (propose n command).0 in
    let k = a.knows i in
    let later = (propose-Keeps n command).grows in
    let unvoted = propose-IsUnvoted n command in
    let After : History → Type 0 =
      λ h. IsAgreed ms (record s { cluster = with_node c i n'; past = h }) in
    elim (propose-Leads n command) [
      | inl (same, follows) ↦
          if-intro After (is_leader n'.state)
            (λ leads. absurd (cc (leads, follows, ap (λ (x : Node). is_leader x.state) same)))
            (λ _.
              calm-IsAgreed ms s m a i n' later unvoted
                (subst (IsKnowing ms s.past i) (sym same) k))
      | inr (led, leads) ↦
          let (some_term, whole, its) = (m.node i).led led in
          let notes = propose-Notes n command led in
          let (last, _) = last-IsTold s.past.log_of n (m.node i).some_entry (m.node i).told in
          let id = (m.sound.elected i).id in
          let h' : History = noted s.past i n' in
          let d : Led s i n' h' = noted-Led ms s i n' m led leads in
          let some_log : 0 < length (s.past.log_of t) =
            subst (λ xs. 0 < length xs) (sym whole) (m.node i).some_entry in
          let e : Entitles ms h' t n.log = record {
            starts =
                let (start, room, end) = a.counted.starts t some_term some_log in
                (
                  start,
                  omega (arith, room, ap length whole),
                  ap (λ xs. (at xs (s.past.ran (s.past.leader_of t) t).0).term) (sym whole) ∙ end,
                );
            old =
                subst (λ xs. (k : ℕ) → k < length xs → k < s.past.start_of t → (at xs k).term < t)
                  whole (a.counted.old t);
            new =
                subst (λ xs. (k : ℕ) → k < length xs → s.past.start_of t ≤ k → (at xs k).term ≡ t)
                  whole (a.counted.new t);
            most = a.counted.most t some_term some_log;
            backs = λ v backs.
                kept_votes ms s m a i h' t v (led-Onward ms s m a i n' h' d) some_term some_log
                  backs;
          } in
          let there : IsThere t s.past h' = record {
            start = λ _ _. refl;
            leader = λ _ _. refl;
            backers = λ _ _. refl;
          } in
          let own : last_index n + 1 ≤ h'.shared i t =
            subst (λ u. last_index n + 1 ≤ shared_to s.past.shared i u (length n'.log - 1) i t)
              (sym leads.term)
              (omega (
                arith,
                last,
                ap length leads.log,
                length-append n.log (leads.entry ∷ []),
                shared_to-here s.past.shared i t (length n'.log - 1),
              )) in
          let up : (p : Bytes) → s.past.shared p t ≤ h'.shared p t =
            λ p. shared_to-up s.past.shared i n'.current_term (length n'.log - 1) p t in
          if-intro After (is_leader n'.state)
            (λ _.
              led-IsAgreed ms s m a i n' h' d e there (k.leads_member led) notes.peers notes.commit
                (subst IsMap (sym notes.match)
                  (insert-IsMap n.match_index n.id (last_index n + 1) k.map))
                (subst (λ x. (p : Bytes) → 0 < index_of x p → (p ≡ i) ⊎ IsMember n.peers p)
                  (sym notes.match)
                  (λ p.
                    insert-intro (λ y. 0 < y → (p ≡ i) ⊎ IsMember n.peers p) n.match_index n.id _ p
                      (λ e _. inl (sym e ∙ id)) (λ _. k.peers p)))
                (subst (λ x. (p : Bytes) → index_of x p ≤ h'.shared p t) (sym notes.match)
                  (λ p.
                    insert-intro (λ y. y ≤ h'.shared p t) n.match_index n.id _ p
                      (λ e. subst (λ q. last_index n + 1 ≤ h'.shared q t) (sym id ∙ e) own)
                      (λ _. omega (arith, k.matches led p, up p))))
                (with_node c i n') refl
                (λ v u voted. with_node-cast c i n' v u (m.sound.past i) unvoted voted)
                (λ v backs. a.backed t v some_log backs))
            (λ no_leader. absurd (cc (no_leader, ap is_leader leads.state)))
    ]
