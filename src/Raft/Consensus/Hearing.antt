-- ===== src/Raft/Consensus/Hearing.antt =====
-- A leader hears of copies and commits, `sendAppendEntries` and `advanceCommitLocked` of
-- raft/replication.go, and what the nodes know.
use distqueue.Base.{
  ℕ, ◌+◌, ◌≤◌, ◌<◌, ◌≡◌, ◌⊎◌, inl, inr, refl, sym, subst, ap, ◌∙◌, true, not, ◌||◌, List, arith,
  ltb, leb, ◌==◌, if-intro, Bytes, length, max, count, dec_lt,
}
use distqueue.Base.Maps.{IsMap, insert, insert-IsMap}
use distqueue.Raft.{Node, leader, is_leader, last_index, persist, become_follower}
use distqueue.Raft.Replication.{
  AppendEntriesArgs, AppendEntriesReply, append_reply, advance_commit, index_of, replicas,
}
use distqueue.Raft.Commit.{Commits, advance_commit-Commits}
use distqueue.Raft.Safety.{append_reply-Keeps}
use distqueue.Raft.Roles.{append_reply-Stays}
use distqueue.Raft.Cluster.{IsMember}
use distqueue.Raft.Consensus.{System, Answer, History, IsIn, heard}
use distqueue.Raft.Consensus.Logs.{at, Agree, Agree-refl, last-IsTold}
use distqueue.Raft.Consensus.Handling.{reach}
use distqueue.Raft.Consensus.Matched.{IsNode, IsMatched}
use distqueue.Raft.Consensus.Quiet.{append_reply-log}
use distqueue.Raft.Consensus.Grown.{is_leader-lem}
use distqueue.Raft.Consensus.Facts.{IsCounted, MayCommit, IsKnowing, IsAgreed}
use distqueue.Raft.Consensus.Votes.{append_reply-IsUnvoted}
use distqueue.Raft.Consensus.Counting.{count-values, insert-intro}
use distqueue.Raft.Consensus.Calm.{calm-IsKnowing, same-IsKnowing, calm-IsAgreed}

-- The leader, once it knows that `peer` has the index `match`.
abbrev copied : Node → Bytes → ℕ → Node
copied n peer match = record n {
  match_index = insert n.match_index peer match;
  next_index = insert n.next_index peer (match + 1);
}

-- An answer moves no commit index, or it is a copy that a leader learns of.
append_reply-cases :
    (n : Node) (args : AppendEntriesArgs) (peer : Bytes) (reply : AppendEntriesReply)
    → let n' = append_reply n args.term args peer reply in
      ((n'.commit_index ≡ n.commit_index) × (n'.match_index ≡ n.match_index))
      ⊎ ((n.state ≡ leader)
          × (n.current_term ≡ args.term)
          × (reply.success ≡ true)
          × (n' ≡ advance_commit (copied n peer (max (reach args) (index_of n.match_index peer)))))
unfolding append_reply persist become_follower
append_reply-cases n args peer reply =
    let P : Node → Type 0 = λ n'.
      ((n'.commit_index ≡ n.commit_index) × (n'.match_index ≡ n.match_index))
      ⊎ ((n.state ≡ leader)
          × (n.current_term ≡ args.term)
          × (reply.success ≡ true)
          × (n'
              ≡ advance_commit (copied n peer (max (reach args) (index_of n.match_index peer))))) in
    if-intro P (ltb n.current_term reply.term) (λ _. inl (ground arith, ground arith))
      (λ _.
        if-intro P (not (is_leader n.state) || not (n.current_term == args.term))
          (λ _. inl (refl, refl))
          (λ leads.
            if-intro P reply.success
              (λ success. inr (is_leader-lem n.state (ground arith), ground arith, success, refl))
              (λ _. inl (refl, refl))))

-- What a majority of a leader's members has is committed.
copied-IsCommitted :
    (ms : List Bytes) (h : History) (i : Bytes) (n n' : Node)
    → IsCounted ms h
    → IsNode h.log_of h.leader_of i n
    → n.state ≡ leader
    → length n.peers + 1 ≡ length ms
    → IsMap n.match_index
    → ((p : Bytes) → 0 < index_of n.match_index p → IsMember ms p)
    → ((p : Bytes) → index_of n.match_index p ≤ h.shared p n.current_term)
    → Commits n (last_index n) n'
    → MayCommit ms h n.log n.current_term n'.commit_index
copied-IsCommitted ms h i n n' c node leads size map members matches k =
    let (last, first) = last-IsTold h.log_of n node.some_entry node.told in
    let (_, whole, _) = node.led leads in
    let t = n.current_term in
    let x = n'.commit_index in
    let positive : 0 < x = omega (arith, k.behind) in
    let inside : x < length n.log = omega (arith, k.held, last) in
    let term : (at n.log x).term ≡ t =
      ap (λ j. (at n.log j).term) (omega (arith, first)) ∙ k.own_term in
    let copies : replicas n x ≤ count (λ v. leb x (h.shared v t)) ms =
      count-values x ms n.match_index (λ v. leb x (h.shared v t)) positive map
        (λ p far. (ground (arith, matches p), members p (omega arith))) in
    let inside' : x < length (h.log_of t) = subst (λ xs. x < length xs) (sym whole) inside in
    let own : h.start_of t ≤ x = elim (dec_lt x (h.start_of t)) [
      | no long ↦ omega arith
      | yes short ↦
          absurd (omega (arith, c.old t x inside' short, ap (λ xs. (at xs x).term) whole, term))
    ] in
    inr (record {
      index = x;
      term = t;
      committed = record {
        positive = positive;
        own = own;
        most = omega (arith, copies, k.quorum, size);
      };
      within = omega arith;
      in_time = omega arith;
      has = subst (λ xs. Agree xs x n.log) (sym whole) (Agree-refl n.log x inside);
    })

module _ (ms : List Bytes) (s : System) (m : IsMatched ms s) (a : IsAgreed ms s) (i : Bytes) where
  abbrev old : Node
  old = s.cluster.nodes i

  -- The leader knows of another copy.
  copied-IsKnowing :
      (peer : Bytes) (x : ℕ)
      → old.state ≡ leader
      → IsMember old.peers peer
      → x ≤ s.past.shared peer old.current_term
      → IsKnowing ms s.past i (copied old peer x)
  copied-IsKnowing peer x leads member shared =
      let k = a.knows i in
      calm-IsKnowing ms s.past i old (copied old peer x) k
        (record { id = refl; peers = refl; leads = λ h. (h, refl); runs = λ h. (h, refl) })
        (omega arith) refl k.commit (insert-IsMap old.match_index peer x k.map)
        (λ p.
          insert-intro (λ y. 0 < y → (p ≡ i) ⊎ IsMember old.peers p) old.match_index peer x p
            (λ e _. inr (subst (IsMember old.peers) e member)) (λ _. k.peers p))
        (λ _ p.
          insert-intro (λ y. y ≤ s.past.shared p old.current_term) old.match_index peer x p
            (λ e. subst (λ q. x ≤ s.past.shared q old.current_term) e shared)
            (λ _. k.matches leads p))

  -- The leader commits what it may.
  advanced-IsKnowing :
      (n : Node)
      → n.peers ≡ old.peers
      → n.state ≡ leader
      → IsNode s.past.log_of s.past.leader_of i n
      → IsKnowing ms s.past i n
      → IsKnowing ms s.past i (advance_commit n)
  advanced-IsKnowing n peers leads node k = elim (advance_commit-Commits n) [
    | inl e ↦ subst (IsKnowing ms s.past i) (sym e) k
    | inr commits ↦
        let n' = advance_commit n in
        subst (IsKnowing ms s.past i) (sym commits.only) (
          calm-IsKnowing ms s.past i n (record n { commit_index = n'.commit_index }) k
            (record { id = refl; peers = refl; leads = λ h. (h, refl); runs = λ h. (h, refl) })
            (omega arith) refl
            (copied-IsCommitted ms s.past i n n' a.counted node leads
              (subst (λ ps. length ps + 1 ≡ length ms) (sym peers) (m.sound.elected i).size) k.map
              (λ p far. elim (k.peers p far) [
                | inl own ↦ subst (IsMember ms) (sym own) (k.leads_member leads)
                | inr peer ↦ k.members p peer
              ])
              (k.matches leads) commits)
            k.map k.peers (λ _. k.matches leads))
  ]

  copied-IsNode :
      (peer : Bytes) (x : ℕ) → IsNode s.past.log_of s.past.leader_of i (copied old peer x)
  copied-IsNode peer x =
      let node = m.node i in
      record {
        some_entry = node.some_entry;
        told = node.told;
        terms = node.terms;
        led = node.led;
        runs = node.runs;
      }

  pub heard-IsAgreed :
      (x : Answer) → IsIn s.answers x → IsMember old.peers x.peer → IsAgreed ms (heard s i x)
  unfolding heard
  heard-IsAgreed x sent peer =
      let n' = append_reply old x.args.term x.args x.peer x.reply in
      let stays = append_reply-Stays old x.args.term x.args x.peer x.reply in
      let later = (append_reply-Keeps old x.args.term x.args x.peer x.reply).grows in
      let log = append_reply-log old x.args.term x.args x.peer x.reply in
      calm-IsAgreed ms s m a i n' later
        (append_reply-IsUnvoted old x.args.term x.args x.peer x.reply)
        (elim (append_reply-cases old x.args x.peer x.reply) [
          | inl (commit, match) ↦
              same-IsKnowing ms s.past i old n' (a.knows i) stays later log commit match
          | inr (leads, now, success, is) ↦
              let x_max = max (reach x.args) (index_of old.match_index x.peer) in
              let shared : x_max ≤ s.past.shared x.peer old.current_term = omega (
                arith,
                subst (λ t. reach x.args ≤ s.past.shared x.peer t) (sym now)
                    (a.answered x sent success),
                (a.knows i).matches leads x.peer,
              ) in
              subst (IsKnowing ms s.past i) (sym is) (
                advanced-IsKnowing (copied old x.peer x_max) refl leads (copied-IsNode x.peer x_max)
                  (copied-IsKnowing x.peer x_max leads peer shared))
        ])
