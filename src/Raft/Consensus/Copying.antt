-- ===== src/Raft/Consensus/Copying.antt =====
-- A follower takes entries, `HandleAppendEntries` of raft/replication.go, and what the nodes know.
use distqueue.Base.{
  ℕ, ◌≤◌, ◌<◌, ◌≡◌, ◌≢◌, ◌⊎◌, inl, inr, refl, sym, subst, ap, ◌∙◌, true, List, arith, Bytes, length,
  ℕ_discrete, dec_lt, dec_le,
}
use distqueue.Base.Maps.{IsMap}
use distqueue.Raft.{Node, LogEntry}
use distqueue.Raft.Replication.{AppendEntriesArgs, AppendEntriesReply, index_of}
use distqueue.Raft.Roles.{Stays}
use distqueue.Raft.Cluster.{IsMember}
use distqueue.Raft.Consensus.{System, History, IsIn}
use distqueue.Raft.Consensus.Logs.{
  at, Agree, Agree-refl, Agree-sym, Agree-trans, Agree-lower, IsTold-Agree,
}
use distqueue.Raft.Consensus.Appending.{Follows}
use distqueue.Raft.Consensus.Handling.{reach, Handles}
use distqueue.Raft.Consensus.Matched.{IsMatched}
use distqueue.Raft.Consensus.Facts.{IsShared, IsCounted, Holds, MayCommit, IsKnowing, IsAgreed}
use distqueue.Raft.Consensus.Completeness.{complete-Agree}
use distqueue.Raft.Consensus.Onward.{Onward, Holds-Onward, MayCommit-Onward}
use distqueue.Raft.Consensus.Sharing.{shared_to, shared_to-cases, shared_to-up, shared_to-same}
use distqueue.Raft.Consensus.Frame.{same-IsCounted}

module _ (ms : List Bytes) (s : System) (m : IsMatched ms s) (a : IsAgreed ms s) (i : Bytes)
    (args : AppendEntriesArgs) (n' : Node) (reply : AppendEntriesReply)
    (does : Handles (s.cluster.nodes i) (s.past.log_of args.term) args (n', reply))
    (success : reply.success ≡ true) (sent : IsIn s.requests args) where
  abbrev old : Node
  old = s.cluster.nodes i

  abbrev ys : List LogEntry
  ys = s.past.log_of args.term

  abbrev shared' : Bytes → ℕ → ℕ
  shared' = shared_to s.past.shared i args.term (reach args)

  abbrev h' : History
  h' = record s.past { shared = shared' }

  follows : Follows old.log ys n'.log (reach args)
  follows = does.taken success

  pub copied-Onward : Onward i old s.past h'
  copied-Onward = record {
    logs = λ t k p. Agree-refl (s.past.log_of t) k p;
    starts = λ _ _. refl;
    up = shared_to-up s.past.shared i args.term (reach args);
    same = λ v t when. shared_to-same s.past.shared i args.term (reach args) v t (elim when [
      | inl other ↦ inl other
      | inr before ↦ inr (omega (arith, (does.term success).1))
    ]);
    ran = λ _ _ _. refl;
  }

  copied-bound : (v : Bytes) (t : ℕ) → (shared' v t ≡ 0) ⊎ (shared' v t < length (s.past.log_of t))
  copied-bound v t = elim (shared_to-cases s.past.shared i args.term (reach args) v t) [
    | inr (_, e) ↦ elim (a.counted.bound v t) [
      | inl none_had ↦ inl (e ∙ none_had)
      | inr inside ↦ inr (omega (arith, e))
    ]
    | inl (_, now, e) ↦
        let room : reach args < length (s.past.log_of t) =
          subst (λ x. reach args < length (s.past.log_of x)) now follows.agrees.right in
        elim (a.counted.bound v t) [
          | inl none_had ↦ inr (omega (arith, e))
          | inr inside ↦ inr (omega (arith, e))
        ]
  ]

  -- What the node has had is still there, or the leader lacks it.
  held-Follows :
      (t k : ℕ)
      → IsShared s.past i t k
      → (k < length old.log) × ((at old.log k).term ≡ t)
      → t ≤ old.current_term
      → Holds s.past n' t k
  held-Follows t k (positive, own, had) (inside, term) in_time =
      let (now, later, _) = does.term success in
      let led : 0 < length ys = omega (arith, follows.agrees.right) in
      let reached : t ≡ args.term → k < length ys = λ same.
        subst (λ x. k < length (s.past.log_of x)) same
          (elim (a.counted.bound i t) [
            | inl none_had ↦ absurd (omega arith)
            | inr room ↦ omega arith
          ]) in
      let new : t ≡ args.term → (at ys k).term ≡ t = λ same.
        subst (λ x. (at (s.past.log_of x) k).term ≡ t) same
          (a.counted.new t k (subst (λ x. k < length (s.past.log_of x)) (sym same) (reached same))
            own) in
      let before : (t ≢ args.term) → t < args.term = λ ne. ground (arith, later, in_time) in
      elim (dec_lt k (length ys)) [
        | yes there ↦ elim (ℕ_discrete (at ys k).term t) [
          | yes same ↦
              let kept = follows.keeps k (
                IsTold-Agree s.past.log_of old.log ys k (m.node i).told (m.past.told args.term)
                  inside there (term ∙ sym same)) in
              inl
                (kept.right, ap (λ (e : LogEntry). e.term) (sym (kept.same k (omega arith))) ∙ term)
          | no other ↦
              inr (args.term, before (λ e. other (new e)), omega (arith, now), (led, λ _. other))
        ]
        | no beyond ↦
            let after : t < args.term = before (λ e. beyond (reached e)) in
            let (_, grown, _) = a.counted.starts args.term (omega arith) led in
            inr (args.term, after, omega (arith, now), (led, λ early. absurd (omega arith)))
      ]

  copied-held : (t k : ℕ) → IsShared h' i t k → (t ≤ n'.current_term) × Holds h' n' t k
  copied-held t k (positive, own, had) =
      let (now, later, _) = does.term success in
      let before : IsShared s.past i t k → (t ≤ n'.current_term) × Holds h' n' t k = λ was.
        let (in_time, holds) = (a.knows i).held t k was in
        let kept : Holds s.past n' t k = elim holds [
          | inl held ↦ held-Follows t k was held in_time
          | inr (u, after, by, lacks) ↦ inr (u, after, omega arith, lacks)
        ] in
        (
          omega arith,
          Holds-Onward ms i old s.past h' m.past a.counted copied-Onward n' n' t k
              (λ j p. Agree-refl n'.log j p) (omega arith) kept,
        ) in
      elim (shared_to-cases s.past.shared i args.term (reach args) i t) [
        | inr (_, e) ↦ before (positive, own, omega (arith, had, e))
        | inl (_, same, e) ↦ elim (dec_le k (s.past.shared i t)) [
          | yes old_one ↦ before (positive, own, old_one)
          | no new_one ↦
              let close : k ≤ reach args = omega (arith, had, e) in
              let inside : k < length (s.past.log_of t) =
                subst (λ x. k < length (s.past.log_of x)) same
                  (omega (arith, follows.agrees.right)) in
              let entry : at n'.log k ≡ at (s.past.log_of t) k =
                subst (λ x. at n'.log k ≡ at (s.past.log_of x) k) same
                  (follows.agrees.same k close) in
              (
                omega (arith, now),
                inl (
                  omega (arith, follows.agrees.left),
                  ap (λ (x : LogEntry). x.term) entry ∙ a.counted.new t k inside own,
                ),
              )
        ]
      ]

  copied-commit : MayCommit ms s.past n'.log n'.current_term n'.commit_index
  copied-commit =
      let (now, later, _) = does.term success in
      let c = n'.commit_index in
      let led : 0 < length ys = omega (arith, follows.agrees.right) in
      elim does.commit [
        | inr (_, low, close) ↦ elim (a.commits args sent) [
          | inl none_yet ↦ inl (omega arith)
          | inr j ↦ inr (record {
            index = j.index;
            term = j.term;
            committed = j.committed;
            within = omega (arith, j.within);
            in_time = omega (arith, j.in_time, now);
            has =
                Agree-trans (s.past.log_of j.term) ys n'.log c
                  (Agree-lower (s.past.log_of j.term) ys args.leader_commit c low j.has)
                  (Agree-sym n'.log ys c
                    (Agree-lower n'.log ys (reach args) c close follows.agrees));
          })
        ]
        | inl same ↦
            subst (MayCommit ms s.past n'.log n'.current_term) (sym same) (elim (a.knows i).commit [
              | inl none_yet ↦ inl none_yet
              | inr j ↦
                  let x = old.commit_index in
                  let whole : Agree (s.past.log_of j.term) x ys =
                    Agree-sym ys (s.past.log_of j.term) x (
                      Agree-lower ys (s.past.log_of j.term) j.index x j.within (
                        complete-Agree ms s.past m.past a.counted j.term j.index args.term
                          j.committed (omega (arith, j.in_time)) led)) in
                  inr (record {
                    index = j.index;
                    term = j.term;
                    committed = j.committed;
                    within = j.within;
                    in_time = omega (arith, j.in_time, now);
                    has = Agree-trans (s.past.log_of j.term) old.log n'.log x j.has (
                        follows.keeps x (
                          Agree-trans old.log (s.past.log_of j.term) ys x
                            (Agree-sym (s.past.log_of j.term) old.log x j.has) whole));
                  })
            ])
      ]

  pub copied-IsKnowing : Stays old n' → IsKnowing ms h' i n'
  copied-IsKnowing stays =
      let k = a.knows i in
      let role = (does.term success).2 in
      record {
        held = copied-held;
        commit =
            MayCommit-Onward ms i old s.past h' m.past a.counted copied-Onward n'.log n'.log
              n'.current_term n'.current_term n'.commit_index (λ j p. Agree-refl n'.log j p)
              (omega arith) copied-commit;
        map = subst IsMap (sym does.match) k.map;
        peers = λ p far.
            subst (λ ps. (p ≡ i) ⊎ IsMember ps p) (sym stays.peers)
              (k.peers p (subst (λ x. 0 < index_of x p) does.match far));
        members = λ p peer. k.members p (subst (λ ps. IsMember ps p) stays.peers peer);
        leads_member = λ leads. absurd (cc (leads, role));
        runs_member = λ runs. absurd (cc (runs, role));
        matches = λ leads. absurd (cc (leads, role));
        runs = λ runs. absurd (cc (runs, role));
      }

  pub copied-IsCounted : IsCounted ms h'
  copied-IsCounted = same-IsCounted ms s m a i s.past.ran shared' copied-Onward copied-bound
