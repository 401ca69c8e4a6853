-- ===== src/Raft/Consensus/Checked.antt =====
-- The consistency check of `HandleAppendEntries`, raft/replication.go, and what follows it.
use distqueue.Base.{
  ℕ, ◌-◌, ◌≤◌, ◌<◌, ◌≡◌, inl, inr, refl, sym, subst, ap, ◌∙◌, not, List, arith, ltb, ◌==◌, if-intro,
  length,
}
use distqueue.Raft.{Node, LogEntry, first_index, last_index, term_at, follower}
use distqueue.Raft.Replication.{
  AppendEntriesArgs, AppendEntriesReply, accept, check_append, follow, handle_append_entries,
}
use distqueue.Raft.Indices.{follow-log}
use distqueue.Raft.Consensus.Logs.{at, Agree, IsTold, IsTold-Agree, last-IsTold}
use distqueue.Raft.Consensus.Appending.{Follows, accept-Follows, eq-lem}
use distqueue.Raft.Consensus.Handling.{
  Fits, reach, Handles, refused-Handles, accept-commit, follow-term, follow-state, follow-commit,
  follow-match,
}

-- Of a node that is already in the term of the request.
module _ (logs : ℕ → List LogEntry) (n : Node) (ys : List LogEntry) (args : AppendEntriesArgs)
    (some_entry : 0 < length n.log) (a : IsTold logs n.log) (b : IsTold logs ys)
    (early : length (logs 0) ≡ 1) where
  check_append-Handles :
      n.current_term ≡ args.term
      → n.state ≡ follower
      → Fits ys args
      → Handles n ys args
          (check_append n args.prev_log_index args.prev_log_term args.entries args.leader_commit)
  unfolding check_append
  check_append-Handles now follows_now fits =
      let q = args.prev_log_index in
      let (last, first) = last-IsTold logs n some_entry a in
      if-intro (Handles n ys args) (ltb (last_index n) q)
        (λ _. refused-Handles n n ys args _ refl refl refl refl)
        (λ inside.
          let has : q < length n.log = ground arith in
          let position : q ≡ q - first_index n = omega (arith, first) in
          if-intro (Handles n ys args) (not (term_at n q == args.prev_log_term))
            (λ _. refused-Handles n n ys args _ refl refl refl refl)
            (λ same.
              let here : (at n.log q).term ≡ args.prev_log_term =
                ap (λ j. (at n.log j).term) position ∙ eq-lem _ _ (ground arith) in
              let accepted = accept-commit n q args.entries args.leader_commit in
              let m = accept n q args.entries args.leader_commit in
              let follows : Follows n.log ys m.log (reach args) = elim fits [
                | inl (there, term, part) ↦
                    accept-Follows logs n ys some_entry a b q args.entries args.leader_commit
                      (IsTold-Agree logs n.log ys q a b has there (here ∙ term)) part
                | inr (beyond, none_there) ↦ absurd (
                    omega (
                      arith,
                      early,
                      (subst (λ t. Agree n.log q (logs t)) (here ∙ none_there)
                          (a.told q has)).right,
                    ))
              ] in
              record {
                refused = λ h. absurd (cc);
                taken = λ _. follows;
                term = λ _. (accepted.1 ∙ now, omega arith, accepted.2 ∙ follows_now);
                commit = elim accepted.0 [ inl e ↦ inl e | inr h ↦ inr (refl, h.0, h.1) ];
                match = accepted.3;
              }))

followed-Handles :
    (n n' : Node) (ys : List LogEntry) (args : AppendEntriesArgs) (r : Node × AppendEntriesReply)
    → n'.log ≡ n.log
    → n'.commit_index ≡ n.commit_index
    → n'.match_index ≡ n.match_index
    → n.current_term ≤ args.term
    → Handles n' ys args r
    → Handles n ys args r
followed-Handles n n' ys args r log commit match in_time h = record {
  refused = λ no_success. let (l, c) = h.refused no_success in (l ∙ log, c ∙ commit);
  taken = λ success. subst (λ xs. Follows xs ys r.0.log (reach args)) log (h.taken success);
  term = λ success. ((h.term success).0, in_time, (h.term success).2);
  commit = elim h.commit [ inl e ↦ inl (e ∙ commit) | inr c ↦ inr c ];
  match = h.match ∙ match;
}

-- `HandleAppendEntries` of a request that fits the leader's log.
pub handle_append_entries-Handles :
    (logs : ℕ → List LogEntry) (n : Node) (ys : List LogEntry) (args : AppendEntriesArgs)
    → 0 < length n.log
    → IsTold logs n.log
    → IsTold logs ys
    → length (logs 0) ≡ 1
    → Fits ys args
    → Handles n ys args (handle_append_entries n args)
unfolding handle_append_entries
handle_append_entries-Handles logs n ys args some_entry a b early fits =
    let n' = follow n args.term args.leader_id in
    let log : n'.log ≡ n.log = follow-log n args.term args.leader_id in
    let commit : n'.commit_index ≡ n.commit_index = follow-commit n args.term args.leader_id in
    let match = follow-match n args.term args.leader_id in
    if-intro (Handles n ys args) (ltb args.term n.current_term)
      (λ _. refused-Handles n n ys args _ refl refl refl refl)
      (λ in_time.
        let a' : IsTold logs n'.log = subst (IsTold logs) (sym log) a in
        let some' : 0 < length n'.log = subst (λ zs. 0 < length zs) (sym log) some_entry in
        let first : first_index n' ≡ 0 = a'.index 0 some' in
        let now = follow-term n args.term args.leader_id in_time in
        let checked =
          check_append-Handles logs n' ys args some' a' b early now
            (follow-state n args.term args.leader_id) fits in
        if-intro (Handles n ys args) (ltb args.prev_log_index (first_index n'))
          (λ below. absurd (ground arith))
          (λ _. followed-Handles n n' ys args _ log commit match (ground arith) checked))
