-- ===== src/Raft/Consensus/Backing.antt =====
-- What a vote says of the logs, raft/election.go.
use distqueue.Base.{
  ℕ, ◌-◌, ◌≤◌, ◌<◌, ◌≡◌, ◌≢◌, ◌⊎◌, inl, inr, refl, sym, subst, ap, ◌∙◌, List, [], arith, ◌==◌,
  if-intro, Bytes, length, dec_lt, ℕ_discrete,
}
use distqueue.Raft.{Node, LogEntry, last_index, last_term}
use distqueue.Raft.Cluster.{Cluster, with_node, record_vote, update-intro}
use distqueue.Raft.Cluster.Ballots.{IsPast}
use distqueue.Raft.Consensus.{History}
use distqueue.Raft.Consensus.Logs.{at, last-IsTold}
use distqueue.Raft.Consensus.Appending.{eq-lem}
use distqueue.Raft.Consensus.Matched.{IsNode}
use distqueue.Raft.Consensus.Votes.{IsUnvoted}
use distqueue.Raft.Consensus.Facts.{near, over, Backs, IsCounted, IsKnowing}

record_vote-same :
    (past : ℕ → Bytes) (n n' : Node) (t : ℕ)
    → IsPast past n
    → IsUnvoted n n'
    → record_vote past n' t ≢ []
    → record_vote past n' t ≡ past t
unfolding record_vote
record_vote-same past n n' t p same =
    if-intro (λ (v : Bytes). v ≢ [] → v ≡ past t) (t == n'.current_term)
      (λ now voted. elim same [
        | inl none_yet ↦ absurd (voted none_yet)
        | inr (vote, term) ↦ vote ∙ sym p.whole ∙ ap past (sym term ∙ sym (eq-lem _ _ now))
      ])
      (λ _ _. refl)

-- Such a node has cast no new vote.
pub with_node-cast :
    (c : Cluster) (i : Bytes) (n : Node) (v : Bytes) (t : ℕ)
    → IsPast (c.cast i) (c.nodes i)
    → IsUnvoted (c.nodes i) n
    → (with_node c i n).cast v t ≢ []
    → (with_node c i n).cast v t ≡ c.cast v t
unfolding with_node
with_node-cast c i n v t past same =
    update-intro (λ (f : ℕ → Bytes). f t ≢ [] → f t ≡ c.cast v t) c.cast i
      (record_vote (c.cast i) n) v
      (λ e.
        subst (λ x. record_vote (c.cast i) n t ≢ [] → record_vote (c.cast i) n t ≡ c.cast x t) e
          (record_vote-same (c.cast i) (c.nodes i) n t past same))
      (λ _ _. refl)

-- A node backs any candidate whose log is at least as far, in a term that has no leader yet.
pub voter-Backs :
    (ms : List Bytes) (h : History) (i : Bytes) (n : Node) (r : ℕ × ℕ) (t' : ℕ)
    → IsCounted ms h
    → IsNode h.log_of h.leader_of i n
    → IsKnowing ms h i n
    → n.current_term ≤ t'
    → (last_term n < r.1) ⊎ ((last_term n ≡ r.1) × (last_index n ≤ r.0))
    → (0 < length (h.log_of t')) ⊎ Backs h i r t'
voter-Backs ms h i n r t' c a knows later far = elim (dec_lt 0 (length (h.log_of t'))) [
  | yes led ↦ inl led
  | no not_led ↦ inr (λ t k before had. elim (knows.held t k had).1 [
    | inr (u, after, in_time, lacks) ↦ elim (ℕ_discrete u t') [
      | yes same ↦ absurd (not_led (subst (λ x. 0 < length (h.log_of x)) same lacks.0))
      | no other ↦ over u after (omega arith) lacks
    ]
    | inl (inside, term) ↦
        let (last, _) = last-IsTold h.log_of n a.some_entry a.told in
        let l = length n.log - 1 in
        let place : last_index n ≡ l = omega (arith, last) in
        let u = last_term n in
        let whole = a.told.told l (omega (arith, a.some_entry)) in
        let here : (at (h.log_of u) k).term ≡ t =
          ap (λ (e : LogEntry). e.term) (sym (whole.same k (omega (arith, inside)))) ∙ term in
        let end : (at (h.log_of u) l).term ≡ u =
          ap (λ (e : LogEntry). e.term) (sym (whole.same l (omega arith))) in
        let own : h.start_of u ≤ l = elim (dec_lt l (h.start_of u)) [
          | yes short ↦ absurd (omega (arith, end, c.old u l whole.right short))
          | no long ↦ omega arith
        ] in
        let early : t ≤ u = elim (dec_lt k (h.start_of u)) [
          | yes short ↦ omega (arith, here, c.old u k (omega (arith, whole.right, inside)) short)
          | no long ↦
              omega (arith, here, c.new u k (omega (arith, whole.right, inside)) (omega arith))
        ] in
        near u l
          (elim far [
            | inl further ↦ inl further
            | inr (e, longer) ↦ inr (e, omega (arith, place, longer))
          ])
          (omega (arith, inside)) whole.right own here early
  ])
]
