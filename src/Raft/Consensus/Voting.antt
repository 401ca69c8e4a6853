-- ===== src/Raft/Consensus/Voting.antt =====
-- Elections, raft/election.go, and what the nodes know.
use distqueue.Base.{
  ℕ, ◌≤◌, ◌<◌, ◌≡◌, ◌⊎◌, inl, inr, refl, sym, subst, ap, ◌∙◌, List, arith, ◌==◌, if-intro, Bytes,
  length,
}
use distqueue.Raft.{Node, last_index, last_term, persist, become_follower}
use distqueue.Raft.Election.{RequestVoteArgs, handle_request_vote}
use distqueue.Raft.Commit.{handle_request_vote-Grants}
use distqueue.Raft.Safety.{handle_request_vote-Keeps}
use distqueue.Raft.Roles.{handle_request_vote-Stays}
use distqueue.Raft.Cluster.{Cluster, with_node, record_vote, answer, update, update-intro}
use distqueue.Raft.Consensus.{System, IsIn, answered}
use distqueue.Raft.Consensus.Matched.{IsMatched}
use distqueue.Raft.Consensus.Quiet.{handle_request_vote-log}
use distqueue.Raft.Consensus.Facts.{Backs, IsAgreed}
use distqueue.Raft.Consensus.Onward.{Onward-refl}
use distqueue.Raft.Consensus.Frame.{moved-IsAgreed}
use distqueue.Raft.Consensus.Votes.{handle_request_vote-IsUnvoted}
use distqueue.Raft.Consensus.Backing.{with_node-cast, voter-Backs}
use distqueue.Raft.Consensus.Calm.{same-IsKnowing}

record_vote-cases :
    (past : ℕ → Bytes) (n : Node) (t : ℕ)
    → (record_vote past n t ≡ past t)
      ⊎ ((t ≡ n.current_term) × (record_vote past n t ≡ n.voted_for))
unfolding record_vote
record_vote-cases past n t =
    if-intro (λ (v : Bytes). (v ≡ past t) ⊎ ((t ≡ n.current_term) × (v ≡ n.voted_for)))
      (t == n.current_term) (λ h. inr (ground arith, refl)) (λ _. inl refl)

-- A vote is an old one, or that of the node in its term.
pub with_node-cast_cases :
    (c : Cluster) (i : Bytes) (n : Node) (v : Bytes) (t : ℕ)
    → ((with_node c i n).cast v t ≡ c.cast v t)
      ⊎ ((i ≡ v) × (t ≡ n.current_term) × ((with_node c i n).cast v t ≡ n.voted_for))
unfolding with_node
with_node-cast_cases c i n v t =
    update-intro
      (λ (f : ℕ → Bytes).
        (f t ≡ c.cast v t) ⊎ ((i ≡ v) × (t ≡ n.current_term) × (f t ≡ n.voted_for)))
      c.cast i (record_vote (c.cast i) n) v
      (λ e. elim (record_vote-cases (c.cast i) n t) [
        | inl same ↦ inl (same ∙ ap (λ x. c.cast x t) e)
        | inr (now, voted) ↦ inr (e, now, voted)
      ])
      (λ _. inl refl)

handle_request_vote-same :
    (n : Node) (args : RequestVoteArgs)
    → let n' = (handle_request_vote n args).0 in
      (n'.commit_index ≡ n.commit_index) × (n'.match_index ≡ n.match_index)
unfolding handle_request_vote persist become_follower
handle_request_vote-same n args = (ground arith, ground arith)

module _ (ms : List Bytes) (s : System) (m : IsMatched ms s) (a : IsAgreed ms s) (i : Bytes) where
  pub answered-IsAgreed :
      (args : RequestVoteArgs) → IsIn s.asks args → IsAgreed ms (answered s i args)
  unfolding answered answer with_node
  answered-IsAgreed args asked =
      let c = s.cluster in
      let n = c.nodes i in
      let r = handle_request_vote n args in
      let keeps = handle_request_vote-Keeps n args in
      let (commit, match) = handle_request_vote-same n args in
      let knows =
        same-IsKnowing ms s.past i n r.0 (a.knows i) (handle_request_vote-Stays n args) keeps.grows
          (handle_request_vote-log n args) commit match in
      let (ran, in_time) = a.asked args asked in
      let w = args.candidate_id in
      let Entitled : Bytes → ℕ → Bytes → Type 0 = λ v t x.
        (t ≤ (update c.nodes i r.0 x).current_term)
        × ((0 < length (s.past.log_of t)) ⊎ Backs s.past v (s.past.ran x t) t) in
      moved-IsAgreed ms s m a i r.0 (answer c i args) s.past refl keeps.grows
        (Onward-refl i n s.past) a.counted knows
        (λ v t voted. elim (handle_request_vote-IsUnvoted n args) [
          | inl unvoted ↦ inl (with_node-cast c i r.0 v t (m.sound.past i) unvoted voted)
          | inr granted ↦ elim (with_node-cast_cases c i r.0 v t) [
            | inl same ↦ inl same
            | inr (own, now, for) ↦
                let gives = handle_request_vote-Grants n args granted in
                let entitled : Entitled i args.term w = (
                  update-intro (λ (x : Node). args.term ≤ x.current_term) c.nodes i r.0 w
                      (λ _. omega (arith, gives.term)) (λ _. in_time),
                  voter-Backs ms s.past i n (s.past.ran w args.term) args.term a.counted (m.node i)
                      (a.knows i) (omega (arith, keeps.grows, gives.term))
                      (subst
                        (λ (x : ℕ × ℕ).
                          (last_term n < x.1) ⊎ ((last_term n ≡ x.1) × (last_index n ≤ x.0)))
                        (sym ran) gives.far),
                ) in
                inr (
                  subst (λ x. Entitled v t x) (sym (for ∙ gives.vote))
                    (subst (λ x. Entitled x t w) own
                      (subst (λ x. Entitled i x w) (sym (now ∙ gives.term)) entitled)))
          ]
        ])
        (λ t v led backs. inr (a.backed t v led backs))
