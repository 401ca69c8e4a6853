-- ===== src/Raft/Consensus/Winners.antt =====
-- A candidate takes in an answer, raft/election.go, and what the nodes know.
use distqueue.Base.{
  ℕ, ◌≤◌, ◌≡◌, ◌≢◌, ◌⊎◌, inl, inr, sym, subst, ap, ◌∙◌, false, not, ◌&&◌, List, [], arith, if-intro,
  Bytes,
}
use distqueue.Raft.{Node, leader, candidate, is_leader}
use distqueue.Raft.Election.{become_leader, vote_reply}
use distqueue.Raft.Safety.{vote_reply-Keeps}
use distqueue.Raft.Cluster.{Cluster, Ballot, IsSent, IsMember, take_in, update}
use distqueue.Raft.Cluster.Elected.{IsSound, Grow, with_node-Grow}
use distqueue.Raft.Cluster.Moves.{update-here}
use distqueue.Raft.Cluster.Leaders.{take_in-IsSound}
use distqueue.Raft.Consensus.{System, History, extend, crown, taken_in}
use distqueue.Raft.Consensus.Matched.{IsMatched}
use distqueue.Raft.Consensus.Grown.{is_leader-lem, become_leader-Leads}
use distqueue.Raft.Consensus.Winning.{IsIdle, vote_reply-cases, take_in-nodes}
use distqueue.Raft.Consensus.Facts.{IsAgreed}
use distqueue.Raft.Consensus.Onward.{Onward, Onward-refl}
use distqueue.Raft.Consensus.Frame.{moved-IsAgreed}
use distqueue.Raft.Consensus.Votes.{vote_reply-IsUnvoted}
use distqueue.Raft.Consensus.Backing.{with_node-cast}
use distqueue.Raft.Consensus.Calm.{same-IsKnowing}
use distqueue.Raft.Consensus.Leading.{led-Onward}
use distqueue.Raft.Consensus.Crowning.{crowned, crowned-IsAgreed, led}

winner-IsAgreed :
    (ms : List Bytes) (s : System) (b : Ballot) (n' : Node) (c : Cluster)
    → IsMatched ms s
    → IsAgreed ms s
    → IsSound ms c
    → c.nodes ≡ update s.cluster.nodes b.candidate n'
    → Grow s.cluster.cast c.cast
    → ((v : Bytes) (u : ℕ) → c.cast v u ≢ [] → c.cast v u ≡ s.cluster.cast v u)
    → (s.cluster.nodes b.candidate).current_term ≤ n'.current_term
    → IsIdle (s.cluster.nodes b.candidate) n'
      ⊎ (((s.cluster.nodes b.candidate).state ≡ candidate)
          × (n' ≡ become_leader (s.cluster.nodes b.candidate)))
    → IsAgreed ms (record s {
      cluster = c;
      past = crown s.past c.cast b.candidate (s.cluster.nodes b.candidate) (c.nodes b.candidate);
    })
unfolding crown extend
winner-IsAgreed ms s b n' c m a sound nodes g unvoted later cases =
    let i = b.candidate in
    let n = s.cluster.nodes i in
    let here : c.nodes i ≡ n' = ap (λ f. f i) nodes ∙ update-here s.cluster.nodes i n' in
    let After : History → Type 0 = λ h. IsAgreed ms (record s { cluster = c; past = h }) in
    subst (λ x. After (crown s.past c.cast i n x)) (sym here)
      (elim cases [
        | inl idle ↦
            if-intro After (is_leader n'.state && not (is_leader n.state))
              (λ new.
                let was = (idle.stays.leads (is_leader-lem n'.state (ground arith))).0 in
                absurd (ground (arith, ap is_leader was)))
              (λ _.
                moved-IsAgreed ms s m a i n' c s.past nodes later (Onward-refl i n s.past) a.counted
                  (same-IsKnowing ms s.past i n n' (a.knows i) idle.stays later idle.log idle.commit
                    idle.match)
                  (λ v u voted. inl (unvoted v u voted))
                  (λ u v led backs. inr (a.backed u v led backs)))
        | inr (ran, won) ↦
            let state : n'.state ≡ leader = cc (won, (become_leader-Leads n).state) in
            if-intro After (is_leader n'.state && not (is_leader n.state))
              (λ _.
                if-intro After (is_leader n'.state)
                  (λ _. crowned-IsAgreed ms s m a i n' c sound nodes g unvoted ran won)
                  (λ no_leader. absurd (cc (no_leader, ap is_leader state))))
              (λ old. absurd (ground (arith, ap is_leader state, ap is_leader ran)))
      ])

pub taken_in-IsAgreed :
    (ms : List Bytes) (s : System) (b : Ballot) (votes : ℕ)
    → IsMatched ms s
    → IsAgreed ms s
    → IsSent s.cluster.ballots b
    → IsMember ms b.voter
    → (b.term ≡ (s.cluster.polls b.candidate).term
        → (votes ≡ (s.cluster.polls b.candidate).votes)
          × ((s.cluster.polls b.candidate).heard b.voter ≡ false))
    → IsAgreed ms (taken_in s b votes)
unfolding taken_in
taken_in-IsAgreed ms s b votes m a sent member once =
    let i = b.candidate in
    let n = s.cluster.nodes i in
    let n' = (vote_reply n b.term votes b.reply).0 in
    let (nodes, cast) = take_in-nodes s.cluster b votes in
    let keeps = vote_reply-Keeps n b.term votes b.reply in
    let unvoted = vote_reply-IsUnvoted n b.term votes b.reply in
    winner-IsAgreed ms s b n' (take_in s.cluster b votes) m a
      (take_in-IsSound ms s.cluster b votes m.sound sent member once) nodes
      (subst (Grow s.cluster.cast) (sym cast)
        (with_node-Grow s.cluster i n' (m.sound.past i) keeps))
      (subst (λ f. (v : Bytes) (u : ℕ) → f v u ≢ [] → f v u ≡ s.cluster.cast v u) (sym cast)
        (λ v u voted. with_node-cast s.cluster i n' v u (m.sound.past i) unvoted voted))
      keeps.grows (vote_reply-cases n b.term votes b.reply)

pub taken_in-Onward :
    (ms : List Bytes) (s : System) (b : Ballot) (votes : ℕ)
    → IsMatched ms s
    → IsAgreed ms s
    → IsSent s.cluster.ballots b
    → IsMember ms b.voter
    → (b.term ≡ (s.cluster.polls b.candidate).term
        → (votes ≡ (s.cluster.polls b.candidate).votes)
          × ((s.cluster.polls b.candidate).heard b.voter ≡ false))
    → Onward b.candidate (s.cluster.nodes b.candidate) s.past (taken_in s b votes).past
unfolding taken_in crown extend
taken_in-Onward ms s b votes m a sent member once =
    let i = b.candidate in
    let n = s.cluster.nodes i in
    let n' = (vote_reply n b.term votes b.reply).0 in
    let c = take_in s.cluster b votes in
    let (nodes, cast) = take_in-nodes s.cluster b votes in
    let here : c.nodes i ≡ n' = ap (λ f. f i) nodes ∙ update-here s.cluster.nodes i n' in
    let keeps = vote_reply-Keeps n b.term votes b.reply in
    let unvoted = vote_reply-IsUnvoted n b.term votes b.reply in
    let After : History → Type 0 = Onward i n s.past in
    subst (λ x. After (crown s.past c.cast i n x)) (sym here)
      (if-intro After (is_leader n'.state && not (is_leader n.state))
        (λ new. elim (vote_reply-cases n b.term votes b.reply) [
          | inl idle ↦
              let was = (idle.stays.leads (is_leader-lem n'.state (ground arith))).0 in
              absurd (ground (arith, ap is_leader was))
          | inr (ran, won) ↦
              if-intro After (is_leader n'.state)
                (λ _. led-Onward ms s m a i n' (crowned s.past c.cast i n n') (
                  led ms s m a i n' c
                    (take_in-IsSound ms s.cluster b votes m.sound sent member once) nodes
                    (subst (Grow s.cluster.cast) (sym cast)
                      (with_node-Grow s.cluster i n' (m.sound.past i) keeps))
                    (subst (λ f. (v : Bytes) (u : ℕ) → f v u ≢ [] → f v u ≡ s.cluster.cast v u)
                      (sym cast)
                      (λ v u voted.
                        with_node-cast s.cluster i n' v u (m.sound.past i) unvoted voted))
                    ran won))
                (λ no_leader. absurd (ground arith))
        ])
        (λ _. Onward-refl i n s.past))
