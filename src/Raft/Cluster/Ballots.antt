-- ===== src/Raft/Cluster/Ballots.antt =====
-- The votes that the nodes of a cluster have cast, raft/election.go: none is taken back.
use distqueue.Base.{ℕ, ◌<◌, ◌≡◌, ◌≢◌, [], Bytes, arith}
use distqueue.Raft.{Node}
use distqueue.Raft.Safety.{Keeps}
use distqueue.Raft.Cluster.{record_vote}

-- The votes up to the term of a node: `past` has them.
pub record IsPast (past : ℕ → Bytes) (n : Node) : Type 0 where
  pub whole : past n.current_term ≡ n.voted_for
  pub future : (t : ℕ) → n.current_term < t → past t ≡ []

-- What was voted is still there.
abbrev pub Grows : (ℕ → Bytes) → (ℕ → Bytes) → Type 0
Grows past past' = (t : ℕ) → past t ≢ [] → past' t ≡ past t

pub record_vote-IsPast :
    (past : ℕ → Bytes) (n n' : Node) → IsPast past n → Keeps n n' → IsPast (record_vote past n') n'
unfolding record_vote
record_vote-IsPast past n n' p k = record {
  whole = ground arith;
  future = λ t h. ground (arith, p.future t, k.grows);
}

pub record_vote-Grows :
    (past : ℕ → Bytes) (n n' : Node) → IsPast past n → Keeps n n' → Grows past (record_vote past n')
unfolding record_vote
record_vote-Grows past n n' p k = λ t h. ground (arith, p.whole, p.future t, k.grows, k.one_vote)
