-- ===== src/Raft/Consensus/Facts.antt =====
-- What the nodes of a cluster know of committed entries, raft/replication.go and raft/election.go.
use distqueue.Base.{ℕ, ◌+◌, ◌*◌, ◌≤◌, ◌<◌, ◌≡◌, ◌≢◌, ◌⊎◌, true, List, [], leb, Bytes, length, count}
use distqueue.Base.Maps.{IsMap}
use distqueue.Raft.{Node, LogEntry, leader, candidate, last_index, last_term}
use distqueue.Raft.Election.{RequestVoteArgs}
use distqueue.Raft.Replication.{AppendEntriesArgs, index_of}
use distqueue.Raft.Cluster.{IsMember}
use distqueue.Raft.Consensus.{System, Answer, History, IsIn}
use distqueue.Raft.Consensus.Logs.{at, Agree}
use distqueue.Raft.Consensus.Handling.{reach}

-- `v` has had the entry `k` of the leader of `t`, which that leader has made itself.
abbrev pub IsShared : History → Bytes → ℕ → ℕ → Type 0
IsShared h v t k = (0 < k) × (h.start_of t ≤ k) × (k ≤ h.shared v t)

-- Most members have had the entry `k`, which the leader of `t` has made itself.
pub record IsCommitted (ms : List Bytes) (h : History) (k t : ℕ) : Type 0 where
  pub positive : 0 < k
  pub own : h.start_of t ≤ k
  pub most : length ms < 2 * count (λ v. leb k (h.shared v t)) ms

-- The leader of `u` has not had the entry `k` of the term `t` when it was elected.
abbrev pub Lacks : History → ℕ → ℕ → ℕ → Type 0
Lacks h u t k = (0 < length (h.log_of u)) × (k < h.start_of u → (at (h.log_of u) k).term ≢ t)

-- A log that ends with the index and the term of `r` is at least as far as one that has the entry
-- `k` of the term `t`, or a leader after `t` and before `t'` lacks the entry.
pub data Covers (h : History) (t' : ℕ) (r : ℕ × ℕ) (t k : ℕ) : Type 0 where
  near :
      (u l : ℕ)
      → (u < r.1) ⊎ ((u ≡ r.1) × (l ≤ r.0))
      → k ≤ l
      → l < length (h.log_of u)
      → h.start_of u ≤ l
      → (at (h.log_of u) k).term ≡ t
      → t ≤ u
      → Covers h t' r t k
  over : (u : ℕ) → t < u → u < t' → Lacks h u t k → Covers h t' r t k

-- The voter `v` of the term `t'` has had no entry that the log of the candidate does not cover.
abbrev pub Backs : History → Bytes → ℕ × ℕ → ℕ → Type 0
Backs h v r t' = (t k : ℕ) → t < t' → IsShared h v t k → Covers h t' r t k

-- A log of the term `now` has the committed entries up to the index `c`.
pub record IsJustified (ms : List Bytes) (h : History) (log : List LogEntry) (now c : ℕ)
    : Type 0 where
  pub index : ℕ
  pub term : ℕ
  pub committed : IsCommitted ms h index term
  pub within : c ≤ index
  pub in_time : term ≤ now
  pub has : Agree (h.log_of term) c log

abbrev pub MayCommit : List Bytes → History → List LogEntry → ℕ → ℕ → Type 0
MayCommit ms h log now c = (c ≡ 0) ⊎ IsJustified ms h log now c

-- The logs of the leaders, from their elections on.
pub record IsCounted (ms : List Bytes) (h : History) : Type 0 where
  pub starts :
      (t : ℕ)
      → 0 < t
      → 0 < length (h.log_of t)
      → let r = h.ran (h.leader_of t) t in
        (h.start_of t ≡ r.0 + 1)
        × (h.start_of t < length (h.log_of t))
        × ((at (h.log_of t) r.0).term ≡ r.1)
  pub origin : h.start_of 0 ≡ 0
  pub old : (t k : ℕ) → k < length (h.log_of t) → k < h.start_of t → (at (h.log_of t) k).term < t
  pub new : (t k : ℕ) → k < length (h.log_of t) → h.start_of t ≤ k → (at (h.log_of t) k).term ≡ t
  pub bound : (v : Bytes) (t : ℕ) → (h.shared v t ≡ 0) ⊎ (h.shared v t < length (h.log_of t))
  pub most : (t : ℕ) → 0 < t → 0 < length (h.log_of t) → length ms < 2 * count (h.backers t) ms
  pub backs :
      (t : ℕ) (v : Bytes)
      → 0 < t
      → 0 < length (h.log_of t)
      → h.backers t v ≡ true
      → Backs h v (h.ran (h.leader_of t) t) t

-- An entry that a node has had is in its log, or a later leader lacks it.
abbrev pub Holds : History → Node → ℕ → ℕ → Type 0
Holds h n t k =
    ((k < length n.log) × ((at n.log k).term ≡ t))
    ⊎ ((u : ℕ) × (t < u) × (u ≤ n.current_term) × Lacks h u t k)

-- What a node knows.
pub record IsKnowing (ms : List Bytes) (h : History) (i : Bytes) (n : Node) : Type 0 where
  pub held : (t k : ℕ) → IsShared h i t k → (t ≤ n.current_term) × Holds h n t k
  pub commit : MayCommit ms h n.log n.current_term n.commit_index
  pub map : IsMap n.match_index
  pub peers : (p : Bytes) → 0 < index_of n.match_index p → (p ≡ i) ⊎ IsMember n.peers p
  pub members : (p : Bytes) → IsMember n.peers p → IsMember ms p
  pub leads_member : n.state ≡ leader → IsMember ms i
  pub runs_member : n.state ≡ candidate → IsMember ms i
  pub matches :
      n.state ≡ leader → (p : Bytes) → index_of n.match_index p ≤ h.shared p n.current_term
  pub runs : n.state ≡ candidate → h.ran i n.current_term ≡ (last_index n, last_term n)

pub record IsAgreed (ms : List Bytes) (s : System) : Type 0 where
  pub counted : IsCounted ms s.past
  pub knows : (i : Bytes) → IsKnowing ms s.past i (s.cluster.nodes i)
  pub cast :
      (v : Bytes) (t : ℕ)
      → s.cluster.cast v t ≢ []
      → (t ≤ (s.cluster.nodes (s.cluster.cast v t)).current_term)
        × ((0 < length (s.past.log_of t)) ⊎ Backs s.past v (s.past.ran (s.cluster.cast v t) t) t)
  pub backed :
      (t : ℕ) (v : Bytes)
      → 0 < length (s.past.log_of t)
      → s.past.backers t v ≡ true
      → t ≤ (s.cluster.nodes v).current_term
  pub commits :
      (args : AppendEntriesArgs)
      → IsIn s.requests args
      → MayCommit ms s.past (s.past.log_of args.term) args.term args.leader_commit
  pub answered :
      (a : Answer)
      → IsIn s.answers a
      → a.reply.success ≡ true
      → reach a.args ≤ s.past.shared a.peer a.args.term
  pub asked :
      (args : RequestVoteArgs)
      → IsIn s.asks args
      → (s.past.ran args.candidate_id args.term ≡ (args.last_log_index, args.last_log_term))
        × (args.term ≤ (s.cluster.nodes args.candidate_id).current_term)
