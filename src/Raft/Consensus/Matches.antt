-- ===== src/Raft/Consensus/Matches.antt =====
-- The logs of a cluster in each course, raft/raft.go, raft/election.go and raft/replication.go.
use distqueue.Base.{
  ℕ, zero, suc, ◌+◌, ◌≤◌, ◌<◌, ◌≡◌, refl, sym, subst, ◌==◌, List, [], ◌∷◌, arith, if-intro, length,
  get_or, Bytes,
}
use distqueue.Raft.{LogEntry, no_entry}
use distqueue.Raft.Lifecycle.{new_node, read_persist, blank}
use distqueue.Raft.Cluster.Leaders.{new_cluster, new_cluster-IsSound}
use distqueue.Raft.Consensus.{
  System, Move, Course, campaigns, answers, takes_in, proposes, sends, appends, hears, feeds,
  restarts, start, move, new_system, no_past,
}
use distqueue.Raft.Consensus.Logs.{at, Agree, Agree-refl, IsTold, IsTold-Agree}
use distqueue.Raft.Consensus.Matched.{IsMatched}
use distqueue.Raft.Consensus.Sent.{sent-IsMatched}
use distqueue.Raft.Consensus.Quiet.{
  campaigned-IsMatched, answered-IsMatched, heard-IsMatched, fed-IsMatched, restarted-IsMatched,
}
use distqueue.Raft.Consensus.Winning.{proposed-IsMatched, taken_in-IsMatched}
use distqueue.Raft.Consensus.Matching.{appended-IsMatched}

-- Each step keeps the logs of the cluster matched.
pub Move-IsMatched :
    (ms : List Bytes) (s t : System) → Move ms s t → IsMatched ms s → IsMatched ms t
Move-IsMatched ms s _ (campaigns _ i member some_one) m =
    campaigned-IsMatched ms s i m member some_one
Move-IsMatched ms s _ (answers _ j args asked) m = answered-IsMatched ms s j args m asked
Move-IsMatched ms s _ (takes_in _ b votes sent member once) m =
    taken_in-IsMatched ms s b votes m sent member once
Move-IsMatched ms s _ (proposes _ i command) m = proposed-IsMatched ms s i command m
Move-IsMatched ms s _ (sends _ i peer args sent) m = sent-IsMatched ms s i peer args m sent
Move-IsMatched ms s _ (appends _ i args sent) m = appended-IsMatched ms s i args m sent
Move-IsMatched ms s _ (hears _ i a sent peer) m = heard-IsMatched ms s i a m
Move-IsMatched ms s _ (feeds _ i n a) m = fed-IsMatched ms s i n m a
Move-IsMatched ms s _ (restarts _ i) m = restarted-IsMatched ms s i m

pub Course-IsMatched :
    (ms : List Bytes) (s t : System) → Course ms s t → IsMatched ms s → IsMatched ms t
Course-IsMatched ms s _ (start _) m = m
Course-IsMatched ms s t (move _ r _ c d) m = Move-IsMatched ms r t d (Course-IsMatched ms s r c m)

-- The first log has one entry, of the term 0.
abbrev IsFirst : ℕ → Type 0
IsFirst k = ((at (no_entry ∷ []) k).index ≡ k) × ((at (no_entry ∷ []) k).term ≡ 0)

at_first : (k : ℕ) → k < 1 → IsFirst k
at_first zero h = (refl, refl)
at_first (suc k) h = absurd (omega arith)

first_log-IsTold : IsTold no_past.log_of (no_entry ∷ [])
unfolding no_past
first_log-IsTold = record {
  index = λ k h. (at_first k (omega arith)).0;
  told = λ k h.
      subst (λ t. Agree (no_entry ∷ []) k (no_past.log_of t)) (sym (at_first k (omega arith)).1)
        (Agree-refl (no_entry ∷ []) k h);
}

pub no_past-terms : (t k : ℕ) → k < length (no_past.log_of t) → (at (no_past.log_of t) k).term ≤ t
unfolding no_past
no_past-terms t k =
    if-intro (λ xs. k < length xs → (at xs k).term ≤ t) (t == 0)
      (λ _ h. omega (arith, (at_first k (omega arith)).1)) (λ _ h. absurd (omega arith))

pub no_past-led : (t : ℕ) → 0 < t → 0 < length (no_past.log_of t) → ⊥
unfolding no_past
no_past-led t some_term =
    if-intro (λ (xs : List LogEntry). 0 < length xs → ⊥) (t == 0) (λ h _. ground arith)
      (λ _ h. omega arith)

no_past-IsTold : (t : ℕ) → IsTold no_past.log_of (no_past.log_of t)
unfolding no_past
no_past-IsTold t =
    if-intro (λ xs. IsTold no_past.log_of xs) (t == 0) (λ _. first_log-IsTold)
      (λ _. record { index = λ k h. absurd (omega arith); told = λ k h. absurd (omega arith) })

pub new_system-IsMatched :
    (ms : List Bytes) (peers : Bytes → List Bytes)
    → ((i : Bytes) → length (peers i) + 1 ≡ length ms)
    → IsMatched ms (new_system peers)
unfolding new_system no_past new_cluster new_node read_persist blank
new_system-IsMatched ms peers size = record {
  sound = new_cluster-IsSound ms peers size;
  past = record { early = refl; told = no_past-IsTold; terms = no_past-terms };
  node = λ i. record {
    some_entry = omega arith;
    told = first_log-IsTold;
    terms = λ k h. omega (arith, (at_first k (omega arith)).1);
    led = λ h. absurd (cc);
    runs = λ h. absurd (cc);
  };
  led = λ t some_term led. absurd (no_past-led t some_term led);
  fits = λ args h. absurd h;
  asked = λ args h. absurd h;
}

-- In any course of a cluster of new nodes that keep their whole logs, each with as many peers as
-- there are members but itself; where members with an id campaign, nodes answer vote requests,
-- propose, replicate, apply, crash and restart from their files, messages come late, more than once
-- or never, and votes of members are counted once: if the logs of two nodes have entries of the
-- same term at the same place, then up to there the index of each entry is its place and the two
-- logs are the same.
pub logs_match :
    (ms : List Bytes) (peers : Bytes → List Bytes) (s : System) (i j : Bytes) (k : ℕ)
    → ((v : Bytes) → length (peers v) + 1 ≡ length ms)
    → Course ms (new_system peers) s
    → k < length (s.cluster.nodes i).log
    → k < length (s.cluster.nodes j).log
    → (get_or (s.cluster.nodes i).log k no_entry).term
      ≡ (get_or (s.cluster.nodes j).log k no_entry).term
    → (l : ℕ) → l ≤ k
    → ((get_or (s.cluster.nodes i).log l no_entry).index ≡ l)
      × (get_or (s.cluster.nodes i).log l no_entry ≡ get_or (s.cluster.nodes j).log l no_entry)
logs_match ms peers s i j k size course in_i in_j term l below =
    let m = Course-IsMatched ms _ s course (new_system-IsMatched ms peers size) in
    let a = (m.node i).told in
    (
      a.index l (omega arith),
      (IsTold-Agree s.past.log_of _ _ k a (m.node j).told in_i in_j term).same l below,
    )
