-- ===== src/Raft/Consensus/Agreement.antt =====
-- What the nodes of a cluster know of committed entries in each step, raft/raft.go,
-- raft/election.go and raft/replication.go.
use distqueue.Base.{
  ℕ, ◌+◌, ◌<◌, ◌≡◌, ◌⊎◌, inl, inr, refl, sym, subst, ◌∙◌, ◌==◌, List, ◌∷◌, arith, if-intro, Bytes,
  length,
}
use distqueue.Raft.{LogEntry}
use distqueue.Raft.Replication.{AppendEntriesArgs, append_args}
use distqueue.Raft.Installing.{append, send_append_entries}
use distqueue.Raft.Lifecycle.{new_node, read_persist, blank}
use distqueue.Raft.Cluster.{IsMember}
use distqueue.Raft.Cluster.Leaders.{new_cluster}
use distqueue.Raft.Consensus.{
  System, Move, Course, campaigns, answers, takes_in, proposes, sends, appends, hears, feeds,
  restarts, start, move, new_system, no_past,
}
use distqueue.Raft.Consensus.Logs.{at}
use distqueue.Raft.Consensus.Sent.{sent-lem}
use distqueue.Raft.Consensus.Matched.{IsMatched}
use distqueue.Raft.Consensus.Matches.{Move-IsMatched, no_past-led, no_past-terms}
use distqueue.Raft.Consensus.Facts.{MayCommit, IsKnowing, IsAgreed}
use distqueue.Raft.Consensus.Calm.{fed-IsAgreed, restarted-IsAgreed, no_match, none_match}
use distqueue.Raft.Consensus.Voting.{answered-IsAgreed}
use distqueue.Raft.Consensus.Running.{campaigned-IsAgreed}
use distqueue.Raft.Consensus.Hearing.{heard-IsAgreed}
use distqueue.Raft.Consensus.Taking.{appended-IsAgreed}
use distqueue.Raft.Consensus.Proposing.{proposed-IsAgreed}
use distqueue.Raft.Consensus.Winners.{taken_in-IsAgreed}

sent-IsAgreed :
    (ms : List Bytes) (s : System) (i peer : Bytes) (args : AppendEntriesArgs)
    → IsMatched ms s
    → IsAgreed ms s
    → send_append_entries (s.cluster.nodes i) peer ≡ append args
    → IsAgreed ms (record s { requests = args ∷ s.requests })
unfolding append_args
sent-IsAgreed ms s i peer args m a sent =
    let n = s.cluster.nodes i in
    let (leads, same, _) = sent-lem n peer args sent in
    let Good : AppendEntriesArgs → Type 0 =
      λ x. MayCommit ms s.past (s.past.log_of x.term) x.term x.leader_commit in
    let this : Good (append_args n peer) =
      subst (λ xs. MayCommit ms s.past xs n.current_term n.commit_index)
        (sym ((m.node i).led leads).1) (a.knows i).commit in
    record {
      counted = a.counted;
      knows = a.knows;
      cast = a.cast;
      backed = a.backed;
      commits = λ x sent. elim sent [
        | inl e ↦ subst Good (same ∙ e) this
        | inr before ↦ a.commits x before
      ];
      answered = a.answered;
      asked = a.asked;
    }

-- Each step keeps what is known of committed entries.
pub Move-IsAgreed :
    (ms : List Bytes) (s t : System) → Move ms s t → IsMatched ms s → IsAgreed ms s → IsAgreed ms t
Move-IsAgreed ms s _ (campaigns _ i member some_one) m a = campaigned-IsAgreed ms s m a i member
Move-IsAgreed ms s _ (answers _ j args asked) m a = answered-IsAgreed ms s m a j args asked
Move-IsAgreed ms s _ (takes_in _ b votes sent member once) m a =
    taken_in-IsAgreed ms s b votes m a sent member once
Move-IsAgreed ms s _ (proposes _ i command) m a = proposed-IsAgreed ms s i command m a
Move-IsAgreed ms s _ (sends _ i peer args sent) m a = sent-IsAgreed ms s i peer args m a sent
Move-IsAgreed ms s _ (appends _ i args sent) m a = appended-IsAgreed ms s i args m a sent
Move-IsAgreed ms s _ (hears _ i x sent peer) m a = heard-IsAgreed ms s m a i x sent peer
Move-IsAgreed ms s _ (feeds _ i n applying) m a = fed-IsAgreed ms s m a i n applying
Move-IsAgreed ms s _ (restarts _ i) m a = restarted-IsAgreed ms s m a i

pub Course-IsAgreed :
    (ms : List Bytes) (s t : System)
    → Course ms s t
    → IsMatched ms s × IsAgreed ms s
    → IsMatched ms t × IsAgreed ms t
Course-IsAgreed ms s _ (start _) h = h
Course-IsAgreed ms s t (move _ r _ c d) h =
    let (m, a) = Course-IsAgreed ms s r c h in
    (Move-IsMatched ms r t d m, Move-IsAgreed ms r t d m a)

-- The configuration of a cluster: each node knows the other members.
pub record IsConfig (ms : List Bytes) (peers : Bytes → List Bytes) : Type 0 where
  pub size : (v : Bytes) → length (peers v) + 1 ≡ length ms
  pub members : (v p : Bytes) → IsMember (peers v) p → IsMember ms p

new_node-IsKnowing :
    (ms : List Bytes) (peers : Bytes → List Bytes) (i : Bytes)
    → ((p : Bytes) → IsMember (peers i) p → IsMember ms p)
    → IsKnowing ms no_past i ((new_cluster peers).nodes i)
unfolding no_past new_cluster new_node read_persist blank
new_node-IsKnowing ms peers i members = record {
  held = λ t k had. absurd (omega arith);
  commit = inl refl;
  map = no_match;
  peers = λ p far. absurd (omega (arith, far, none_match p));
  members = members;
  leads_member = λ leads. absurd (cc);
  runs_member = λ runs. absurd (cc);
  matches = λ leads. absurd (cc);
  runs = λ runs. absurd (cc);
}

no_past-log : (t : ℕ) → (t ≡ 0) ⊎ (length (no_past.log_of t) ≡ 0)
unfolding no_past
no_past-log t =
    if-intro (λ (xs : List LogEntry). (t ≡ 0) ⊎ (length xs ≡ 0)) (t == 0) (λ h. inl (ground arith))
      (λ _. inr refl)

no_past-new : (t k : ℕ) → k < length (no_past.log_of t) → (at (no_past.log_of t) k).term ≡ t
no_past-new t k inside = elim (no_past-log t) [
  | inl first ↦ omega (arith, no_past-terms t k inside)
  | inr none_there ↦ absurd (omega arith)
]

pub new_system-IsAgreed :
    (ms : List Bytes) (peers : Bytes → List Bytes)
    → IsConfig ms peers
    → IsAgreed ms (new_system peers)
unfolding new_system new_cluster no_past
new_system-IsAgreed ms peers config = record {
  counted = record {
    starts = λ t positive led. absurd (no_past-led t positive led);
    origin = refl;
    old = λ t k inside early. absurd (omega arith);
    new = λ t k inside late. no_past-new t k inside;
    bound = λ v t. inl refl;
    most = λ t positive led. absurd (no_past-led t positive led);
    backs = λ t v positive led backs. absurd (cc);
  };
  knows = λ i. new_node-IsKnowing ms peers i (config.members i);
  cast = λ v t voted. absurd (voted refl);
  backed = λ t v led backs. absurd (cc);
  commits = λ args h. absurd h;
  answered = λ x h. absurd h;
  asked = λ args h. absurd h;
}
