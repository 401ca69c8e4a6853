-- ===== src/Raft/Consensus/Quiet.antt =====
-- The steps of a node that leave its log alone, raft/election.go, raft/replication.go and
-- raft/persist.go.
use distqueue.Base.{
  ℕ, ◌+◌, ◌≤◌, ◌<◌, ◌≡◌, ◌≢◌, inl, inr, refl, sym, subst, ap, ◌∙◌, not, ◌||◌, List, [], arith, ltb,
  ◌==◌, if-intro, length, Bytes, some,
}
use distqueue.Raft.{Node, LogEntry, is_leader, persist, become_follower}
use distqueue.Raft.Election.{RequestVoteArgs, start_election, handle_request_vote}
use distqueue.Raft.Replication.{AppendEntriesArgs, AppendEntriesReply, append_reply}
use distqueue.Raft.Applying.{Applying-IsFed, IsFed-Keeps, IsFed-Stays}
use distqueue.Raft.Lifecycle.{Applying, new_node, read_persist, blank}
use distqueue.Raft.Commit.{advance_commit-Commits}
use distqueue.Raft.Safety.{
  Keeps, IsSaved, append_reply-Keeps, start_election-Keeps, handle_request_vote-Keeps,
}
use distqueue.Raft.Roles.{Stays, append_reply-Stays, handle_request_vote-Stays, restart-Stays}
use distqueue.Raft.Cluster.{Cluster, IsMember, with_node, with_poll, campaign, answer, update}
use distqueue.Raft.Cluster.Elected.{IsSound, Grow, with_node-Grow}
use distqueue.Raft.Cluster.Moves.{Stays-IsSound, campaign-IsSound, answer-IsSound, restart-Keeps}
use distqueue.Raft.Consensus.{System, Answer, IsIn, campaigned, answered, heard, restarted}
use distqueue.Raft.Consensus.Matched.{
  IsNode, IsLed, IsMatched, Stays-IsNode, updated-IsNode, updated-IsLed,
}

pub append_reply-log :
    (n : Node) (term : ℕ) (args : AppendEntriesArgs) (peer : Bytes) (reply : AppendEntriesReply)
    → (append_reply n term args peer reply).log ≡ n.log
unfolding append_reply persist become_follower
append_reply-log n term args peer reply =
    if-intro (λ (x : Node). x.log ≡ n.log) (ltb n.current_term reply.term) (λ _. ground arith)
      (λ _.
        if-intro (λ (x : Node). x.log ≡ n.log)
          (not (is_leader n.state) || not (n.current_term == term)) (λ _. refl)
          (λ _.
            if-intro (λ (x : Node). x.log ≡ n.log) reply.success
              (λ _. elim (advance_commit-Commits _) [
                | inl e ↦ ap (λ (x : Node). x.log) e
                | inr c ↦ ap (λ (x : Node). x.log) c.only
              ])
              (λ _. refl)))

pub start_election-log : (n : Node) → (start_election n).0.log ≡ n.log
unfolding start_election persist
start_election-log n = refl

pub start_election-id : (n : Node) → (start_election n).1.candidate_id ≡ n.id
unfolding start_election persist
start_election-id n = refl

pub handle_request_vote-log :
    (n : Node) (args : RequestVoteArgs) → (handle_request_vote n args).0.log ≡ n.log
unfolding handle_request_vote persist become_follower
handle_request_vote-log n args = ground arith

pub restart-log :
    (n : Node)
    → IsSaved n
    → (new_node n.id n.peers (record { state_file = some n.disk; snapshot_file = [] })).log ≡ n.log
unfolding new_node read_persist blank
restart-log n s = ap (λ d. d.log) s

-- Only the node `i` has moved on, and the cluster is `c`.
pub moved-IsMatched :
    (ms : List Bytes) (s : System) (i : Bytes) (n : Node) (c : Cluster)
    → IsMatched ms s
    → IsSound ms c
    → c.nodes ≡ update s.cluster.nodes i n
    → Grow s.cluster.cast c.cast
    → Stays (s.cluster.nodes i) n
    → Keeps (s.cluster.nodes i) n
    → n.log ≡ (s.cluster.nodes i).log
    → IsMatched ms (record s { cluster = c })
moved-IsMatched ms s i n c m sound nodes g stays keeps log =
    let IsAt : (Bytes → Node) → Type 0 =
      λ f. (j : Bytes) → IsNode s.past.log_of s.past.leader_of j (f j) in
    record {
      sound = sound;
      past = m.past;
      node = subst IsAt (sym nodes) (
          updated-IsNode s.past.log_of s.past.leader_of s.cluster.nodes i n
            (Stays-IsNode s.past.log_of s.past.leader_of i (s.cluster.nodes i) n stays keeps log
              (m.node i))
            (λ j _. m.node j));
      led = λ t some_term led.
          subst (λ f. IsLed ms f c.cast s.past.leader_of t) (sym nodes)
            (updated-IsLed ms s.cluster.nodes s.cluster.cast c.cast s.past.leader_of i n t g
              keeps.grows (m.led t some_term led));
      fits = m.fits;
      asked = m.asked;
    }

module _ (ms : List Bytes) (s : System) (m : IsMatched ms s) (i : Bytes) (n : Node) where
  pub quiet-IsMatched :
      Stays (s.cluster.nodes i) n
      → Keeps (s.cluster.nodes i) n
      → n.log ≡ (s.cluster.nodes i).log
      → IsMatched ms (record s { cluster = with_node s.cluster i n })
  unfolding with_node
  quiet-IsMatched stays keeps log =
      moved-IsMatched ms s i n (with_node s.cluster i n) m
        (Stays-IsSound ms s.cluster i n m.sound stays keeps) refl
        (with_node-Grow s.cluster i n (m.sound.past i) keeps) stays keeps log

pub heard-IsMatched :
    (ms : List Bytes) (s : System) (i : Bytes) (a : Answer)
    → IsMatched ms s
    → IsMatched ms (heard s i a)
unfolding heard
heard-IsMatched ms s i a m =
    let n = s.cluster.nodes i in
    quiet-IsMatched ms s m i _ (append_reply-Stays n a.args.term a.args a.peer a.reply)
      (append_reply-Keeps n a.args.term a.args a.peer a.reply)
      (append_reply-log n a.args.term a.args a.peer a.reply)

pub fed-IsMatched :
    (ms : List Bytes) (s : System) (i : Bytes) (n : Node)
    → IsMatched ms s
    → Applying (s.cluster.nodes i) n
    → IsMatched ms (record s { cluster = with_node s.cluster i n })
fed-IsMatched ms s i n m a =
    let old = s.cluster.nodes i in
    let fed = Applying-IsFed old n a in
    quiet-IsMatched ms s m i n (IsFed-Stays old n fed) (IsFed-Keeps old n fed)
      (ap (λ (x : Node). x.log) fed)

pub restarted-IsMatched :
    (ms : List Bytes) (s : System) (i : Bytes) → IsMatched ms s → IsMatched ms (restarted s i)
unfolding restarted
restarted-IsMatched ms s i m =
    let n = s.cluster.nodes i in
    let saved = (m.sound.elected i).saved in
    quiet-IsMatched ms s m i _ (restart-Stays n []) (restart-Keeps n [] saved) (restart-log n saved)

pub answered-IsMatched :
    (ms : List Bytes) (s : System) (j : Bytes) (args : RequestVoteArgs)
    → IsMatched ms s
    → IsIn s.asks args
    → IsMatched ms (answered s j args)
unfolding answered answer
answered-IsMatched ms s j args m asked =
    let n = s.cluster.nodes j in
    let r = handle_request_vote n args in
    let q =
      quiet-IsMatched ms s m j r.0 (handle_request_vote-Stays n args)
        (handle_request_vote-Keeps n args) (handle_request_vote-log n args) in
    record {
      sound = answer-IsSound ms s.cluster j args m.sound (m.asked args asked);
      past = q.past;
      node = q.node;
      led = q.led;
      fits = q.fits;
      asked = q.asked;
    }

start_election-IsNode :
    (logs : ℕ → List LogEntry) (leaders : ℕ → Bytes) (i : Bytes) (n : Node)
    → ((t : ℕ) → 0 < t → 0 < length (logs t) → leaders t ≡ i → t ≤ n.current_term)
    → IsNode logs leaders i n
    → IsNode logs leaders i (start_election n).0
unfolding start_election persist
start_election-IsNode logs leaders i n led a = record {
  some_entry = a.some_entry;
  told = a.told;
  terms = λ k p. omega (arith, a.terms k p);
  led = λ leads. absurd (cc);
  runs = λ _. (
    omega arith,
    λ some_log now. absurd (omega (arith, led (n.current_term + 1) (omega arith) some_log now)),
  );
}

pub campaigned-IsMatched :
    (ms : List Bytes) (s : System) (i : Bytes)
    → IsMatched ms s
    → IsMember ms i
    → i ≢ []
    → IsMatched ms (campaigned s i)
unfolding campaigned campaign with_node with_poll
campaigned-IsMatched ms s i m member some_one =
    let c = s.cluster in
    let n = (start_election (c.nodes i)).0 in
    let keeps = start_election-Keeps (c.nodes i) in
    let g : Grow c.cast (with_node c i n).cast = with_node-Grow c i n (m.sound.past i) keeps in
    record {
      sound = campaign-IsSound ms c i m.sound member some_one;
      past = m.past;
      node =
          updated-IsNode s.past.log_of s.past.leader_of c.nodes i n
            (start_election-IsNode s.past.log_of s.past.leader_of i (c.nodes i)
              (λ t some_term led now.
                subst (λ x. t ≤ (c.nodes x).current_term) now (m.led t some_term led).0)
              (m.node i))
            (λ j _. m.node j);
      led = λ t some_term led.
          updated-IsLed ms c.nodes c.cast _ s.past.leader_of i n t g keeps.grows
            (m.led t some_term led);
      fits = m.fits;
      asked = λ args sent. elim sent [
        | inl e ↦
            subst (λ (a : RequestVoteArgs). a.candidate_id ≢ []) e
              (subst (λ (x : Bytes). x ≢ [])
                (sym (start_election-id (c.nodes i) ∙ (m.sound.elected i).id)) some_one)
        | inr before ↦ m.asked args before
      ];
    }
