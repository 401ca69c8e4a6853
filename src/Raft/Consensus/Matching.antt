-- ===== src/Raft/Consensus/Matching.antt =====
-- The logs of a cluster in each step, raft/raft.go, raft/election.go and raft/replication.go.
use distqueue.Base.{
  ℕ, ◌+◌, ◌≤◌, ◌<◌, ◌≡◌, inl, inr, sym, subst, ap, true, List, ◌∷◌, arith, if-intro, length, Bytes,
  Bool-cases,
}
use distqueue.Raft.{Node, LogEntry}
use distqueue.Raft.Replication.{AppendEntriesArgs, AppendEntriesReply, handle_append_entries}
use distqueue.Raft.Safety.{Keeps, handle_append_entries-Keeps}
use distqueue.Raft.Roles.{Stays, handle_append_entries-Stays}
use distqueue.Raft.Cluster.{with_node}
use distqueue.Raft.Cluster.Elected.{with_node-Grow}
use distqueue.Raft.Cluster.Moves.{Stays-IsSound}
use distqueue.Raft.Consensus.{System, History, IsIn, appended, share}
use distqueue.Raft.Consensus.Logs.{at, IsTold, IsTold-Agree_whole}
use distqueue.Raft.Consensus.Handling.{reach, Handles}
use distqueue.Raft.Consensus.Checked.{handle_append_entries-Handles}
use distqueue.Raft.Consensus.Histories.{IsHistory}
use distqueue.Raft.Consensus.Matched.{
  IsNode, IsMatched, Stays-IsNode, updated-IsNode, updated-IsLed,
}

module _ (logs : ℕ → List LogEntry) (leaders : ℕ → Bytes) (i : Bytes) (n : Node)
    (args : AppendEntriesArgs) (a : IsNode logs leaders i n) (h : IsHistory logs)
    (r : Node × AppendEntriesReply) (does : Handles n (logs args.term) args r) where
  followed-IsNode : r.1.success ≡ true → IsNode logs leaders i r.0
  followed-IsNode success =
      let f = does.taken success in
      let (term, later, follows) = does.term success in
      let ys = logs args.term in
      record {
        some_entry = omega (arith, f.agrees.left);
        told = elim f.whole [
          | inl e ↦ subst (IsTold logs) (sym e) a.told
          | inr size ↦
              IsTold-Agree_whole logs r.0.log ys (reach args) (h.told args.term) size f.agrees
        ];
        terms = λ k p. elim f.whole [
          | inl e ↦
              let before = a.terms k (subst (λ xs. k < length xs) e p) in
              omega
                (arith, term, later, subst (λ xs. (at xs k).term ≤ n.current_term) (sym e) before)
          | inr size ↦
              let same = f.agrees.same k (omega (arith, size, p)) in
              omega (
                arith,
                term,
                ap (λ (e : LogEntry). e.term) same,
                h.terms args.term k (omega (arith, f.agrees.right, size, p)),
              )
        ];
        led = λ leads. absurd (cc (leads, follows));
        runs = λ runs. absurd (cc (runs, follows));
      }

  pub handled-IsNode : Stays n r.0 → Keeps n r.0 → IsNode logs leaders i r.0
  handled-IsNode stays keeps = elim (Bool-cases r.1.success) [
    | inl success ↦ followed-IsNode success
    | inr refused ↦ Stays-IsNode logs leaders i n r.0 stays keeps (does.refused refused).0 a
  ]

share-IsMatched :
    (ms : List Bytes) (s : System) (i : Bytes) (t k : ℕ)
    → IsMatched ms s
    → IsMatched ms (record s { past = share s.past i t k })
unfolding share
share-IsMatched ms s i t k m = record {
  sound = m.sound;
  past = m.past;
  node = m.node;
  led = m.led;
  fits = m.fits;
  asked = m.asked;
}

pub appended-IsMatched :
    (ms : List Bytes) (s : System) (i : Bytes) (args : AppendEntriesArgs)
    → IsMatched ms s
    → IsIn s.requests args
    → IsMatched ms (appended s i args)
unfolding appended with_node
appended-IsMatched ms s i args m sent =
    let c = s.cluster in
    let n = c.nodes i in
    let node = m.node i in
    let r = handle_append_entries n args in
    let stays = handle_append_entries-Stays n args in
    let keeps = handle_append_entries-Keeps n args in
    let does =
      handle_append_entries-Handles s.past.log_of n (s.past.log_of args.term) args node.some_entry
        node.told (m.past.told args.term) (ap length m.past.early) (m.fits args sent) in
    let g = with_node-Grow c i r.0 (m.sound.past i) keeps in
    let s' : System = record s {
      cluster = with_node c i r.0;
      answers = record { peer = i; args = args; reply = r.1 } ∷ s.answers;
    } in
    let m' : IsMatched ms s' = record {
      sound = Stays-IsSound ms c i r.0 m.sound stays keeps;
      past = m.past;
      node =
          updated-IsNode s.past.log_of s.past.leader_of c.nodes i r.0
            (handled-IsNode s.past.log_of s.past.leader_of i n args node m.past r does stays keeps)
            (λ j _. m.node j);
      led = λ t some_term led.
          updated-IsLed ms c.nodes c.cast _ s.past.leader_of i r.0 t g keeps.grows
            (m.led t some_term led);
      fits = m.fits;
      asked = m.asked;
    } in
    if-intro (λ (h : History). IsMatched ms (record s' { past = h })) r.1.success
      (λ _. share-IsMatched ms s' i args.term (args.prev_log_index + length args.entries) m')
      (λ _. m')
