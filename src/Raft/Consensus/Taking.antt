-- ===== src/Raft/Consensus/Taking.antt =====
-- A follower answers a request of a leader, `HandleAppendEntries` of raft/replication.go, and what
-- the nodes know.
use distqueue.Base.{◌≤◌, ◌≡◌, inl, inr, refl, subst, ap, true, List, ◌∷◌, if-intro, Bytes, length}
use distqueue.Raft.Replication.{AppendEntriesArgs, handle_append_entries}
use distqueue.Raft.Safety.{handle_append_entries-Keeps}
use distqueue.Raft.Roles.{handle_append_entries-Stays}
use distqueue.Raft.Cluster.{with_node}
use distqueue.Raft.Consensus.{System, Answer, History, IsIn, share, appended}
use distqueue.Raft.Consensus.Handling.{reach, Handles}
use distqueue.Raft.Consensus.Checked.{handle_append_entries-Handles}
use distqueue.Raft.Consensus.Matched.{IsMatched}
use distqueue.Raft.Consensus.Facts.{IsAgreed}
use distqueue.Raft.Consensus.Sharing.{shared_to, shared_to-here}
use distqueue.Raft.Consensus.Onward.{Onward, Onward-refl}
use distqueue.Raft.Consensus.Frame.{moved-IsAgreed}
use distqueue.Raft.Consensus.Votes.{handle_append_entries-IsUnvoted}
use distqueue.Raft.Consensus.Backing.{with_node-cast}
use distqueue.Raft.Consensus.Calm.{calm-IsAgreed, same-IsKnowing}
use distqueue.Raft.Consensus.Copying.{copied-Onward, copied-IsKnowing, copied-IsCounted}

-- One more answer has been sent.
with_answer-IsAgreed :
    (ms : List Bytes) (s : System) (x : Answer)
    → IsAgreed ms s
    → (x.reply.success ≡ true → reach x.args ≤ s.past.shared x.peer x.args.term)
    → IsAgreed ms (record s { answers = x ∷ s.answers })
with_answer-IsAgreed ms s x a new = record {
  counted = a.counted;
  knows = a.knows;
  cast = a.cast;
  backed = a.backed;
  commits = a.commits;
  answered = λ y sent. elim sent [
    | inl e ↦
        subst
          (λ (z : Answer). z.reply.success ≡ true → reach z.args ≤ s.past.shared z.peer z.args.term)
          e new
    | inr before ↦ a.answered y before
  ];
  asked = a.asked;
}

pub appended-IsAgreed :
    (ms : List Bytes) (s : System) (i : Bytes) (args : AppendEntriesArgs)
    → IsMatched ms s
    → IsAgreed ms s
    → IsIn s.requests args
    → IsAgreed ms (appended s i args)
unfolding appended with_node share
appended-IsAgreed ms s i args m a sent =
    let c = s.cluster in
    let n = c.nodes i in
    let node = m.node i in
    let r = handle_append_entries n args in
    let stays = handle_append_entries-Stays n args in
    let later = (handle_append_entries-Keeps n args).grows in
    let unvoted = handle_append_entries-IsUnvoted n args in
    let does : Handles n (s.past.log_of args.term) args (r.0, r.1) =
      handle_append_entries-Handles s.past.log_of n (s.past.log_of args.term) args node.some_entry
        node.told (m.past.told args.term) (ap length m.past.early) (m.fits args sent) in
    let x : Answer = record { peer = i; args = args; reply = r.1 } in
    if-intro
      (λ (h : History).
        IsAgreed ms (record s { cluster = with_node c i r.0; answers = x ∷ s.answers; past = h }))
      r.1.success
      (λ success.
        with_answer-IsAgreed ms
          (record s {
            cluster = with_node c i r.0;
            past = record s.past { shared = shared_to s.past.shared i args.term (reach args) };
          })
          x
          (moved-IsAgreed ms s m a i r.0 (with_node c i r.0) _ refl later
            (copied-Onward ms s m a i args r.0 r.1 does success sent)
            (copied-IsCounted ms s m a i args r.0 r.1 does success sent)
            (copied-IsKnowing ms s m a i args r.0 r.1 does success sent stays)
            (λ v t voted. inl (with_node-cast c i r.0 v t (m.sound.past i) unvoted voted))
            (λ t v led backs. inr (a.backed t v led backs)))
          (λ _. shared_to-here s.past.shared i args.term (reach args)))
      (λ refused.
        with_answer-IsAgreed ms (record s { cluster = with_node c i r.0 }) x
          (calm-IsAgreed ms s m a i r.0 later unvoted (
            same-IsKnowing ms s.past i n r.0 (a.knows i) stays later (does.refused refused).0
              (does.refused refused).1 does.match))
          (λ success. absurd (cc (success, refused))))

pub appended-Onward :
    (ms : List Bytes) (s : System) (i : Bytes) (args : AppendEntriesArgs)
    → IsMatched ms s
    → IsAgreed ms s
    → IsIn s.requests args
    → Onward i (s.cluster.nodes i) s.past (appended s i args).past
unfolding appended share
appended-Onward ms s i args m a sent =
    let n = s.cluster.nodes i in
    let node = m.node i in
    let r = handle_append_entries n args in
    let does : Handles n (s.past.log_of args.term) args (r.0, r.1) =
      handle_append_entries-Handles s.past.log_of n (s.past.log_of args.term) args node.some_entry
        node.told (m.past.told args.term) (ap length m.past.early) (m.fits args sent) in
    if-intro (Onward i n s.past) r.1.success
      (λ success. copied-Onward ms s m a i args r.0 r.1 does success sent)
      (λ _. Onward-refl i n s.past)
