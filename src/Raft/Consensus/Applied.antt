-- ===== src/Raft/Consensus/Applied.antt =====
-- What the nodes of a cluster apply, the applier of raft/replication.go on every node.
use distqueue.Base.{
  ℕ, zero, suc, ◌+◌, ◌-◌, ◌≤◌, ◌<◌, ◌≡◌, refl, sym, subst, ap, ◌∙◌, List, arith, leb, if◌then◌else◌,
  if-intro, option-intro, Bytes, length, get_or,
}
use distqueue.Raft.{Node, LogEntry, first_index, no_entry}
use distqueue.Raft.Lifecycle.{applier, entries_from, Delivery, batch}
use distqueue.Raft.Consensus.{System, Course, start, move, new_system}
use distqueue.Raft.Consensus.Matches.{Course-IsMatched, new_system-IsMatched}
use distqueue.Raft.Consensus.Agreement.{IsConfig}
use distqueue.Raft.Consensus.Committed.{commits_agree}

get_or-entries_from :
    (n : Node) (i k p : ℕ)
    → p < k
    → get_or (entries_from n i k) p no_entry ≡ get_or n.log (i + p - first_index n) no_entry
unfolding entries_from
get_or-entries_from n i zero p h = absurd (omega arith)
get_or-entries_from n i (suc k) zero h = ap (λ j. get_or n.log j no_entry) (omega arith)
get_or-entries_from n i (suc k) (suc p) h =
    get_or-entries_from n (i + 1) k p (omega arith)
    ∙ ap (λ j. get_or n.log j no_entry) (omega arith)

length-entries_from : (n : Node) (i k : ℕ) → length (entries_from n i k) ≡ k
unfolding entries_from
length-entries_from n i zero = refl
length-entries_from n i (suc k) = ap suc (length-entries_from n (i + 1) k)

-- A batch of a node with its whole log has committed entries at their places.
record IsTaken (n : Node) (es : List LogEntry) (p : ℕ) : Type 0 where
  pub place : ℕ
  pub positive : 0 < place
  pub committed : place ≤ n.commit_index
  pub entry : get_or es p no_entry ≡ get_or n.log place no_entry

from-IsTaken :
    (n : Node) (from p : ℕ)
    → first_index n ≡ 0
    → 0 < from
    → p < length (entries_from n from (n.commit_index + 1 - from))
    → IsTaken n (entries_from n from (n.commit_index + 1 - from)) p
from-IsTaken n from p first positive h =
    let k = n.commit_index + 1 - from in
    let short : p < k = omega (arith, h, length-entries_from n from k) in
    record {
      place = from + p;
      positive = omega arith;
      committed = omega arith;
      entry =
          get_or-entries_from n from k p short
          ∙ ap (λ j. get_or n.log j no_entry) (omega (arith, first));
    }

batch-IsTaken :
    (n : Node) (es : List LogEntry) (p : ℕ)
    → first_index n ≡ 0
    → (applier n).1 ≡ batch es
    → p < length es
    → IsTaken n es p
unfolding applier
batch-IsTaken n es p first =
    let P : Node × Delivery → Type 0 = λ r. r.1 ≡ batch es → p < length es → IsTaken n es p in
    option-intro P n.pending_snapshot
      (λ _.
        if-intro P (leb n.commit_index n.last_applied) (λ _ e _. absurd (cc))
          (λ _ e h.
            let from =
              if leb (n.last_applied + 1) (first_index n)
              then first_index n + 1
              else n.last_applied + 1 in
            let positive : 0 < from =
              if-intro (λ x. 0 < x) (leb (n.last_applied + 1) (first_index n)) (λ _. omega arith)
                (λ _. omega arith) in
            let same : entries_from n from (n.commit_index + 1 - from) ≡ es = cc (e) in
            subst (λ xs. IsTaken n xs p) same
              (from-IsTaken n from p first positive (subst (λ xs. p < length xs) (sym same) h))))
      (λ _ _ e _. absurd (cc))

pub Course-trans :
    (ms : List Bytes) (r s t : System) → Course ms r s → Course ms s t → Course ms r t
Course-trans ms r s _ c (start _) = c
Course-trans ms r s t c (move _ m _ d step) = move r m t (Course-trans ms r s m c d) step

-- In any course of a cluster of new nodes that keep their whole logs, whose peers are members, for
-- each as many as there are members but itself; where members with an id campaign, nodes answer
-- vote requests, propose, replicate, apply, crash and restart from their files, messages come late,
-- more than once or never, and votes of members are counted once: if the applier of a node delivers
-- a batch of entries, and that of a node, then or later, delivers one too, then entries of the two
-- batches that have the same index are the same entry.
pub applied_agree :
    (ms : List Bytes) (peers : Bytes → List Bytes) (s t : System) (i j : Bytes)
    (es fs : List LogEntry) (p q : ℕ)
    → IsConfig ms peers
    → Course ms (new_system peers) s
    → Course ms s t
    → (applier (s.cluster.nodes i)).1 ≡ batch es
    → (applier (t.cluster.nodes j)).1 ≡ batch fs
    → p < length es
    → q < length fs
    → (get_or es p no_entry).index ≡ (get_or fs q no_entry).index
    → get_or es p no_entry ≡ get_or fs q no_entry
applied_agree ms peers s t i j es fs p q config before after sent_i sent_j in_es in_fs same =
    let m = Course-IsMatched ms _ s before (new_system-IsMatched ms peers config.size) in
    let m' = Course-IsMatched ms s t after m in
    let a = m.node i in
    let b = m'.node j in
    let x = batch-IsTaken (s.cluster.nodes i) es p (a.told.index 0 a.some_entry) sent_i in_es in
    let y = batch-IsTaken (t.cluster.nodes j) fs q (b.told.index 0 b.some_entry) sent_j in_fs in
    let in_x =
      (commits_agree ms peers s s i i x.place config before (start s) x.positive x.committed
        x.committed).0 in
    let in_y =
      (commits_agree ms peers t t j j y.place config (Course-trans ms _ s t before after) (start t)
        y.positive y.committed y.committed).0 in
    let places : x.place ≡ y.place = omega (
      arith,
      a.told.index x.place in_x,
      b.told.index y.place in_y,
      ap (λ (e : LogEntry). e.index) x.entry,
      ap (λ (e : LogEntry). e.index) y.entry,
      same,
    ) in
    let agree =
      (commits_agree ms peers s t i j x.place config before after x.positive x.committed
        (omega (arith, y.committed))).2 in
    x.entry ∙ agree ∙ ap (λ k. get_or (t.cluster.nodes j).log k no_entry) places ∙ sym y.entry
