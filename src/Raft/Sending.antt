-- ===== src/Raft/Sending.antt =====
-- The loops of a leader that send, raft/replication.go: the replicator of a peer and the heartbeat;
-- and what a follower makes of what they send.
use distqueue.Base.{
  ◌+◌, ◌-◌, ◌<◌, ◌≡◌, subst, not, ◌&&◌, Option, none, some, List, [], map, arith, leb,
  if◌then◌else◌, Bytes, if-intro, option-intro, drop,
}
use distqueue.Raft.{Node, is_leader, first_index, last_index}
use distqueue.Raft.Replication.{AppendEntriesArgs, append_args, index_of, handle_append_entries}
use distqueue.Raft.Installing.{Request, append, send_append_entries}
use distqueue.Raft.Indices.{IsFrom, IsLog, drop-IsFrom, handle_append_entries-IsLog}

-- A turn of `replicator`: it waits, or it sends.
unfoldable pub replicator : Node → Bytes → Option Request
replicator n peer =
    if is_leader n.state && leb (index_of n.next_index peer) (last_index n)
    then some (send_append_entries n peer)
    else none

-- A tick of `heartbeatLoop`: what goes to each peer.
unfoldable pub heartbeats : Node → List (Bytes × Request)
heartbeats n =
    if is_leader n.state then map (λ peer. (peer, send_append_entries n peer)) n.peers else []

args-IsFrom :
    (n : Node) (peer : Bytes)
    → IsLog n.log
    → first_index n < index_of n.next_index peer
    → IsFrom ((append_args n peer).prev_log_index + 1) (append_args n peer).entries
unfolding append_args
args-IsFrom n peer l h =
    let next = index_of n.next_index peer in
    subst (λ i. IsFrom i (drop (next - first_index n) n.log)) (omega (arith, h))
      (drop-IsFrom (first_index n) (next - first_index n) n.log l.1)

sent-IsFrom :
    (n : Node) (peer : Bytes) (args : AppendEntriesArgs)
    → IsLog n.log
    → send_append_entries n peer ≡ append args
    → IsFrom (args.prev_log_index + 1) args.entries
unfolding send_append_entries
sent-IsFrom n peer args l h =
    let Sent : Request → Type 0 =
      λ r. r ≡ append args → IsFrom (args.prev_log_index + 1) args.entries in
    if-intro Sent (not (is_leader n.state)) (λ _ e. absurd (cc))
      (λ _.
        if-intro Sent (leb (index_of n.next_index peer) (first_index n))
          (λ _. option-intro Sent n.snapshot (λ _ e. absurd (cc)) (λ _ _ e. absurd (cc)))
          (λ behind e.
            let same : append_args n peer ≡ args = cc (e) in
            subst (λ (a : AppendEntriesArgs). IsFrom (a.prev_log_index + 1) a.entries) same
              (args-IsFrom n peer l (ground (arith, behind)))))
      h

-- What the replicator of a leader sends leaves the log of any follower with consecutive indices
-- behind its boundary, if both logs have them.
pub replicator-IsLog :
    (n m : Node) (peer : Bytes) (args : AppendEntriesArgs)
    → IsLog n.log
    → IsLog m.log
    → replicator n peer ≡ some (append args)
    → IsLog (handle_append_entries m args).0.log
unfolding replicator
replicator-IsLog n m peer args l k h =
    if-intro
      (λ (o : Option Request). o ≡ some (append args) → IsLog (handle_append_entries m args).0.log)
      (is_leader n.state && leb (index_of n.next_index peer) (last_index n))
      (λ _ e.
        let same : send_append_entries n peer ≡ append args = cc (e) in
        handle_append_entries-IsLog m args k (sent-IsFrom n peer args l same))
      (λ _ e. absurd (cc)) h
