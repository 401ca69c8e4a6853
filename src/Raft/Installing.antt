-- ===== src/Raft/Installing.antt =====
-- Snapshots, raft/snapshot.go: cutting the log, sending a snapshot and installing one.
use distqueue.Base.{
  ℕ, ◌+◌, not, ◌&&◌, ◌||◌, none, some, List, [], ◌∷◌, ltb, leb, ◌==◌, if◌then◌else◌, Bytes, get_or,
  max,
}
use distqueue.Base.Maps.{insert}
use distqueue.Raft.{
  Node, LogEntry, is_leader, first_index, last_index, term_at, slice_from, no_entry, persist,
  become_follower,
}
use distqueue.Raft.Replication.{AppendEntriesArgs, append_args, index_of, follow}

pub record InstallSnapshotArgs : Type 0 where
  pub term : ℕ
  pub leader_id : Bytes
  pub last_included_index : ℕ
  pub last_included_term : ℕ
  pub contents : Bytes

-- `Snapshot`
unfoldable pub snapshot : Node → ℕ → Bytes → Node
snapshot n index contents =
    if leb index (first_index n) || ltb n.last_applied index
    then n
    else (let boundary : LogEntry = record {
      index = index;
      term = term_at n index;
      command = [];
    } in
        persist (record n { log = boundary ∷ slice_from n (index + 1); snapshot = some contents }))

-- What a leader sends to a peer: nothing, entries, or the snapshot where the entries are gone.
pub data Request : Type 0 where
  nothing : Request
  append : AppendEntriesArgs → Request
  install : InstallSnapshotArgs → Request

-- The first half of `sendAppendEntries`, and of `sendInstallSnapshot`, which it calls.
unfoldable pub send_append_entries : Node → Bytes → Request
send_append_entries n peer =
    if not (is_leader n.state)
    then nothing
    else if leb (index_of n.next_index peer) (first_index n)
    then elim n.snapshot [
      | none ↦ nothing
      | some contents ↦ install (record {
        term = n.current_term;
        leader_id = n.id;
        last_included_index = first_index n;
        last_included_term = (get_or n.log 0 no_entry).term;
        contents = contents;
      })
    ]
    else append (append_args n peer)

-- The second half of `sendInstallSnapshot`: the answer, a term, to a request sent in `term`.
unfoldable pub install_reply : Node → ℕ → InstallSnapshotArgs → Bytes → ℕ → Node
install_reply n term args peer reply =
    if ltb n.current_term reply
    then persist (become_follower n reply)
    else if not (is_leader n.state) || not (n.current_term == term)
    then n
    else (let match = max args.last_included_index (index_of n.match_index peer) in
        record n {
          match_index = insert n.match_index peer match;
          next_index = insert n.next_index peer (match + 1);
        })

-- The tail that the follower keeps: what is behind a boundary entry that it has.
unfoldable pub kept_tail : Node → InstallSnapshotArgs → List LogEntry
kept_tail n args =
    if leb args.last_included_index (last_index n)
      && term_at n args.last_included_index == args.last_included_term
    then slice_from n (args.last_included_index + 1)
    else []

-- `HandleInstallSnapshot`: the node, and the term of the reply.
unfoldable pub handle_install_snapshot : Node → InstallSnapshotArgs → Node × ℕ
handle_install_snapshot n args =
    if ltb args.term n.current_term
    then (n, n.current_term)
    else (let n' = follow n args.term args.leader_id in
        if leb args.last_included_index n'.commit_index
        then (n', n'.current_term)
        else (let boundary : LogEntry = record {
          index = args.last_included_index;
          term = args.last_included_term;
          command = [];
        } in
            let saved =
              persist
                (record n' { log = boundary ∷ kept_tail n' args; snapshot = some args.contents }) in
            (
              record saved {
                commit_index = args.last_included_index;
                pending_snapshot = some (record {
                  snapshot = args.contents;
                  snapshot_index = args.last_included_index;
                  snapshot_term = args.last_included_term;
                });
              },
              n'.current_term,
            )))
