-- ===== src/Raft/Replication.antt =====
-- Log replication, raft/replication.go: the leader's request and its answer, the commit index, and
-- the handler on the follower.
use distqueue.Base.{
  ℕ, zero, suc, ◌+◌, ◌-◌, Bool, true, false, not, ◌&&◌, ◌||◌, none, some, List, [], ◌∷◌, ◌++◌, ltb,
  leb, ◌==◌, if◌then◌else◌, Bytes, length, drop, get_or, count, min, max,
}
use distqueue.Base.Maps.{get, insert, values}
use distqueue.Raft.{
  Node, LogEntry, is_leader, is_follower, first_index, last_index, term_at, slice_from,
  truncate_from, no_entry, majority, persist, become_follower,
}

pub record AppendEntriesArgs : Type 0 where
  pub term : ℕ
  pub leader_id : Bytes
  pub prev_log_index : ℕ
  pub prev_log_term : ℕ
  pub entries : List LogEntry
  pub leader_commit : ℕ

pub record AppendEntriesReply : Type 0 where
  pub term : ℕ
  pub success : Bool
  pub conflict_term : ℕ
  pub conflict_index : ℕ

-- A read of a Go map of numbers: 0 for a missing key.
abbrev pub index_of : List (Bytes × ℕ) → Bytes → ℕ
index_of m p = elim (get m p) [ none ↦ 0 | some i ↦ i ]

-- The first half of `sendAppendEntries`, of a leader that still has the entries that the peer needs.
unfoldable pub append_args : Node → Bytes → AppendEntriesArgs
append_args n peer =
    let next = index_of n.next_index peer in
    record {
      term = n.current_term;
      leader_id = n.id;
      prev_log_index = next - 1;
      prev_log_term = term_at n (next - 1);
      entries = slice_from n next;
      leader_commit = n.commit_index;
    }

-- How many of the cluster are known to have the entry `i`.
abbrev pub replicas : Node → ℕ → ℕ
replicas n i = count (λ m. leb i m) (values n.match_index)

-- The loop of `advanceCommitLocked`, from the index `i` downwards.
unfoldable pub advance_loop : Node → ℕ → Node
advance_loop n zero = n
advance_loop n (suc i) =
    let rest = advance_loop n i in
    if not (ltb n.commit_index (suc i) && ltb (first_index n) (suc i))
    then n
    else if not (term_at n (suc i) == n.current_term)
    then n
    else if leb (majority n) (replicas n (suc i))
    then record n { commit_index = suc i }
    else rest

-- `advanceCommitLocked`
unfoldable pub advance_commit : Node → Node
advance_commit n = advance_loop n (last_index n)

-- The loop that looks for the last entry of the term `t`, from the index `i` downwards; 0 if there
-- is none.
unfoldable pub last_of_term : Node → ℕ → ℕ → ℕ
last_of_term n t zero = 0
last_of_term n t (suc i) =
    let rest = last_of_term n t i in
    if leb (suc i) (first_index n)
    then 0
    else if term_at n (suc i) == t
    then suc i
    else if ltb (term_at n (suc i)) t
    then 0
    else rest

-- The next index for a peer that has refused.
unfoldable pub backed_up : Node → AppendEntriesReply → ℕ
backed_up n reply =
    let last = last_of_term n reply.conflict_term (last_index n) in
    let next = if ltb 0 reply.conflict_term && ltb 0 last then last + 1 else reply.conflict_index in
    max (max next (first_index n)) 1

-- The second half of `sendAppendEntries`: the answer to a request that was sent in `term`.
unfoldable pub append_reply : Node → ℕ → AppendEntriesArgs → Bytes → AppendEntriesReply → Node
append_reply n term args peer reply =
    if ltb n.current_term reply.term
    then persist (become_follower n reply.term)
    else if not (is_leader n.state) || not (n.current_term == term)
    then n
    else if reply.success
    then (let match =
          max (args.prev_log_index + length args.entries) (index_of n.match_index peer) in
        advance_commit (record n {
          match_index = insert n.match_index peer match;
          next_index = insert n.next_index peer (match + 1);
        }))
    else record n { next_index = insert n.next_index peer (backed_up n reply) }

-- The loop of the follower that looks for the first entry of the term `t`, from `i` downwards.
unfoldable pub first_of_term : Node → ℕ → ℕ → ℕ
first_of_term n t zero = 0
first_of_term n t (suc i) =
    let rest = first_of_term n t i in
    if ltb (first_index n + 1) (suc i) && term_at n i == t then rest else suc i

-- The loop that appends: entries that are there are skipped, and the first other one replaces the
-- tail of the log. The second result is `changed`.
unfoldable pub append_each : Node → List LogEntry → Node × Bool
append_each n [] = (n, false)
append_each n (e ∷ es) =
    let rest = append_each n es in
    if leb e.index (last_index n)
    then if term_at n e.index == e.term then rest else (
      record (truncate_from n e.index) { log = (truncate_from n e.index).log ++ e ∷ es },
      true,
    )
    else (record n { log = n.log ++ e ∷ es }, true)

-- The end of the handler: the entries behind an entry that the follower has, and the commit index.
unfoldable pub accept : Node → ℕ → List LogEntry → ℕ → Node
accept n prev entries leader_commit =
    let (n', changed) = append_each n entries in
    let saved = if changed then persist n' else n' in
    if ltb saved.commit_index leader_commit
    then record saved { commit_index = min leader_commit (prev + length entries) }
    else saved

-- The consistency check, and what follows it.
unfoldable pub check_append : Node → ℕ → ℕ → List LogEntry → ℕ → Node × AppendEntriesReply
check_append n prev prev_term entries leader_commit =
    if ltb (last_index n) prev
    then (
      n,
      record {
        term = n.current_term;
        success = false;
        conflict_term = 0;
        conflict_index = last_index n + 1;
      },
    )
    else if not (term_at n prev == prev_term)
    then (
      n,
      record {
        term = n.current_term;
        success = false;
        conflict_term = term_at n prev;
        conflict_index = first_of_term n (term_at n prev) prev;
      },
    )
    else (
      accept n prev entries leader_commit,
      record { term = n.current_term; success = true; conflict_term = 0; conflict_index = 0 },
    )

-- The node that hears from the leader of the term `term`.
unfoldable pub follow : Node → ℕ → Bytes → Node
follow n term id =
    let n' =
      if ltb n.current_term term || not (is_follower n.state)
      then persist (become_follower n term)
      else n in
    record n' { leader_id = id }

-- `HandleAppendEntries`
unfoldable pub handle_append_entries : Node → AppendEntriesArgs → Node × AppendEntriesReply
handle_append_entries n args =
    if ltb args.term n.current_term
    then (
      n,
      record { term = n.current_term; success = false; conflict_term = 0; conflict_index = 0 },
    )
    else (let n' = follow n args.term args.leader_id in
        let first = first_index n' in
        if ltb args.prev_log_index first
        then if ltb (length args.entries) (first - args.prev_log_index)
          then (
            n',
            record {
              term = n'.current_term;
              success = true;
              conflict_term = 0;
              conflict_index = 0;
            },
          )
          else check_append n' first (get_or n'.log 0 no_entry).term
              (drop (first - args.prev_log_index) args.entries) args.leader_commit
        else check_append n' args.prev_log_index args.prev_log_term args.entries args.leader_commit)
