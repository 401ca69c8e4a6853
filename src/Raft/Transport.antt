-- ===== src/Raft/Transport.antt =====
-- The transport of Raft calls, raft/grpc.go: the messages on the wire, both ends of a call, and the
-- connections. gRPC itself is an argument: how an address is dialed, and what a connection answers.
-- An `int` of Go has 64 bits, as the wire has.
use distqueue.Base.{ℕ, ◌≡◌, Bool, Option, none, some, List, map, Bytes}
use distqueue.Base.Maps.{get, insert}
use distqueue.Raft.{Node, LogEntry}
use distqueue.Raft.Election.{RequestVoteArgs, RequestVoteReply, handle_request_vote}
use distqueue.Raft.Replication.{AppendEntriesArgs, AppendEntriesReply, handle_append_entries}
use distqueue.Raft.Installing.{InstallSnapshotArgs, handle_install_snapshot}
use mathlib.Core.Option

-- The messages of raftpb.
pub record VoteRequest : Type 0 where
  pub term : ℕ
  pub candidate_id : Bytes
  pub last_log_index : ℕ
  pub last_log_term : ℕ

pub record VoteResponse : Type 0 where
  pub term : ℕ
  pub vote_granted : Bool

pub record WireEntry : Type 0 where
  pub index : ℕ
  pub term : ℕ
  pub command : Bytes

pub record AppendRequest : Type 0 where
  pub term : ℕ
  pub leader_id : Bytes
  pub prev_log_index : ℕ
  pub prev_log_term : ℕ
  pub entries : List WireEntry
  pub leader_commit : ℕ

pub record AppendResponse : Type 0 where
  pub term : ℕ
  pub success : Bool
  pub conflict_term : ℕ
  pub conflict_index : ℕ

pub record InstallRequest : Type 0 where
  pub term : ℕ
  pub leader_id : Bytes
  pub last_included_index : ℕ
  pub last_included_term : ℕ
  pub contents : Bytes

-- The conversions on the calling side.
unfoldable pub vote_request : RequestVoteArgs → VoteRequest
vote_request args = record {
  term = args.term;
  candidate_id = args.candidate_id;
  last_log_index = args.last_log_index;
  last_log_term = args.last_log_term;
}

unfoldable pub vote_reply_of : VoteResponse → RequestVoteReply
vote_reply_of resp = record { term = resp.term; vote_granted = resp.vote_granted }

unfoldable pub to_wire : LogEntry → WireEntry
to_wire e = record { index = e.index; term = e.term; command = e.command }

unfoldable pub append_request : AppendEntriesArgs → AppendRequest
append_request args = record {
  term = args.term;
  leader_id = args.leader_id;
  prev_log_index = args.prev_log_index;
  prev_log_term = args.prev_log_term;
  entries = map to_wire args.entries;
  leader_commit = args.leader_commit;
}

unfoldable pub append_reply_of : AppendResponse → AppendEntriesReply
append_reply_of resp = record {
  term = resp.term;
  success = resp.success;
  conflict_term = resp.conflict_term;
  conflict_index = resp.conflict_index;
}

unfoldable pub install_request : InstallSnapshotArgs → InstallRequest
install_request args = record {
  term = args.term;
  leader_id = args.leader_id;
  last_included_index = args.last_included_index;
  last_included_term = args.last_included_term;
  contents = args.contents;
}

-- The handlers of `GRPCServer`.
unfoldable pub serve_vote : Node → VoteRequest → Node × VoteResponse
serve_vote n req =
    let args : RequestVoteArgs = record {
      term = req.term;
      candidate_id = req.candidate_id;
      last_log_index = req.last_log_index;
      last_log_term = req.last_log_term;
    } in
    let r = handle_request_vote n args in
    (r.0, record { term = r.1.term; vote_granted = r.1.vote_granted })

unfoldable pub from_wire : WireEntry → LogEntry
from_wire e = record { index = e.index; term = e.term; command = e.command }

unfoldable pub serve_append : Node → AppendRequest → Node × AppendResponse
serve_append n req =
    let args : AppendEntriesArgs = record {
      term = req.term;
      leader_id = req.leader_id;
      prev_log_index = req.prev_log_index;
      prev_log_term = req.prev_log_term;
      entries = map from_wire req.entries;
      leader_commit = req.leader_commit;
    } in
    let r = handle_append_entries n args in
    (
      r.0,
      record {
        term = r.1.term;
        success = r.1.success;
        conflict_term = r.1.conflict_term;
        conflict_index = r.1.conflict_index;
      },
    )

-- The response has the term only.
unfoldable pub serve_install : Node → InstallRequest → Node × ℕ
serve_install n req =
    let args : InstallSnapshotArgs = record {
      term = req.term;
      leader_id = req.leader_id;
      last_included_index = req.last_included_index;
      last_included_term = req.last_included_term;
      contents = req.contents;
    } in
    handle_install_snapshot n args

-- gRPC: dialing an address, and the answer of a connection, where there is one.
pub record Service (C : Type 0) : Type 0 where
  pub dial : Bytes → Option C
  pub vote : C → VoteRequest → Option VoteResponse
  pub append : C → AppendRequest → Option AppendResponse
  pub install : C → InstallRequest → Option ℕ

pub record GrpcTransport (C : Type 0) : Type 0 where
  pub addrs : List (Bytes × Bytes)
  pub conns : List (Bytes × C)

module _ {C : Type 0} (service : Service C) where
  -- `client`
  unfoldable pub client : GrpcTransport C → Bytes → GrpcTransport C × Option C
  client t peer = elim (get t.conns peer) [
    | some c ↦ (t, some c)
    | none ↦ elim (get t.addrs peer) [
      | none ↦ (t, none)
      | some addr ↦ elim (service.dial addr) [
        | none ↦ (t, none)
        | some c ↦ (record t { conns = insert t.conns peer c }, some c)
      ]
    ]
  ]

  -- `RequestVote`, `AppendEntries` and `InstallSnapshot` of the transport; none is an error.
  unfoldable pub request_vote :
      GrpcTransport C → Bytes → RequestVoteArgs → GrpcTransport C × Option RequestVoteReply
  request_vote t peer args =
      let (t', conn) = client t peer in
      (
        t',
        elim conn [
          | none ↦ none
          | some c ↦ Option.map vote_reply_of (service.vote c (vote_request args))
        ],
      )

  unfoldable pub append_entries :
      GrpcTransport C → Bytes → AppendEntriesArgs → GrpcTransport C × Option AppendEntriesReply
  append_entries t peer args =
      let (t', conn) = client t peer in
      (
        t',
        elim conn [
          | none ↦ none
          | some c ↦ Option.map append_reply_of (service.append c (append_request args))
        ],
      )

  unfoldable pub install_snapshot :
      GrpcTransport C → Bytes → InstallSnapshotArgs → GrpcTransport C × Option ℕ
  install_snapshot t peer args =
      let (t', conn) = client t peer in
      (t', elim conn [ none ↦ none | some c ↦ service.install c (install_request args) ])

  -- A connection that a node is behind.
  pub record IsServed (c : C) (n : Node) : Type 0 where
    pub votes : (req : VoteRequest) → service.vote c req ≡ some (serve_vote n req).1
    pub appends : (req : AppendRequest) → service.append c req ≡ some (serve_append n req).1
    pub installs : (req : InstallRequest) → service.install c req ≡ some (serve_install n req).1
