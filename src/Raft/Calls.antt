-- ===== src/Raft/Calls.antt =====
-- A remote call against the call of its handler, raft/grpc.go.
use distqueue.Base.{◌≡◌, refl, ◌∙◌, ap, some, List, [], ◌∷◌, map, Bytes, arith}
use distqueue.Base.Maps.{get-insert}
use distqueue.Raft.{Node, LogEntry}
use distqueue.Raft.Election.{RequestVoteArgs, handle_request_vote}
use distqueue.Raft.Replication.{AppendEntriesArgs, AppendEntriesReply, handle_append_entries}
use distqueue.Raft.Installing.{InstallSnapshotArgs, handle_install_snapshot}
use distqueue.Raft.Transport.{
  Service, GrpcTransport, IsServed, client, vote_request, vote_reply_of, to_wire, from_wire,
  append_request, append_reply_of, install_request, serve_vote, serve_append, serve_install,
  request_vote, append_entries, install_snapshot,
}

module _ {C : Type 0} (service : Service C) where
  from_wire-to_wire : (es : List LogEntry) → map from_wire (map to_wire es) ≡ es
  unfolding from_wire to_wire
  from_wire-to_wire [] = refl
  from_wire-to_wire (e ∷ es) = ap (λ rest. e ∷ rest) (from_wire-to_wire es)

  request_vote-handle :
      (t : GrpcTransport C) (peer : Bytes) (c : C) (n : Node) (args : RequestVoteArgs)
      → (client service t peer).1 ≡ some c
      → IsServed service c n
      → ((request_vote service t peer args).1 ≡ some (handle_request_vote n args).1)
        × ((serve_vote n (vote_request args)).0 ≡ (handle_request_vote n args).0)
  unfolding request_vote serve_vote vote_request vote_reply_of
  request_vote-handle t peer c n args h s = (ground (arith, h, s.votes (vote_request args)), refl)

  append_entries-handle :
      (t : GrpcTransport C) (peer : Bytes) (c : C) (n : Node) (args : AppendEntriesArgs)
      → (client service t peer).1 ≡ some c
      → IsServed service c n
      → ((append_entries service t peer args).1 ≡ some (handle_append_entries n args).1)
        × ((serve_append n (append_request args)).0 ≡ (handle_append_entries n args).0)
  unfolding append_entries serve_append append_request append_reply_of
  append_entries-handle t peer c n args h s =
      let same : handle_append_entries n
            (record args { entries = map from_wire (map to_wire args.entries) })
          ≡ handle_append_entries n args =
        ap (λ es. handle_append_entries n (record args { entries = es }))
          (from_wire-to_wire args.entries) in
      (
        ground (arith, h, s.appends (append_request args))
            ∙ ap (λ (r : Node × AppendEntriesReply). some r.1) same,
        ap (λ (r : Node × AppendEntriesReply). r.0) same,
      )

  install_snapshot-handle :
      (t : GrpcTransport C) (peer : Bytes) (c : C) (n : Node) (args : InstallSnapshotArgs)
      → (client service t peer).1 ≡ some c
      → IsServed service c n
      → ((install_snapshot service t peer args).1 ≡ some (handle_install_snapshot n args).1)
        × ((serve_install n (install_request args)).0 ≡ (handle_install_snapshot n args).0)
  unfolding install_snapshot serve_install install_request
  install_snapshot-handle t peer c n args h s =
      (ground (arith, h, s.installs (install_request args)), refl)

  -- Where the transport has or gets a connection to a peer and the server of a node answers it,
  -- each of the three calls returns just what the handler of that node returns for the same
  -- arguments, and the node ends as the handler leaves it.
  pub calls-handle :
      (t : GrpcTransport C) (peer : Bytes) (c : C) (n : Node) (vote : RequestVoteArgs)
      (entries : AppendEntriesArgs) (image : InstallSnapshotArgs)
      → (client service t peer).1 ≡ some c
      → IsServed service c n
      → (((request_vote service t peer vote).1 ≡ some (handle_request_vote n vote).1)
          × ((serve_vote n (vote_request vote)).0 ≡ (handle_request_vote n vote).0))
        × (((append_entries service t peer entries).1 ≡ some (handle_append_entries n entries).1)
            × ((serve_append n (append_request entries)).0 ≡ (handle_append_entries n entries).0))
        × (((install_snapshot service t peer image).1 ≡ some (handle_install_snapshot n image).1)
            × ((serve_install n (install_request image)).0 ≡ (handle_install_snapshot n image).0))
  calls-handle t peer c n vote entries image h s = (
    request_vote-handle t peer c n vote h s,
    append_entries-handle t peer c n entries h s,
    install_snapshot-handle t peer c n image h s,
  )

  -- The second call to a peer uses the connection of the first.
  pub client-again :
      (t : GrpcTransport C) (peer : Bytes) (c : C)
      → (client service t peer).1 ≡ some c
      → client service (client service t peer).0 peer ≡ ((client service t peer).0, some c)
  unfolding client
  client-again t peer c h = ground (arith, h, get-insert t.conns peer c peer)
