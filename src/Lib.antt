-- ===== src/Lib.antt =====
-- A verification library for distqueue, a task queue with priorities, retries and dead letters that
-- runs on one node with a write-ahead log, or replicated over Raft.
--
-- The parts of the program and the files that model them:
--   * broker/task.go and broker/priorityqueue.go: Task is the record of a task, the order `less` of
--     taskHeap and the operations `push` and `pop`. Heap writes out the routines of Go's
--     container/heap (`up`, `down`, `push`, `pop`) for any order; Heap/Up and Heap/Down are about
--     sifting, Heap/Queue and Task/Queue about the operations.
--   * broker/wal.go: Wal has the layout of a record, `read_record`, and `replay`; Wal/Crc the
--     checksum; Wal/Record and Wal/Replay reading and replay against writing, Wal/Fuel the rounds of
--     the replay. Journal has the open log as one caller sees it: `append_no_sync`, `wait_sync` and
--     `rewrite`; Journal/Group has the group commit, with the steps of several callers between the
--     locks, and Journal/Group/Durable what a sync covers.
--   * broker/tracker.go: Tracker has the map of delivered tasks, `track`, `remove` and `expired`.
--   * broker/broker.go: Broker has the state and the methods (`enqueue`, `dequeue`, `ack`, `nack`,
--     `on_timeout`, `tick` for one turn of the tracker's loop, and the compaction of the log);
--     Broker/Control tuning, statistics and closing; Broker/Recovery `recover` and `New`.
--     Broker/Agrees says when the replayed log and the memory agree, Broker/Compaction that a
--     compacted log agrees, Broker/Logged when the bytes of the file do. Broker/Preserved,
--     Broker/Requeued and Broker/Timeouts are about the methods and this agreement, Broker/Crash about
--     a restart, Broker/Settled about the end of a method,
--     Broker/Outcomes about what a method without an error has left on disk.
--   * broker/statemachine.go: Machine has the replicated queue with its pointers, a store of cells
--     standing for Go's heap. Machine/Replica has the abstract queue that a replica shows, and
--     `Apply` on it; Machine/History runs of commits, deliveries and take-overs; Machine/Delivery and
--     Machine/Prompt what the heap must hold for a delivery, Machine/Stale an entry that outlives its
--     task, Machine/Fuel the rounds of `Dequeue`.
--   * raft/raft.go, election.go, replication.go, snapshot.go and persist.go: Raft has the state of a
--     node, its state file and proposals; Raft/Election campaigns and votes; Raft/Replication the
--     leader's requests, the commit index and the follower's handler; Raft/Installing snapshots;
--     Raft/Lifecycle starts a node from its files and has the applier.
--     Each step of a node under its lock is a function. Raft/Safety and Raft/Runs have what no step
--     undoes, Raft/Sending the loops that send, Raft/Applying the loop that applies, Raft/Roles how a
--     node comes to lead, Raft/Commit commits and votes, Raft/Indices the indices of a log,
--     Raft/Matching what a follower has that accepts entries.
--     Raft/Cluster has many nodes, the vote requests and answers between them, and each node's count
--     of votes; under it are the votes cast (Ballots), what entitles a node to lead (Elected), the
--     steps (Moves, Counted) and the leaders (Leaders).
--     Raft/Consensus has a cluster whose nodes keep their whole logs, with all requests and answers
--     between them, and beside it a history, which no code keeps: the log of the leader of each term,
--     who voted for it, and up to where each node has had that log. Logs, Appending, Handling,
--     Checked, Sent and Histories compare logs; Matched, Quiet, Grown, Winning, Matching and Matches
--     go through the steps for them. Facts says what the nodes know of committed entries,
--     Completeness what follows for a later leader; Onward, Frame, Votes, Backing, Sharing and
--     Counting are about a step in general, Calm, Voting, Running, Hearing, Copying, Taking, Leading,
--     Reigning, Proposing, Fresh, Crowning, Winners and Agreement about each step, Committed and
--     Applied about commits and deliveries.
--   * raft/grpc.go: Raft/Transport has both ends of a call, the messages and the connections;
--     Raft/Calls compares a call with its handler.
--   * server/cluster.go: Server has the cluster server around a Raft node and a replica; a call that
--     waits for its entry is `propose`, `register` and then `collect` or `time_out`. Server/Runs has
--     runs of its parts, Server/Wakes, Server/Awaits and Server/Answers the waiting calls,
--     Server/Effects the turn of the applier behind an answer, Server/Scans and Server/Deadlines
--     the deadlines of deliveries, Server/Resignation the loss of leadership, Server/Redirects the
--     hint to the leader.
--   * server/grpc.go: Gateway has the handlers around the single-node broker and the conversions;
--     Gateway/Codes is about them.
--   * worker/worker.go: Worker has the defaults and the loop; Worker/Rounds is about the loop.
--   * cmd/broker/main.go: Peers has `parsePeers`; Peers/Format is about it.
--   * client/failover.go: Failover has the client's choice of a node, and the loop of `do` around a
--     call, of which an argument says what each attempt meets; Failover/Routing is about its way.
--   * Base has what the parts share: Boolean tests, lists over native numbers, maps as association
--     lists, signed integers. Examples has concrete values and the theorems at them.
--
-- How they interact: the broker calls the queue, the tracker and the log under one lock, so a method
-- is one step; the waits for an fsync at the end of a method are part of it. What the clock, the id
-- generator and the operating system answer is the argument `Io`: the time, a fresh id, how a write
-- ends (`written`, or `cut n` behind n bytes), whether the fsync succeeds, and how the file
-- operations of a rewrite end. Errors are values of `Result`. The cluster server shares its node and
-- its replica among the applier, the calls and two background loops, which take turns: a run of
-- Server/Runs is any order of those turns, with any moves of the Raft node between them.
--
-- Conventions: a Go int is an integer without overflow, a time the number of nanoseconds since
-- Go's zero time, a byte a number, a string its bytes. 32-bit words of a record wrap around. A map is
-- an association list, whose order stands for the order in which Go ranges over it.
--
-- Bounds and fuel: `Heap.up_loop` and `Heap.down_loop` have one more than the length of the heap
-- as fuel, and a round moves a level up or down. `replay_loop` has one round more than the file
-- has bytes, and a round that goes on reads at least 13 bytes. `Machine.dequeue_loop` has one
-- round more than the heap has entries, and a round pops one. These two return none where they
-- have not ended in their rounds, and Wal/Fuel and Machine/Fuel are about that. The loops of Raft
-- go down an index to 0, which is their recursion. `do_rpc` has the six attempts of the source.
--
-- Not modelled: clusters of several nodes that take snapshots, beyond elections; encoding/gob,
-- which is the record `Codec` of Wal with the property that what is encoded is decoded, and that a
-- small task fits in a record, and the record `Codec` of Server without one; gRPC, whose dialing
-- and answers are the record `Service` of Raft/Transport, and whose codes and messages of an error
-- the record `Errors` of Failover; protobuf timestamps, which are the record `Clock` of Gateway;
-- goroutines, tickers and locks, which only decide when a step happens; metrics, flags, signals
-- and the wiring of the commands; the tuning file, which a library reads into floating point;
-- generated code.
pub mod Base
pub mod Broker
pub mod Examples
pub mod Failover
pub mod Gateway
pub mod Heap
pub mod Journal
pub mod Machine
pub mod Peers
pub mod Raft
pub mod Server
pub mod Task
pub mod Tracker
pub mod Wal
pub mod Worker
