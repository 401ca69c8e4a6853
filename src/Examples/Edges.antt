-- ===== src/Examples/Edges.antt =====
-- The theorems on a worker, the single-node server, the peers flag and the transport.
use distqueue.Raft.Calls.{calls-handle}
use distqueue.Base.{
  ℕ, ◌≡◌, ◌↔◌, refl, some, none, true, false, [], ◌∷◌, List, Bytes, codes, arith, bytes_discrete,
}
use distqueue.Base.Int.{pos}
use distqueue.Base.Maps.{get, insert}
use distqueue.Task
use distqueue.Tracker.{remove}
use distqueue.Worker.{Settings, new, Round, refused, received, fails, begin, loop, loop_round}
use distqueue.Worker.{nacks}
use distqueue.Worker.Rounds.{loop-verdicts, verdicts, IsBounded, IsRandom, loop-IsBounded}
use distqueue.Gateway
use distqueue.Gateway.{Clock, status, not_found}
use distqueue.Gateway.Codes.{calls-not_found}
use distqueue.Peers.{parse_peers}
use distqueue.Peers.Format.{Peer, show, join, add_peers, join-parse_peers}
use distqueue.Raft.{Node}
use distqueue.Raft.Election.{RequestVoteArgs, handle_request_vote}
use distqueue.Raft.Replication.{AppendEntriesArgs, handle_append_entries}
use distqueue.Raft.Installing.{InstallSnapshotArgs, handle_install_snapshot}
use distqueue.Raft.Lifecycle.{blank}
use distqueue.Raft.Transport.{
  Service, GrpcTransport, IsServed, client, vote_request, append_request, install_request,
  serve_vote, serve_append, serve_install, request_vote, append_entries, install_snapshot,
}
use distqueue.Examples.{plain, fresh, calm}

-- Times of 40 and of 100 nanoseconds.
abbrev quick : Settings
quick = new (record { concurrency = pos 0; min_backoff = pos 40; max_backoff = pos 100 })

abbrev rounds : List Round
rounds =
    refused true false 3 true
    ∷ refused false false 39 true
    ∷ received (codes "t") fails true
    ∷ refused true false 0 false
    ∷ []

loop-IsBounded_example : IsBounded quick (loop quick (begin quick) rounds)
unfolding new IsRandom loop_round
loop-IsBounded_example =
    loop-IsBounded quick rounds (omega arith) (omega arith, (omega arith, (tt, (omega arith, tt))))

abbrev clock : Clock ℕ
clock = record { stamp = λ n. n; time_of = λ n. n }

calls-not_found_example :
    (((Gateway.dequeue clock fresh calm).1 ≡ status not_found)
      ↔ ((fresh.closed ≡ false) × (Task.pop fresh.pq ≡ none)))
    × (((Gateway.ack clock plain fresh (codes "t") calm).1 ≡ status not_found)
        ↔ ((fresh.closed ≡ false) × (remove fresh.tracker (codes "t") ≡ none)))
    × (((Gateway.nack clock plain fresh (codes "t") calm).1 ≡ status not_found)
        ↔ ((fresh.closed ≡ false) × (remove fresh.tracker (codes "t") ≡ none)))
calls-not_found_example = calls-not_found clock plain fresh (codes "t") calm

abbrev one : Peer
one = record { id = codes "a"; raft = codes "h:1"; client = codes "h:2" }

abbrev two : Peer
two = record { id = codes "b"; raft = codes "i:1"; client = codes "i:2" }

abbrev flag : Bytes
flag = codes "a=h:1=h:2,b=i:1=i:2"

join-parse_peers_example :
    parse_peers flag
    ≡ some (
      (codes "a", codes "h:1") ∷ (codes "b", codes "i:1") ∷ [],
      (codes "a", codes "h:2") ∷ (codes "b", codes "i:2") ∷ [],
    )
unfolding join show add_peers insert bytes_discrete
join-parse_peers_example = join-parse_peers one (two ∷ []) (
  record { id = refl; raft = refl; client = refl; whole = refl },
  (record { id = refl; raft = refl; client = refl; whole = refl }, tt),
)

abbrev node : Node
node = blank (codes "b") (codes "a" ∷ [])

abbrev service : Service (Unit {0})
service = record {
  dial = λ addr. some tt;
  vote = λ c req. some (serve_vote node req).1;
  append = λ c req. some (serve_append node req).1;
  install = λ c req. some (serve_install node req).1;
}

abbrev transport : GrpcTransport (Unit {0})
transport = record { addrs = (codes "b", codes "h:1") ∷ []; conns = [] }

abbrev vote : RequestVoteArgs
vote = record { term = 1; candidate_id = codes "a"; last_log_index = 3; last_log_term = 2 }

abbrev entries : AppendEntriesArgs
entries = record {
  term = 1;
  leader_id = codes "a";
  prev_log_index = 0;
  prev_log_term = 0;
  entries = record { index = 1; term = 1; command = codes "x" } ∷ [];
  leader_commit = 0;
}

abbrev image : InstallSnapshotArgs
image = record {
  term = 1;
  leader_id = codes "a";
  last_included_index = 5;
  last_included_term = 1;
  contents = codes "s";
}

served : IsServed service tt node
served = record { votes = λ req. refl; appends = λ req. refl; installs = λ req. refl }

calls-handle_example :
    (((request_vote service transport (codes "b") vote).1 ≡ some (handle_request_vote node vote).1)
      × ((serve_vote node (vote_request vote)).0 ≡ (handle_request_vote node vote).0))
    × (((append_entries service transport (codes "b") entries).1
          ≡ some (handle_append_entries node entries).1)
        × ((serve_append node (append_request entries)).0 ≡ (handle_append_entries node entries).0))
    × (((install_snapshot service transport (codes "b") image).1
          ≡ some (handle_install_snapshot node image).1)
        × ((serve_install node (install_request image)).0 ≡ (handle_install_snapshot node image).0))
unfolding client get bytes_discrete
calls-handle_example =
    calls-handle service transport (codes "b") tt node vote entries image refl served

loop-verdicts_example : (loop quick (begin quick) rounds).calls ≡ nacks (codes "t") ∷ []
unfolding verdicts
loop-verdicts_example = loop-verdicts quick rounds (begin quick)
