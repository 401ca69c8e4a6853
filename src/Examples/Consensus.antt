-- ===== src/Examples/Consensus.antt =====
-- The theorems on committed entries at a cluster of three nodes, where one wins an election, has
-- its first entry copied by another, commits it and says so.
use distqueue.Base.{
  ◌≡◌, ◌<◌, ◌≤◌, ◌∙◌, refl, sym, ap, inl, [], ◌∷◌, true, List, Bytes, codes, arith, bytes_discrete,
  length, get_or,
}
use distqueue.Base.Maps.{get, insert, values}
use distqueue.Raft.{Node, LogEntry, no_entry, persist, become_follower, leader}
use distqueue.Raft.Election.{
  RequestVoteArgs, start_election, handle_request_vote, vote_reply, may_vote, become_leader,
  reset_peers,
}
use distqueue.Raft.Replication.{
  AppendEntriesArgs, append_args, append_reply, advance_commit, advance_loop, append_each, accept,
  check_append, follow, handle_append_entries,
}
use distqueue.Raft.Installing.{append, send_append_entries}
use distqueue.Raft.Lifecycle.{new_node, read_persist, blank, applier, entries_from, batch}
use distqueue.Raft.Cluster.{
  Ballot, campaign, answer, take_in, with_node, with_poll, update, record_vote,
}
use distqueue.Raft.Cluster.Leaders.{new_cluster}
use distqueue.Raft.Consensus.{
  System, Answer, Move, Course, start, move, campaigns, answers, takes_in, sends, appends, hears,
  new_system, campaigned, answered, taken_in, appended, heard,
}
use distqueue.Raft.Consensus.Agreement.{IsConfig}
use distqueue.Raft.Consensus.Matches.{logs_match}
use distqueue.Raft.Consensus.Committed.{commits_agree, leaders_have}
use distqueue.Raft.Consensus.Applied.{Course-trans, applied_agree}

abbrev members : List Bytes
members = codes "a" ∷ codes "b" ∷ codes "c" ∷ []

-- The node a knows the two others.
abbrev others : Bytes → List Bytes
others v = codes "b" ∷ codes "c" ∷ []

config : IsConfig members others
config = record { size = λ v. refl; members = λ v p h. ground arith }

abbrev begun : System
begun = new_system others

abbrev asked : System
asked = campaigned begun (codes "a")

abbrev request : RequestVoteArgs
request = record { term = 1; candidate_id = codes "a"; last_log_index = 0; last_log_term = 0 }

abbrev voted : System
voted = answered asked (codes "b") request

abbrev ballot : Ballot
ballot = record {
  voter = codes "b";
  candidate = codes "a";
  term = 1;
  reply = record { term = 1; vote_granted = true };
}

abbrev won : System
won = taken_in voted ballot 1

abbrev noop : LogEntry
noop = record { index = 1; term = 1; command = [] }

abbrev entries : AppendEntriesArgs
entries = record {
  term = 1;
  leader_id = codes "a";
  prev_log_index = 0;
  prev_log_term = 0;
  entries = noop ∷ [];
  leader_commit = 0;
}

abbrev announced : System
announced = record won { requests = entries ∷ [] }

abbrev copied : System
copied = appended announced (codes "b") entries

abbrev reply : Answer
reply = record {
  peer = codes "b";
  args = entries;
  reply = record { term = 1; success = true; conflict_term = 0; conflict_index = 0 };
}

abbrev committed : System
committed = heard copied (codes "a") reply

abbrev heartbeat : AppendEntriesArgs
heartbeat = record {
  term = 1;
  leader_id = codes "a";
  prev_log_index = 1;
  prev_log_term = 1;
  entries = [];
  leader_commit = 1;
}

abbrev told : System
told = record committed { requests = heartbeat ∷ entries ∷ [] }

abbrev known : System
known = appended told (codes "b") heartbeat

election : Course members begun won
unfolding new_system campaigned answered taken_in new_cluster campaign answer take_in with_node
    with_poll update record_vote start_election handle_request_vote vote_reply may_vote
    become_leader reset_peers persist become_follower new_node read_persist blank bytes_discrete
election =
    move begun voted won
      (move begun asked voted
        (move begun begun asked (start begun)
          (campaigns begun (codes "a") (omega arith) (λ h. absurd (cc))))
        (answers asked (codes "b") request (inl refl)))
      (takes_in voted ballot 1 (inl refl) (omega arith) (λ _. (refl, refl)))

sent_first : send_append_entries (won.cluster.nodes (codes "a")) (codes "b") ≡ append entries
unfolding new_system campaigned answered taken_in appended new_cluster campaign answer take_in
    with_node with_poll update record_vote start_election handle_request_vote vote_reply may_vote
    become_leader reset_peers persist become_follower new_node read_persist blank bytes_discrete
    send_append_entries append_args get insert
sent_first = refl

commit : Move members copied committed
unfolding new_system campaigned answered taken_in appended new_cluster campaign answer take_in
    with_node with_poll update record_vote start_election handle_request_vote vote_reply may_vote
    become_leader reset_peers persist become_follower new_node read_persist blank bytes_discrete
    handle_append_entries follow check_append accept append_each
commit = hears copied (codes "a") reply (inl refl) (omega arith)

tells : Course members committed known
unfolding new_system campaigned answered taken_in appended heard new_cluster campaign answer take_in
    with_node with_poll update record_vote start_election handle_request_vote vote_reply may_vote
    become_leader reset_peers persist become_follower new_node read_persist blank bytes_discrete
    handle_append_entries follow check_append accept append_each append_reply advance_commit
    advance_loop send_append_entries append_args get insert values
tells =
    move committed told known
      (move committed committed told (start committed)
        (sends committed (codes "a") (codes "b") heartbeat refl))
      (appends told (codes "b") heartbeat (inl refl))

whole : Course members begun committed
unfolding new_system campaigned answered taken_in
whole =
    move begun copied committed
      (move begun announced copied
        (move begun won announced election (sends won (codes "a") (codes "b") entries sent_first))
        (appends announced (codes "b") entries (inl refl)))
      commit

facts :
    ((committed.cluster.nodes (codes "a")).commit_index ≡ 1)
    × ((known.cluster.nodes (codes "b")).commit_index ≡ 1)
    × ((known.cluster.nodes (codes "a")).state ≡ leader)
    × ((known.cluster.nodes (codes "a")).current_term ≡ 1)
    × ((committed.cluster.nodes (codes "a")).current_term ≡ 1)
    × ((committed.cluster.nodes (codes "a")).log ≡ no_entry ∷ noop ∷ [])
    × ((known.cluster.nodes (codes "b")).log ≡ no_entry ∷ noop ∷ [])
    × ((known.cluster.nodes (codes "a")).log ≡ no_entry ∷ noop ∷ [])
    × ((applier (committed.cluster.nodes (codes "a"))).1 ≡ batch (noop ∷ []))
    × ((applier (known.cluster.nodes (codes "b"))).1 ≡ batch (noop ∷ []))
unfolding new_system campaigned answered taken_in appended heard new_cluster campaign answer take_in
    with_node with_poll update record_vote start_election handle_request_vote vote_reply may_vote
    become_leader reset_peers persist become_follower new_node read_persist blank bytes_discrete
    handle_append_entries follow check_append accept append_each append_reply advance_commit
    advance_loop applier entries_from get insert values
facts = (refl, refl, refl, refl, refl, refl, refl, refl, refl, refl)

abbrev a_committed : Node
a_committed = committed.cluster.nodes (codes "a")

abbrev a_known : Node
a_known = known.cluster.nodes (codes "a")

abbrev b_known : Node
b_known = known.cluster.nodes (codes "b")

all_of_it : Course members begun known
all_of_it = Course-trans members begun committed known whole tells

in_a : 1 < length a_known.log
in_a = omega (arith, ap length facts.7)

in_b : 1 < length b_known.log
in_b = omega (arith, ap length facts.6)

same_term : (get_or a_known.log 1 no_entry).term ≡ (get_or b_known.log 1 no_entry).term
same_term =
    ap (λ log. (get_or log 1 no_entry).term) facts.7
    ∙ sym (ap (λ log. (get_or log 1 no_entry).term) facts.6)

at_a : 1 ≤ a_committed.commit_index
at_a = omega (arith, facts.0)

at_b : 1 ≤ b_known.commit_index
at_b = omega (arith, facts.1)

logs_match_example :
    ((get_or a_known.log 1 no_entry).index ≡ 1)
    × (get_or a_known.log 1 no_entry ≡ get_or b_known.log 1 no_entry)
logs_match_example =
    logs_match members others known (codes "a") (codes "b") 1 (λ v. refl) all_of_it in_a in_b
      same_term 1 (omega arith)

commits_agree_example :
    (1 < length a_committed.log)
    × (1 < length b_known.log)
    × (get_or a_committed.log 1 no_entry ≡ get_or b_known.log 1 no_entry)
commits_agree_example =
    commits_agree members others committed known (codes "a") (codes "b") 1 config whole tells
      (omega arith) at_a at_b

leaders_have_example :
    (1 < length a_known.log) × (get_or a_known.log 1 no_entry ≡ get_or a_committed.log 1 no_entry)
leaders_have_example =
    leaders_have members others committed known (codes "a") (codes "a") 1 config whole tells
      (omega arith) at_a facts.2 (omega (arith, facts.3, facts.4))

applied_agree_example : get_or (noop ∷ []) 0 no_entry ≡ get_or (noop ∷ []) 0 no_entry
applied_agree_example =
    applied_agree members others committed known (codes "a") (codes "b") (noop ∷ []) (noop ∷ []) 0 0
      config whole tells facts.8 facts.9 (omega arith) (omega arith) refl
