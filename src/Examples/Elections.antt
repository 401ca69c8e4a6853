-- ===== src/Examples/Elections.antt =====
-- The theorem on elections at a cluster of three nodes, where one wins.
use distqueue.Base.{◌≡◌, refl, inl, [], ◌∷◌, true, List, Bytes, codes, arith, bytes_discrete}
use distqueue.Raft.{persist, become_follower, leader}
use distqueue.Raft.Election.{
  RequestVoteArgs, start_election, handle_request_vote, vote_reply, may_vote, become_leader,
  reset_peers,
}
use distqueue.Raft.Lifecycle.{new_node, read_persist, blank}
use distqueue.Raft.Cluster.{
  Cluster, Ballot, campaign, answer, take_in, with_node, with_poll, update, record_vote, Run, start,
  step, campaigns, answers, takes_in,
}
use distqueue.Raft.Cluster.Leaders.{new_cluster, one_leader}

abbrev members : List Bytes
members = codes "a" ∷ codes "b" ∷ codes "c" ∷ []

-- The node a knows the two others.
abbrev others : Bytes → List Bytes
others v = codes "b" ∷ codes "c" ∷ []

abbrev first : Cluster
first = new_cluster others

abbrev asked : Cluster
asked = campaign first (codes "a")

abbrev request : RequestVoteArgs
request = record { term = 1; candidate_id = codes "a"; last_log_index = 0; last_log_term = 0 }

abbrev heard : Cluster
heard = answer asked (codes "b") request

abbrev ballot : Ballot
ballot = record {
  voter = codes "b";
  candidate = codes "a";
  term = 1;
  reply = record { term = 1; vote_granted = true };
}

abbrev won : Cluster
won = take_in heard ballot 1

leads : (won.nodes (codes "a")).state ≡ leader
unfolding new_cluster campaign answer take_in with_node with_poll update record_vote start_election
    handle_request_vote vote_reply may_vote become_leader reset_peers persist become_follower
    new_node read_persist blank bytes_discrete
leads = refl

election : Run members first won
unfolding new_cluster campaign answer take_in with_node with_poll update record_vote start_election
    handle_request_vote vote_reply may_vote become_leader reset_peers persist become_follower
    new_node read_persist blank bytes_discrete
election =
    step first heard won
      (step first asked heard
        (step first first asked (start first)
          (campaigns first (codes "a") (omega arith) (λ h. absurd (cc))))
        (answers asked (codes "b") request (λ h. absurd (cc))))
      (takes_in heard ballot 1 (inl refl) (omega arith) (λ _. (refl, refl)))

one_leader_example : codes "a" ≡ codes "a"
one_leader_example =
    one_leader members others won (codes "a") (codes "a") (λ v. refl) election leads leads refl
