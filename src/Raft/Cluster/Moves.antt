-- ===== src/Raft/Cluster/Moves.antt =====
-- Each step of a node and each answer keep the cluster sound, raft/election.go.
use distqueue.Base.{
  ℕ, ◌+◌, ◌≡◌, ◌≢◌, inl, inr, refl, sym, ◌∙◌, subst, List, [], ◌∷◌, Bytes, some, arith,
}
use distqueue.Raft.{Node, persist}
use distqueue.Raft.Election.{RequestVoteArgs, start_election, handle_request_vote}
use distqueue.Raft.Applying.{Applying-IsFed, IsFed-Keeps, IsFed-Stays}
use distqueue.Raft.Lifecycle.{new_node}
use distqueue.Raft.Safety.{
  IsSaved, Keeps, propose-Keeps, start_election-Keeps, handle_request_vote-Keeps,
  append_reply-Keeps, handle_append_entries-Keeps, snapshot-Keeps, install_reply-Keeps,
  handle_install_snapshot-Keeps,
}
use distqueue.Raft.Runs.{loaded-Restores}
use distqueue.Raft.Commit.{handle_request_vote-Grants}
use distqueue.Raft.Roles.{
  Stays, propose-Stays, handle_request_vote-Stays, append_reply-Stays, handle_append_entries-Stays,
  snapshot-Stays, install_reply-Stays, handle_install_snapshot-Stays, restart-Stays,
}
use distqueue.Raft.Cluster.{
  proposes, hears_append, appends, cuts, hears_install, installs, feeds, restarts, Cluster, Poll,
  Ballot, Local, IsSent, IsMember, record_vote, update, with_node, with_poll, campaign, answer,
  same-lem,
}
use distqueue.Raft.Cluster.Elected.{
  IsElected, IsPolled, IsCast, IsSound, Grow, IsElected-Grow, IsElected-Stays, IsPolled-Grow,
  with_node-Grow, moved-IsSound,
}

pub restart-Keeps :
    (n : Node) (file : Bytes)
    → IsSaved n
    → Keeps n (new_node n.id n.peers (record { state_file = some n.disk; snapshot_file = file }))
restart-Keeps n file s =
    let r = loaded-Restores n file s in
    record { grows = omega (arith, r.term); one_vote = λ _ _. r.vote; saved = λ _. r.saved }

pub Local-Keeps : (n n' : Node) → IsSaved n → Local n n' → Keeps n n'
Local-Keeps n _ s (proposes _ command) = propose-Keeps n command
Local-Keeps n _ s (hears_append _ t args peer reply) = append_reply-Keeps n t args peer reply
Local-Keeps n _ s (appends _ args) = handle_append_entries-Keeps n args
Local-Keeps n _ s (cuts _ index contents) = snapshot-Keeps n index contents
Local-Keeps n _ s (hears_install _ t args peer reply) = install_reply-Keeps n t args peer reply
Local-Keeps n _ s (installs _ args) = handle_install_snapshot-Keeps n args
Local-Keeps n _ s (feeds _ n' a) = IsFed-Keeps n n' (Applying-IsFed n n' a)
Local-Keeps n _ s (restarts _ file) = restart-Keeps n file s

pub Local-Stays : (n n' : Node) → Local n n' → Stays n n'
Local-Stays n _ (proposes _ command) = propose-Stays n command
Local-Stays n _ (hears_append _ t args peer reply) = append_reply-Stays n t args peer reply
Local-Stays n _ (appends _ args) = handle_append_entries-Stays n args
Local-Stays n _ (cuts _ index contents) = snapshot-Stays n index contents
Local-Stays n _ (hears_install _ t args peer reply) = install_reply-Stays n t args peer reply
Local-Stays n _ (installs _ args) = handle_install_snapshot-Stays n args
Local-Stays n _ (feeds _ n' a) = IsFed-Stays n n' (Applying-IsFed n n' a)
Local-Stays n _ (restarts _ file) = restart-Stays n file

-- One node moves on; the counts stay.
pub Stays-IsSound :
    (ms : List Bytes) (c : Cluster) (i : Bytes) (n : Node)
    → IsSound ms c
    → Stays (c.nodes i) n
    → Keeps (c.nodes i) n
    → IsSound ms (with_node c i n)
unfolding with_node
Stays-IsSound ms c i n s stays k =
    let cast' = (with_node c i n).cast in
    let g : Grow c.cast cast' = with_node-Grow c i n (s.past i) k in
    let p = c.polls i in
    let old = c.nodes i in
    moved-IsSound ms c i n c.polls s k (λ j _. refl)
      (IsElected-Stays ms cast' p i old n stays k
        (IsElected-Grow ms c.cast cast' p i old g (s.elected i)))
      (IsPolled-Grow ms c.cast cast' i p g (s.polled i))

own_vote :
    (c : Cluster) (i : Bytes) (n : Node) → (with_node c i n).cast i n.current_term ≡ n.voted_for
unfolding with_node update record_vote
own_vote c i n = ground arith

pub update-here {ℓ} : {A : Type ℓ} (f : Bytes → A) (i : Bytes) (v : A) → update f i v i ≡ v
unfolding update
update-here f i v = ground arith

pub update-there {ℓ} :
    {A : Type ℓ} (f : Bytes → A) (i : Bytes) (v : A) (j : Bytes) → i ≢ j → update f i v j ≡ f j
unfolding update
update-there f i v j other = ground arith

-- One node moves on with its count.
pub polls-IsSound :
    (ms : List Bytes) (c : Cluster) (i : Bytes) (n : Node) (p : Poll)
    → IsSound ms c
    → Keeps (c.nodes i) n
    → IsElected ms (with_node c i n).cast p i n
    → IsPolled ms (with_node c i n).cast i p
    → IsSound ms (with_poll (with_node c i n) i p)
unfolding with_poll with_node
polls-IsSound ms c i n p s k e q =
    let cast' = (with_node c i n).cast in
    let there = sym (update-here c.polls i p) in
    moved-IsSound ms c i n (update c.polls i p) s k (λ j other. update-there c.polls i p j other)
      (subst (λ x. IsElected ms cast' x i n) there e) (subst (λ x. IsPolled ms cast' i x) there q)

start_election-IsElected :
    (ms : List Bytes) (cast : Bytes → ℕ → Bytes) (p p' : Poll) (i : Bytes) (n : Node)
    → IsElected ms cast p i n
    → p'.term ≡ n.current_term + 1
    → IsElected ms cast p' i (start_election n).0
unfolding start_election persist
start_election-IsElected ms cast p p' i n e t = record {
  id = e.id;
  size = e.size;
  saved = refl;
  ran = λ _. t;
  led = λ h. absurd (cc);
}

start_election-vote : (n : Node) → (start_election n).0.voted_for ≡ n.id
unfolding start_election persist
start_election-vote n = refl

start_election-term : (n : Node) → (start_election n).0.current_term ≡ n.current_term + 1
unfolding start_election persist
start_election-term n = refl

pub campaign-IsSound :
    (ms : List Bytes) (c : Cluster) (i : Bytes)
    → IsSound ms c
    → IsMember ms i
    → i ≢ []
    → IsSound ms (campaign c i)
unfolding campaign
campaign-IsSound ms c i s member some_one =
    let old = c.nodes i in
    let n = (start_election old).0 in
    let cast' = (with_node c i n).cast in
    let k = start_election-Keeps old in
    let g : Grow c.cast cast' = with_node-Grow c i n (s.past i) k in
    let own : cast' i n.current_term ≡ i =
      own_vote c i n ∙ start_election-vote old ∙ (s.elected i).id in
    polls-IsSound ms c i n _ s k
      (start_election-IsElected ms cast' (c.polls i) _ i old
        (IsElected-Grow ms c.cast cast' (c.polls i) i old g (s.elected i))
        (start_election-term old))
      (record {
        backed =
            λ v h. (some_one, subst (λ x. cast' x n.current_term ≡ i) (sym (same-lem v i h)) own);
        tally = member;
      })

sent-IsCast :
    (cast : Bytes → ℕ → Bytes) (x : Ballot) (bs : List Ballot)
    → IsCast cast x
    → ((b : Ballot) → IsSent bs b → IsCast cast b)
    → (b : Ballot) → IsSent (x ∷ bs) b
    → IsCast cast b
sent-IsCast cast x bs hx hs b (inl e) = subst (IsCast cast) e hx
sent-IsCast cast x bs hx hs b (inr h) = hs b h

pub answer-IsSound :
    (ms : List Bytes) (c : Cluster) (j : Bytes) (args : RequestVoteArgs)
    → IsSound ms c
    → args.candidate_id ≢ []
    → IsSound ms (answer c j args)
unfolding answer with_node
answer-IsSound ms c j args s some_one =
    let old = c.nodes j in
    let r = handle_request_vote old args in
    let s' =
      Stays-IsSound ms c j r.0 s (handle_request_vote-Stays old args)
        (handle_request_vote-Keeps old args) in
    record {
      past = s'.past;
      elected = s'.elected;
      polled = s'.polled;
      sent =
          sent-IsCast (with_node c j r.0).cast _ c.ballots
            (λ granted.
              let gives = handle_request_vote-Grants old args granted in
              (
                some_one,
                subst (λ t. (with_node c j r.0).cast j t ≡ args.candidate_id) gives.term
                    (own_vote c j r.0 ∙ gives.vote),
              ))
            s'.sent;
    }
