-- ===== src/Raft/Consensus/Handling.antt =====
-- What a request of a leader does to a follower, `HandleAppendEntries` of raft/replication.go.
use distqueue.Base.{
  ℕ, ◌+◌, ◌≤◌, ◌<◌, ◌≡◌, ◌⊎◌, inl, inr, refl, Bool, true, false, not, ◌||◌, List, [], ◌∷◌, arith,
  ltb, leb, ◌==◌, if◌then◌else◌, if-intro, length, min, Bytes,
}
use distqueue.Raft.{
  Node, LogEntry, last_index, term_at, persist, become_follower, is_follower, State, follower,
  leader, candidate,
}
use distqueue.Raft.Replication.{AppendEntriesArgs, AppendEntriesReply, append_each, accept, follow}
use distqueue.Raft.Consensus.Logs.{at, IsPart}
use distqueue.Raft.Consensus.Appending.{Follows}

-- A request about a part of the log `ys`, or about an index behind its end.
abbrev pub Fits : List LogEntry → AppendEntriesArgs → Type 0
Fits ys args =
    ((args.prev_log_index < length ys)
      × (args.prev_log_term ≡ (at ys args.prev_log_index).term)
      × IsPart ys (args.prev_log_index + 1) args.entries)
    ⊎ ((0 < args.prev_log_index) × (args.prev_log_term ≡ 0))

-- Where a request reaches to.
abbrev pub reach : AppendEntriesArgs → ℕ
reach args = args.prev_log_index + length args.entries

-- A request is refused, and the log and the commit index are as before, or the log follows `ys`.
pub record Handles (n : Node) (ys : List LogEntry) (args : AppendEntriesArgs)
    (r : Node × AppendEntriesReply) : Type 0 where
  pub refused : r.1.success ≡ false → (r.0.log ≡ n.log) × (r.0.commit_index ≡ n.commit_index)
  pub taken : r.1.success ≡ true → Follows n.log ys r.0.log (reach args)
  pub term :
      r.1.success ≡ true
      → (r.0.current_term ≡ args.term) × (n.current_term ≤ args.term) × (r.0.state ≡ follower)
  pub commit :
      (r.0.commit_index ≡ n.commit_index)
      ⊎ ((r.1.success ≡ true)
          × (r.0.commit_index ≤ args.leader_commit)
          × (r.0.commit_index ≤ reach args))
  pub match : r.0.match_index ≡ n.match_index

pub refused-Handles :
    (n n' : Node) (ys : List LogEntry) (args : AppendEntriesArgs) (reply : AppendEntriesReply)
    → n'.log ≡ n.log
    → n'.commit_index ≡ n.commit_index
    → n'.match_index ≡ n.match_index
    → reply.success ≡ false
    → Handles n ys args (n', reply)
refused-Handles n n' ys args reply log commit match refused = record {
  refused = λ _. (log, commit);
  taken = λ h. absurd (cc (h, refused));
  term = λ h. absurd (cc (h, refused));
  commit = inl commit;
  match = match;
}

min_left : (a b : ℕ) → min a b ≤ a
min_left a b = omega arith

min_right : (a b : ℕ) → min a b ≤ b
min_right a b = omega arith

abbrev IsSame : Node → Node → Type 0
IsSame n n' =
    (n'.commit_index ≡ n.commit_index)
    × (n'.current_term ≡ n.current_term)
    × (n'.state ≡ n.state)
    × (n'.match_index ≡ n.match_index)

append_each-IsSame : (n : Node) (es : List LogEntry) → IsSame n (append_each n es).0
unfolding append_each
append_each-IsSame n [] = (refl, refl, refl, refl)
append_each-IsSame n (e ∷ es) =
    if-intro (λ (r : Node × Bool). IsSame n r.0) (leb e.index (last_index n))
      (λ _.
        if-intro (λ (r : Node × Bool). IsSame n r.0) (term_at n e.index == e.term)
          (λ _. append_each-IsSame n es) (λ _. (refl, refl, refl, refl)))
      (λ _. (refl, refl, refl, refl))

persist_if-IsSame : (b : Bool) (n m : Node) → IsSame n m → IsSame n (if b then persist m else m)
unfolding persist
persist_if-IsSame true n m h = h
persist_if-IsSame false n m h = h

pub accept-commit :
    (n : Node) (q : ℕ) (es : List LogEntry) (c : ℕ)
    → (((accept n q es c).commit_index ≡ n.commit_index)
        ⊎ (((accept n q es c).commit_index ≤ c) × ((accept n q es c).commit_index ≤ q + length es)))
      × ((accept n q es c).current_term ≡ n.current_term)
      × ((accept n q es c).state ≡ n.state)
      × ((accept n q es c).match_index ≡ n.match_index)
unfolding accept
accept-commit n q es c =
    let r = append_each n es in
    let saved = if r.1 then persist r.0 else r.0 in
    let (commit, term, role, match) = persist_if-IsSame r.1 n r.0 (append_each-IsSame n es) in
    if-intro
      (λ (x : Node).
        ((x.commit_index ≡ n.commit_index)
          ⊎ ((x.commit_index ≤ c) × (x.commit_index ≤ q + length es)))
        × (x.current_term ≡ n.current_term)
        × (x.state ≡ n.state)
        × (x.match_index ≡ n.match_index))
      (ltb saved.commit_index c)
      (λ _. (inr (min_left c (q + length es), min_right c (q + length es)), term, role, match))
      (λ _. (inl commit, term, role, match))

pub follow-term :
    (n : Node) (term : ℕ) (id : Bytes)
    → ltb term n.current_term ≡ false
    → (follow n term id).current_term ≡ term
unfolding follow persist become_follower
follow-term n term id h = ground arith

is_follower-lem : (s : State) → not (is_follower s) ≡ false → s ≡ follower
is_follower-lem follower h = refl
is_follower-lem leader h = absurd (cc)
is_follower-lem candidate h = absurd (cc)

pub follow-state : (n : Node) (term : ℕ) (id : Bytes) → (follow n term id).state ≡ follower
unfolding follow persist become_follower
follow-state n term id =
    if-intro (λ (x : Node). x.state ≡ follower)
      (ltb n.current_term term || not (is_follower n.state))
      (λ _.
        if-intro (λ (x : Node). x.state ≡ follower) (ltb n.current_term term) (λ _. refl)
          (λ _. refl))
      (λ h. is_follower-lem n.state (ground arith))

pub follow-commit :
    (n : Node) (term : ℕ) (id : Bytes) → (follow n term id).commit_index ≡ n.commit_index
unfolding follow persist become_follower
follow-commit n term id = ground arith

pub follow-match :
    (n : Node) (term : ℕ) (id : Bytes) → (follow n term id).match_index ≡ n.match_index
unfolding follow persist become_follower
follow-match n term id = ground arith
