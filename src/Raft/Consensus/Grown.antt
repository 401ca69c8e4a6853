-- ===== src/Raft/Consensus/Grown.antt =====
-- A leader's new entries, `becomeLeaderLocked` of raft/election.go and `Propose` of raft/raft.go.
use distqueue.Base.{
  ℕ, ◌+◌, ◌-◌, ◌*◌, ◌≤◌, ◌<◌, ◌≡◌, ◌≢◌, ◌⊎◌, inl, inr, refl, sym, subst, ap, ◌∙◌, Bool, true, false,
  List, [], ◌∷◌, ◌++◌, arith, if-intro, length, Bytes, get_or, length-append,
}
use distqueue.Raft.{
  Node, LogEntry, State, follower, leader, candidate, is_leader, last_index, no_entry, persist,
  propose,
}
use distqueue.Raft.Election.{become_leader, reset_peers}
use distqueue.Raft.Cluster.{Cluster, update}
use distqueue.Raft.Cluster.Elected.{votes_for, IsSound, Grow}
use distqueue.Raft.Consensus.{System, History, at_term}
use distqueue.Raft.Consensus.Logs.{at, IsTold, last-IsTold}
use distqueue.Raft.Consensus.Histories.{
  IsHistory, Extends, Fits-Extends, longer-Grows, longer-IsTold, longer-terms, longer-IsHistory,
  at_term-here,
}
use distqueue.Raft.Consensus.Matched.{
  IsNode, IsLed, IsMatched, updated-IsNode, updated-IsLed, other-IsNode, other-IsLed,
}

-- The node leads in its term, with one more entry than before.
pub record Leads (n n' : Node) : Type 0 where
  pub entry : LogEntry
  pub state : n'.state ≡ leader
  pub log : n'.log ≡ n.log ++ entry ∷ []
  pub term : n'.current_term ≡ n.current_term
  pub own : entry.term ≡ n.current_term
  pub next : entry.index ≡ last_index n + 1

pub is_leader-lem : (s : State) → is_leader s ≡ true → s ≡ leader
is_leader-lem leader h = refl
is_leader-lem candidate h = absurd (cc)
is_leader-lem follower h = absurd (cc)

-- A proposal is refused, or it is an entry of a leader.
pub propose-Leads :
    (n : Node) (command : Bytes)
    → (((propose n command).0 ≡ n) × (is_leader n.state ≡ false))
      ⊎ ((n.state ≡ leader) × Leads n (propose n command).0)
unfolding propose persist
propose-Leads n command =
    if-intro
      (λ (r : Node × ℕ × ℕ × Bool).
        ((r.0 ≡ n) × (is_leader n.state ≡ false)) ⊎ ((n.state ≡ leader) × Leads n r.0))
      (is_leader n.state)
      (λ h. inr (
        is_leader-lem n.state h,
        record {
          entry = record { index = last_index n + 1; term = n.current_term; command = command };
          state = is_leader-lem n.state h;
          log = refl;
          term = refl;
          own = refl;
          next = refl;
        },
      ))
      (λ h. inl (refl, h))

record IsSameLog (n n' : Node) : Type 0 where
  pub state : n'.state ≡ n.state
  pub log : n'.log ≡ n.log
  pub term : n'.current_term ≡ n.current_term

reset_peers-IsSameLog : (ps : List Bytes) (n : Node) → IsSameLog n (reset_peers n ps)
unfolding reset_peers
reset_peers-IsSameLog [] n = record { state = refl; log = refl; term = refl }
reset_peers-IsSameLog (p ∷ ps) n =
    let r = reset_peers-IsSameLog ps _ in record { state = r.state; log = r.log; term = r.term }

pub become_leader-Leads : (n : Node) → Leads n (become_leader n)
unfolding become_leader persist
become_leader-Leads n =
    let fresh = reset_peers (record n { state = leader; leader_id = n.id }) n.peers in
    let r = reset_peers-IsSameLog n.peers (record n { state = leader; leader_id = n.id }) in
    let noop : LogEntry = record {
      index = last_index fresh + 1;
      term = fresh.current_term;
      command = [];
    } in
    record {
      entry = noop;
      state = r.state;
      log = ap (λ xs. xs ++ noop ∷ []) r.log;
      term = r.term;
      own = r.term;
      next = ap (λ xs. (get_or xs (length xs - 1) no_entry).index + 1) r.log;
    }

-- The node `i` leads and the history has become `h'`.
module _ (ms : List Bytes) (s : System) (m : IsMatched ms s) (i : Bytes) (n : Node) (c : Cluster)
    (h : History) (leads : Leads (s.cluster.nodes i) n) (sound : IsSound ms c)
    (nodes : c.nodes ≡ update s.cluster.nodes i n) (here : c.nodes i ≡ n)
    (g : Grow s.cluster.cast c.cast) (some_term : 0 < (s.cluster.nodes i).current_term)
    (log : h.log_of
      ≡ at_term s.past.log_of
          (s.cluster.nodes i).current_term
          ((s.cluster.nodes i).log ++ leads.entry ∷ []))
    (lead : h.leader_of (s.cluster.nodes i).current_term ≡ i)
    (others : (u : ℕ) → (s.cluster.nodes i).current_term ≢ u → h.leader_of u ≡ s.past.leader_of u)
    (was : (s.past.log_of (s.cluster.nodes i).current_term ≡ [])
      ⊎ ((s.past.log_of (s.cluster.nodes i).current_term ≡ (s.cluster.nodes i).log)
          × (s.past.leader_of (s.cluster.nodes i).current_term ≡ i))) where
  abbrev old : Node
  old = s.cluster.nodes i

  abbrev logs' : ℕ → List LogEntry
  logs' = at_term s.past.log_of old.current_term (old.log ++ leads.entry ∷ [])

  was_log : (s.past.log_of old.current_term ≡ []) ⊎ (s.past.log_of old.current_term ≡ old.log)
  was_log = elim was [ inl none_yet ↦ inl none_yet | inr before ↦ inr before.0 ]

  next : leads.entry.index ≡ length old.log
  next =
      omega
        (arith, leads.next, (last-IsTold s.past.log_of old (m.node i).some_entry (m.node i).told).0)

  this : IsNode h.log_of h.leader_of i n
  this = record {
    some_entry =
        subst (λ xs. 0 < length xs) (sym leads.log)
          (omega (arith, length-append old.log (leads.entry ∷ [])));
    told =
        subst (λ xs. IsTold h.log_of xs) (sym leads.log)
          (subst (λ logs. IsTold logs (old.log ++ leads.entry ∷ [])) (sym log)
            (longer-IsTold s.past.log_of old.current_term old.log leads.entry was_log some_term
              leads.own (m.node i).told next));
    terms =
        subst (λ xs. (k : ℕ) → k < length xs → (at xs k).term ≤ n.current_term) (sym leads.log)
          (subst
            (λ t.
              (k : ℕ)
              → k < length (old.log ++ leads.entry ∷ [])
              → (at (old.log ++ leads.entry ∷ []) k).term ≤ t)
            (sym leads.term)
            (longer-terms s.past.log_of old.current_term old.log leads.entry was_log some_term
              leads.own (m.node i).terms));
    led = λ _.
        subst (λ t. (0 < t) × (h.log_of t ≡ n.log) × (h.leader_of t ≡ i)) (sym leads.term)
          (
            some_term,
            ap (λ logs. logs old.current_term) log ∙ at_term-here _ _ _ ∙ sym leads.log,
            lead,
          );
    runs = λ now. absurd (cc (leads.state, now));
  }

  grows : (t : ℕ) → Extends (s.past.log_of t) (h.log_of t)
  grows =
      subst (λ logs. (t : ℕ) → Extends (s.past.log_of t) (logs t)) (sym log)
        (longer-Grows s.past.log_of old.current_term old.log leads.entry was_log some_term
          leads.own)

  led : IsLed ms c.nodes c.cast h.leader_of old.current_term
  led =
      let now : (c.nodes i).state ≡ leader = ap (λ (x : Node). x.state) here ∙ leads.state in
      let term : (c.nodes i).current_term ≡ old.current_term =
        ap (λ (x : Node). x.current_term) here ∙ leads.term in
      let (some_one, most) = (sound.elected i).led now in
      subst
        (λ x.
          (old.current_term ≤ (c.nodes x).current_term)
          × (x ≢ [])
          × (length ms < 2 * votes_for ms c.cast x old.current_term))
        (sym lead)
        (
          omega (arith, term),
          some_one,
          subst (λ t. length ms < 2 * votes_for ms c.cast i t) term most,
        )

  pub grown-IsMatched : IsMatched ms (record s { cluster = c; past = h })
  grown-IsMatched = record {
    sound = sound;
    past = subst IsHistory (sym log) (
        longer-IsHistory s.past.log_of old.current_term old.log leads.entry was_log some_term
          leads.own m.past (m.node i).told next (m.node i).terms);
    node =
        subst (λ (f : Bytes → Node). (j : Bytes) → IsNode h.log_of h.leader_of j (f j)) (sym nodes)
          (updated-IsNode h.log_of h.leader_of s.cluster.nodes i n this (λ j apart.
            other-IsNode s.past h i old.current_term old.log leads.entry log lead others was
              some_term leads.own j (s.cluster.nodes j) apart (m.node j)));
    led = λ u positive.
        other-IsLed s.past h i old.current_term old.log leads.entry log lead others was some_term
          leads.own ms c.nodes c.cast u led
          (λ some_log.
            subst (λ (f : Bytes → Node). IsLed ms f c.cast s.past.leader_of u) (sym nodes)
              (updated-IsLed ms s.cluster.nodes s.cluster.cast c.cast s.past.leader_of i n u g
                (omega (arith, leads.term)) (m.led u positive some_log)));
    fits = λ args sent. Fits-Extends _ _ args (grows args.term) (m.fits args sent);
    asked = m.asked;
  }
