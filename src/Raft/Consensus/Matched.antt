-- ===== src/Raft/Consensus/Matched.antt =====
-- How the logs of a cluster match, raft/replication.go and raft/election.go.
use distqueue.Base.{
  ℕ, ◌*◌, ◌≤◌, ◌<◌, ◌≡◌, ◌≢◌, ◌⊎◌, inl, inr, sym, subst, ap, ◌∙◌, List, [], ◌∷◌, ◌++◌, arith,
  length, Bytes, ℕ_discrete,
}
use distqueue.Raft.{Node, LogEntry, leader, candidate}
use distqueue.Raft.Election.{RequestVoteArgs}
use distqueue.Raft.Replication.{AppendEntriesArgs}
use distqueue.Raft.Safety.{Keeps}
use distqueue.Raft.Roles.{Stays}
use distqueue.Raft.Cluster.{update, update-intro}
use distqueue.Raft.Cluster.Elected.{votes_for, votes_for-Grow, IsSound, Grow}
use distqueue.Raft.Consensus.{System, History, at_term, IsIn}
use distqueue.Raft.Consensus.Logs.{at, IsTold}
use distqueue.Raft.Consensus.Handling.{Fits}
use distqueue.Raft.Consensus.Histories.{IsHistory, IsTold-Grows, longer-Grows, at_term-there}

-- The log of a node, and what makes it a leader or a candidate in its term.
pub record IsNode (logs : ℕ → List LogEntry) (leaders : ℕ → Bytes) (i : Bytes) (n : Node)
    : Type 0 where
  pub some_entry : 0 < length n.log
  pub told : IsTold logs n.log
  pub terms : (k : ℕ) → k < length n.log → (at n.log k).term ≤ n.current_term
  pub led :
      n.state ≡ leader
      → (0 < n.current_term) × (logs n.current_term ≡ n.log) × (leaders n.current_term ≡ i)
  pub runs :
      n.state ≡ candidate
      → (0 < n.current_term) × (0 < length (logs n.current_term) → leaders n.current_term ≢ i)

-- The leader of a term has the votes of most members, and has not forgotten the term.
abbrev pub IsLed : List Bytes → (Bytes → Node) → (Bytes → ℕ → Bytes) → (ℕ → Bytes) → ℕ → Type 0
IsLed ms nodes cast leaders t =
    (t ≤ (nodes (leaders t)).current_term)
    × (leaders t ≢ [])
    × (length ms < 2 * votes_for ms cast (leaders t) t)

pub record IsMatched (ms : List Bytes) (s : System) : Type 0 where
  pub sound : IsSound ms s.cluster
  pub past : IsHistory s.past.log_of
  pub node : (i : Bytes) → IsNode s.past.log_of s.past.leader_of i (s.cluster.nodes i)
  pub led :
      (t : ℕ)
      → 0 < t
      → 0 < length (s.past.log_of t)
      → IsLed ms s.cluster.nodes s.cluster.cast s.past.leader_of t
  pub fits : (args : AppendEntriesArgs) → IsIn s.requests args → Fits (s.past.log_of args.term) args
  pub asked : (args : RequestVoteArgs) → IsIn s.asks args → args.candidate_id ≢ []

pub updated-IsNode :
    (logs : ℕ → List LogEntry) (leaders : ℕ → Bytes) (nodes : Bytes → Node) (i : Bytes) (n : Node)
    → IsNode logs leaders i n
    → ((j : Bytes) → i ≢ j → IsNode logs leaders j (nodes j))
    → (j : Bytes) → IsNode logs leaders j (update nodes i n j)
updated-IsNode logs leaders nodes i n this others j =
    update-intro (IsNode logs leaders j) nodes i n j
      (λ e. subst (λ x. IsNode logs leaders x n) e this) (others j)

pub updated-IsLed :
    (ms : List Bytes) (nodes : Bytes → Node) (cast cast' : Bytes → ℕ → Bytes) (leaders : ℕ → Bytes)
    (i : Bytes) (n : Node) (t : ℕ)
    → Grow cast cast'
    → (nodes i).current_term ≤ n.current_term
    → IsLed ms nodes cast leaders t
    → IsLed ms (update nodes i n) cast' leaders t
updated-IsLed ms nodes cast cast' leaders i n t g k (term, some_one, most) = (
  update-intro (λ (m : Node). t ≤ m.current_term) nodes i n (leaders t)
      (λ e. omega (arith, k, subst (λ x. t ≤ (nodes x).current_term) (sym e) term)) (λ _. term),
  some_one,
  omega (arith, most, votes_for-Grow ms cast cast' (leaders t) t some_one g),
)

-- A step that leaves the log alone.
pub Stays-IsNode :
    (logs : ℕ → List LogEntry) (leaders : ℕ → Bytes) (i : Bytes) (n n' : Node)
    → Stays n n'
    → Keeps n n'
    → n'.log ≡ n.log
    → IsNode logs leaders i n
    → IsNode logs leaders i n'
Stays-IsNode logs leaders i n n' s k log a = record {
  some_entry = subst (λ xs. 0 < length xs) (sym log) a.some_entry;
  told = subst (IsTold logs) (sym log) a.told;
  terms = λ j p. omega (
    arith,
    k.grows,
    subst (λ xs. (at xs j).term ≤ n.current_term) (sym log)
        (a.terms j (subst (λ xs. j < length xs) log p)),
  );
  led = λ leads.
      let (was, term) = s.leads leads in
      subst (λ t. (0 < t) × (logs t ≡ n'.log) × (leaders t ≡ i)) (sym term)
        (let (some_term, whole, lead) = a.led was in (some_term, whole ∙ sym log, lead));
  runs = λ runs.
      let (was, term) = s.runs runs in
      subst (λ t. (0 < t) × (0 < length (logs t) → leaders t ≢ i)) (sym term) (a.runs was);
}

-- The leader `i` of the term `t` has one more entry than `xs`, and the history has become `h'`.
module _ (h h' : History) (i : Bytes) (t : ℕ) (xs : List LogEntry) (e : LogEntry)
    (log : h'.log_of ≡ at_term h.log_of t (xs ++ e ∷ [])) (lead : h'.leader_of t ≡ i)
    (others : (u : ℕ) → t ≢ u → h'.leader_of u ≡ h.leader_of u)
    (was : (h.log_of t ≡ []) ⊎ ((h.log_of t ≡ xs) × (h.leader_of t ≡ i))) (some_term : 0 < t)
    (term : e.term ≡ t) where
  pub was-log : (h.log_of t ≡ []) ⊎ (h.log_of t ≡ xs)
  was-log = elim was [ inl none_yet ↦ inl none_yet | inr before ↦ inr before.0 ]

  log-there : (u : ℕ) → t ≢ u → h'.log_of u ≡ h.log_of u
  log-there u other = ap (λ logs. logs u) log ∙ at_term-there h.log_of t (xs ++ e ∷ []) u other

  pub other-IsNode :
      (j : Bytes) (n : Node)
      → i ≢ j
      → IsNode h.log_of h.leader_of j n
      → IsNode h'.log_of h'.leader_of j n
  other-IsNode j n apart a = record {
    some_entry = a.some_entry;
    told =
        subst (λ logs. IsTold logs n.log) (sym log)
          (IsTold-Grows h.log_of (at_term h.log_of t (xs ++ e ∷ [])) n.log
            (longer-Grows h.log_of t xs e was-log some_term term) a.told);
    terms = a.terms;
    led = λ leads.
        let (positive, whole, its) = a.led leads in
        let u = n.current_term in
        elim (ℕ_discrete t u) [
          | no other ↦ (positive, log-there u other ∙ whole, others u other ∙ its)
          | yes same ↦ elim was [
            | inl none_yet ↦ absurd (
                omega
                  (arith, a.some_entry, ap length (sym whole ∙ ap h.log_of (sym same) ∙ none_yet)))
            | inr before ↦ absurd (apart (sym before.1 ∙ ap h.leader_of same ∙ its))
          ]
        ];
    runs = λ runs.
        let (positive, its) = a.runs runs in
        let u = n.current_term in
        elim (ℕ_discrete t u) [
          | no other ↦ (
            positive,
            λ led now.
                its (subst (λ ys. 0 < length ys) (log-there u other) led)
                  (sym (others u other) ∙ now),
          )
          | yes same ↦ (positive, λ _ now. apart (sym lead ∙ ap h'.leader_of same ∙ now))
        ];
  }

  pub other-IsLed :
      (ms : List Bytes) (nodes : Bytes → Node) (cast : Bytes → ℕ → Bytes) (u : ℕ)
      → IsLed ms nodes cast h'.leader_of t
      → (0 < length (h.log_of u) → IsLed ms nodes cast h.leader_of u)
      → 0 < length (h'.log_of u)
      → IsLed ms nodes cast h'.leader_of u
  other-IsLed ms nodes cast u this before led = elim (ℕ_discrete t u) [
    | yes same ↦ subst (IsLed ms nodes cast h'.leader_of) same this
    | no other ↦
        let (term_u, some_one, most) =
          before (subst (λ ys. 0 < length ys) (log-there u other) led) in
        let lead_u = sym (others u other) in
        (
          subst (λ x. u ≤ (nodes x).current_term) lead_u term_u,
          subst (λ (x : Bytes). x ≢ []) lead_u some_one,
          subst (λ x. length ms < 2 * votes_for ms cast x u) lead_u most,
        )
  ]
