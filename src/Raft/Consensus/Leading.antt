-- ===== src/Raft/Consensus/Leading.antt =====
-- A leader's new entry, `becomeLeaderLocked` of raft/election.go and `Propose` of raft/raft.go, and
-- what the nodes know.
use distqueue.Base.{
  ℕ, ◌+◌, ◌-◌, ◌*◌, ◌≤◌, ◌<◌, ◌≡◌, ◌≢◌, ◌⊎◌, inl, inr, sym, subst, ap, ◌∙◌, true, List, [], ◌∷◌,
  ◌++◌, arith, Bytes, length, count, ℕ_discrete, length-append, get_or-append, get_or-append_last,
}
use distqueue.Raft.{Node, LogEntry, no_entry}
use distqueue.Raft.Consensus.{System, History, at_term}
use distqueue.Raft.Consensus.Logs.{at}
use distqueue.Raft.Consensus.Histories.{Grows, longer-Grows, at_term-here, at_term-there}
use distqueue.Raft.Consensus.Matched.{IsMatched}
use distqueue.Raft.Consensus.Grown.{Leads}
use distqueue.Raft.Consensus.Facts.{Backs, IsAgreed}
use distqueue.Raft.Consensus.Onward.{Onward}
use distqueue.Raft.Consensus.Sharing.{shared_to, shared_to-cases, shared_to-up, shared_to-same}
use distqueue.Raft.Consensus.Frame.{starts-Onward}

-- What entitles the leader of `t` to add to the log `xs`.
pub record Entitles (ms : List Bytes) (h : History) (t : ℕ) (xs : List LogEntry) : Type 0 where
  pub starts :
      let r = h.ran (h.leader_of t) t in
      (h.start_of t ≡ r.0 + 1) × (h.start_of t ≤ length xs) × ((at xs r.0).term ≡ r.1)
  pub old : (k : ℕ) → k < length xs → k < h.start_of t → (at xs k).term < t
  pub new : (k : ℕ) → k < length xs → h.start_of t ≤ k → (at xs k).term ≡ t
  pub most : length ms < 2 * count (h.backers t) ms
  pub backs : (v : Bytes) → h.backers t v ≡ true → Backs h v (h.ran (h.leader_of t) t) t

-- The history is that of the other terms as before.
pub record IsThere (t : ℕ) (h h' : History) : Type 0 where
  pub start : (u : ℕ) → t ≢ u → h'.start_of u ≡ h.start_of u
  pub leader : (u : ℕ) → t ≢ u → h'.leader_of u ≡ h.leader_of u
  pub backers : (u : ℕ) → t ≢ u → h'.backers u ≡ h.backers u

-- The node `i` leads, and is now `n`; the history has become `h'`.
pub record Led (s : System) (i : Bytes) (n : Node) (h' : History) : Type 0 where
  pub leads : Leads (s.cluster.nodes i) n
  pub some_term : 0 < (s.cluster.nodes i).current_term
  pub log :
      h'.log_of
      ≡ at_term s.past.log_of
          (s.cluster.nodes i).current_term
          ((s.cluster.nodes i).log ++ leads.entry ∷ [])
  pub shared :
      h'.shared ≡ shared_to s.past.shared i (s.cluster.nodes i).current_term (length n.log - 1)
  pub ran : h'.ran ≡ s.past.ran
  pub starts : (u : ℕ) → 0 < length (s.past.log_of u) → h'.start_of u ≡ s.past.start_of u
  pub was :
      (s.past.log_of (s.cluster.nodes i).current_term ≡ [])
      ⊎ (s.past.log_of (s.cluster.nodes i).current_term ≡ (s.cluster.nodes i).log)

module _ (ms : List Bytes) (s : System) (m : IsMatched ms s) (a : IsAgreed ms s) (i : Bytes)
    (n : Node) (h' : History) (d : Led s i n h') where
  abbrev old : Node
  old = s.cluster.nodes i

  abbrev t : ℕ
  t = old.current_term

  abbrev zs : List LogEntry
  zs = old.log ++ d.leads.entry ∷ []

  pub log-here : h'.log_of t ≡ zs
  log-here = ap (λ f. f t) d.log ∙ at_term-here s.past.log_of t zs

  pub log-there : (u : ℕ) → t ≢ u → h'.log_of u ≡ s.past.log_of u
  log-there u other = ap (λ f. f u) d.log ∙ at_term-there s.past.log_of t zs u other

  pub led-Onward : Onward i old s.past h'
  led-Onward = record {
    logs =
        subst (Grows s.past.log_of) (sym d.log)
          (longer-Grows s.past.log_of t old.log d.leads.entry d.was d.some_term d.leads.own);
    starts = d.starts;
    up = λ v u.
        subst (λ f. s.past.shared v u ≤ f v u) (sym d.shared)
          (shared_to-up s.past.shared i t (length n.log - 1) v u);
    same = λ v u when.
        ap (λ f. f v u) d.shared ∙ shared_to-same s.past.shared i t (length n.log - 1) v u when;
    ran = λ v u _. ap (λ f. f v u) d.ran;
  }

  size : length zs ≡ length old.log + 1
  size = length-append old.log (d.leads.entry ∷ [])

  pub size-n : length n.log ≡ length old.log + 1
  size-n = ap length d.leads.log ∙ size

  -- The last entry, and the ones before it.
  entry :
      (P : ℕ → LogEntry → Type 0)
      → ((k : ℕ) → k < length old.log → P k (at old.log k))
      → P (length old.log) d.leads.entry
      → (k : ℕ) → k < length zs
      → P k (at zs k)
  entry P before last k inside = elim (ℕ_discrete k (length old.log)) [
    | yes end ↦
        subst (λ j. P j (at zs j)) (sym end)
          (subst (P (length old.log)) (sym (get_or-append_last old.log d.leads.entry no_entry))
            last)
    | no other ↦
        let within : k < length old.log = omega (arith, size) in
        subst (P k) (sym (get_or-append old.log (d.leads.entry ∷ []) k no_entry within))
          (before k within)
  ]

  module _ (e : Entitles ms h' t old.log) (there : IsThere t s.past h') where
    unfoldable pub Starts : ℕ → List LogEntry → Type 0
    Starts u xs =
        let r = h'.ran (h'.leader_of u) u in
        (h'.start_of u ≡ r.0 + 1) × (h'.start_of u < length xs) × ((at xs r.0).term ≡ r.1)

    pub Starts-here : Starts t (h'.log_of t)
    unfolding Starts
    Starts-here =
        let (start, room, last) = e.starts in
        let r = h'.ran (h'.leader_of t) t in
        subst (Starts t) (sym log-here) (
          start,
          omega (arith, room, size),
          ap (λ (x : LogEntry). x.term)
                (get_or-append old.log (d.leads.entry ∷ []) r.0 no_entry
                  (omega (arith, start, room)))
              ∙ last,
        )

    pub Starts-there :
        (u : ℕ) → t ≢ u → 0 < u → 0 < length (s.past.log_of u) → Starts u (s.past.log_of u)
    unfolding Starts
    Starts-there u other positive led =
        subst
          (λ (w : Bytes).
            let r = h'.ran w u in
            (h'.start_of u ≡ r.0 + 1)
            × (h'.start_of u < length (s.past.log_of u))
            × ((at (s.past.log_of u) r.0).term ≡ r.1))
          (sym (there.leader u other))
          (subst
            (λ x.
              let r = h'.ran (s.past.leader_of u) u in
              (x ≡ r.0 + 1)
              × (x < length (s.past.log_of u))
              × ((at (s.past.log_of u) r.0).term ≡ r.1))
            (sym (there.start u other)) (starts-Onward ms s m a i h' u led-Onward positive led))

    pub led-old :
        (u k : ℕ) → k < length (h'.log_of u) → k < h'.start_of u → (at (h'.log_of u) k).term < u
    led-old u = elim (ℕ_discrete t u) [
      | yes now ↦
          subst
            (λ u.
              (k : ℕ)
              → k < length (h'.log_of u)
              → k < h'.start_of u
              → (at (h'.log_of u) k).term < u)
            now
            (subst (λ xs. (k : ℕ) → k < length xs → k < h'.start_of t → (at xs k).term < t)
              (sym log-here)
              (entry (λ k x. k < h'.start_of t → x.term < t) e.old
                (λ early. absurd (omega (arith, e.starts.1)))))
      | no other ↦ λ k.
          subst (λ xs. k < length xs → k < h'.start_of u → (at xs k).term < u)
            (sym (log-there u other))
            (λ inside early. a.counted.old u k inside (omega (arith, there.start u other)))
    ]

    pub led-new :
        (u k : ℕ) → k < length (h'.log_of u) → h'.start_of u ≤ k → (at (h'.log_of u) k).term ≡ u
    led-new u = elim (ℕ_discrete t u) [
      | yes now ↦
          subst
            (λ u.
              (k : ℕ)
              → k < length (h'.log_of u)
              → h'.start_of u ≤ k
              → (at (h'.log_of u) k).term ≡ u)
            now
            (subst (λ xs. (k : ℕ) → k < length xs → h'.start_of t ≤ k → (at xs k).term ≡ t)
              (sym log-here)
              (entry (λ k x. h'.start_of t ≤ k → x.term ≡ t) e.new (λ _. d.leads.own)))
      | no other ↦ λ k.
          subst (λ xs. k < length xs → h'.start_of u ≤ k → (at xs k).term ≡ u)
            (sym (log-there u other))
            (λ inside late. a.counted.new u k inside (omega (arith, there.start u other)))
    ]

    pub led-bound :
        (v : Bytes) (u : ℕ) → (h'.shared v u ≡ 0) ⊎ (h'.shared v u < length (h'.log_of u))
    led-bound v u =
        subst (λ f. (f v u ≡ 0) ⊎ (f v u < length (h'.log_of u))) (sym d.shared)
          (elim (shared_to-cases s.past.shared i t (length n.log - 1) v u) [
            | inr (_, same) ↦ elim (a.counted.bound v u) [
              | inl none_had ↦ inl (same ∙ none_had)
              | inr inside ↦ inr (omega (arith, same, (led-Onward.logs u _ inside).right))
            ]
            | inl (_, now, same) ↦
                let whole : length (h'.log_of u) ≡ length old.log + 1 =
                  subst (λ u. length (h'.log_of u) ≡ length old.log + 1) now
                    (ap length log-here ∙ size) in
                elim (a.counted.bound v u) [
                  | inl none_had ↦ inr (omega (arith, same, size-n))
                  | inr inside ↦
                      inr (omega (arith, same, size-n, (led-Onward.logs u _ inside).right))
                ]
          ])
