-- ===== src/Raft/Indices.antt =====
-- The indices of a log from the snapshot boundary on, in `HandleAppendEntries` of
-- raft/replication.go.
use distqueue.Base.{
  ℕ, zero, suc, ◌+◌, ◌-◌, ◌≤◌, ◌<◌, ◌≡◌, refl, sym, subst, ap, ◌∙◌, Bool, true, false, not, List,
  [], ◌∷◌, ◌++◌, arith, ltb, leb, ◌==◌, if◌then◌else◌, Bytes, if-intro, length, take, drop, get_or,
  length-append, get_or-append, length-take_of_le, get_or-take,
}
use distqueue.Raft.{
  Node, LogEntry, first_index, last_index, term_at, no_entry, persist, become_follower,
}
use distqueue.Raft.Replication.{
  AppendEntriesArgs, AppendEntriesReply, append_each, accept, check_append, follow,
  handle_append_entries,
}

-- The entries have the indices `i`, `i + 1`, and so on.
abbrev pub IsFrom : ℕ → List LogEntry → Type 0
IsFrom i [] = Unit
IsFrom i (e ∷ es) = (e.index ≡ i) × IsFrom (suc i) es

-- A log: the boundary, and entries with the indices that follow.
abbrev pub IsLog : List LogEntry → Type 0
IsLog log = (0 < length log) × IsFrom (get_or log 0 no_entry).index log

append-IsFrom :
    (i : ℕ) (xs ys : List LogEntry) → IsFrom i xs → IsFrom (i + length xs) ys → IsFrom i (xs ++ ys)
append-IsFrom i [] ys h k = subst (λ j. IsFrom j ys) (omega arith) k
append-IsFrom i (x ∷ xs) ys h k =
    (h.0, append-IsFrom (suc i) xs ys h.1 (subst (λ j. IsFrom j ys) (omega arith) k))

take-IsFrom : (i k : ℕ) (xs : List LogEntry) → IsFrom i xs → IsFrom i (take k xs)
take-IsFrom i zero xs h = tt
take-IsFrom i (suc k) [] h = tt
take-IsFrom i (suc k) (x ∷ xs) h = (h.0, take-IsFrom (suc i) k xs h.1)

pub drop-IsFrom : (i k : ℕ) (xs : List LogEntry) → IsFrom i xs → IsFrom (i + k) (drop k xs)
drop-IsFrom i zero xs h = subst (λ j. IsFrom j xs) (omega arith) h
drop-IsFrom i (suc k) [] h = tt
drop-IsFrom i (suc k) (x ∷ xs) h =
    subst (λ j. IsFrom j (drop k xs)) (omega arith) (drop-IsFrom (suc i) k xs h.1)

index-IsFrom :
    (i k : ℕ) (xs : List LogEntry)
    → IsFrom i xs
    → k < length xs
    → (get_or xs k no_entry).index ≡ i + k
index-IsFrom i k [] h l = absurd (omega arith)
index-IsFrom i zero (x ∷ xs) h l = omega (arith, h.0)
index-IsFrom i (suc k) (x ∷ xs) h l = omega (arith, index-IsFrom (suc i) k xs h.1 (omega arith))

module _ (n : Node) (l : IsLog n.log) where
  -- The last index, from the length of the log.
  pub last_index_lem : last_index n + 1 ≡ first_index n + length n.log
  last_index_lem =
      omega
        (arith, l.0, index-IsFrom (first_index n) (length n.log - 1) n.log l.1 (omega (arith, l.0)))

  first-append : (es : List LogEntry) → (get_or (n.log ++ es) 0 no_entry).index ≡ first_index n
  first-append es = ap (λ (e : LogEntry). e.index) (get_or-append n.log es 0 no_entry l.0)

  -- Entries that follow the last one may be appended.
  pub append-IsLog : (es : List LogEntry) → IsFrom (last_index n + 1) es → IsLog (n.log ++ es)
  append-IsLog es h = (
    omega (arith, l.0, length-append n.log es),
    subst (λ i. IsFrom i (n.log ++ es)) (sym (first-append es))
        (append-IsFrom (first_index n) n.log es l.1 (subst (λ i. IsFrom i es) last_index_lem h)),
  )

  -- Entries behind the boundary may replace the tail.
  pub replace-IsLog :
      (j : ℕ) (es : List LogEntry)
      → IsFrom j es
      → first_index n < j
      → j ≤ last_index n
      → IsLog (take (j - first_index n) n.log ++ es)
  replace-IsLog j es h p q =
      let k = j - first_index n in
      let short : length (take k n.log) ≡ k =
        length-take_of_le k n.log (omega (arith, last_index_lem)) in
      let head : (get_or (take k n.log ++ es) 0 no_entry).index ≡ first_index n =
        ap (λ (e : LogEntry). e.index)
          (get_or-append (take k n.log) es 0 no_entry (omega (arith, short))
            ∙ get_or-take k n.log 0 no_entry (omega arith)) in
      (
        omega (arith, short, length-append (take k n.log) es),
        subst (λ i. IsFrom i (take k n.log ++ es)) (sym head)
            (append-IsFrom (first_index n) (take k n.log) es
              (take-IsFrom (first_index n) k n.log l.1)
              (subst (λ i. IsFrom i es) (omega (arith, short)) h)),
      )

  append_each-IsLog :
      (j : ℕ) (es : List LogEntry)
      → IsFrom j es
      → first_index n < j
      → j ≤ last_index n + 1
      → IsLog (append_each n es).0.log
  unfolding append_each
  append_each-IsLog j [] h p q = l
  append_each-IsLog j (e ∷ es) h p q =
      if-intro (λ (r : Node × Bool). IsLog r.0.log) (leb e.index (last_index n))
        (λ inside.
          if-intro (λ (r : Node × Bool). IsLog r.0.log) (term_at n e.index == e.term)
            (λ _. append_each-IsLog (suc j) es h.1 (omega arith) (ground (arith, h.0)))
            (λ _.
              replace-IsLog e.index (e ∷ es) (refl, subst (λ i. IsFrom (suc i) es) (sym h.0) h.1)
                (ground (arith, h.0)) (ground arith)))
        (λ outside.
          append-IsLog (e ∷ es)
            (ground (arith, h.0), subst (λ i. IsFrom (suc i) es) (ground (arith, h.0)) h.1))

pub follow-log : (n : Node) (term : ℕ) (id : Bytes) → (follow n term id).log ≡ n.log
unfolding follow persist become_follower
follow-log n term id = ground arith

pub persist_if-log : (b : Bool) (n : Node) → (if b then persist n else n).log ≡ n.log
unfolding persist
persist_if-log true n = refl
persist_if-log false n = refl

accept-IsLog :
    (n : Node) (prev : ℕ) (es : List LogEntry) (c : ℕ)
    → IsLog n.log
    → IsFrom (prev + 1) es
    → first_index n ≤ prev
    → prev ≤ last_index n
    → IsLog (accept n prev es c).log
unfolding accept
accept-IsLog n prev es c l h p q =
    let r = append_each n es in
    let grown = append_each-IsLog n l (prev + 1) es h (omega arith) (omega arith) in
    let saved : IsLog (if r.1 then persist r.0 else r.0).log =
      subst IsLog (sym (persist_if-log r.1 r.0)) grown in
    if-intro (λ (x : Node). IsLog x.log) (ltb (if r.1 then persist r.0 else r.0).commit_index c)
      (λ _. saved) (λ _. saved)

check_append-IsLog :
    (n : Node) (prev term : ℕ) (es : List LogEntry) (c : ℕ)
    → IsLog n.log
    → IsFrom (prev + 1) es
    → first_index n ≤ prev
    → IsLog (check_append n prev term es c).0.log
unfolding check_append
check_append-IsLog n prev term es c l h p =
    if-intro (λ (r : Node × AppendEntriesReply). IsLog r.0.log) (ltb (last_index n) prev) (λ _. l)
      (λ inside.
        if-intro (λ (r : Node × AppendEntriesReply). IsLog r.0.log) (not (term_at n prev == term))
          (λ _. l) (λ _. accept-IsLog n prev es c l h p (ground arith)))

pub next_of : (a b : ℕ) → ltb a b ≡ true → a + 1 + (b - a) ≡ b + 1
next_of a b h = ground arith

-- `HandleAppendEntries` leaves the log of a node with consecutive indices behind its boundary, if
-- it had them and the entries of the request have the indices behind the previous one.
pub handle_append_entries-IsLog :
    (n : Node) (args : AppendEntriesArgs)
    → IsLog n.log
    → IsFrom (args.prev_log_index + 1) args.entries
    → IsLog (handle_append_entries n args).0.log
unfolding handle_append_entries
handle_append_entries-IsLog n args l h =
    let n' = follow n args.term args.leader_id in
    let l' : IsLog n'.log = subst IsLog (sym (follow-log n args.term args.leader_id)) l in
    let first = first_index n' in
    if-intro (λ (r : Node × AppendEntriesReply). IsLog r.0.log) (ltb args.term n.current_term)
      (λ _. l)
      (λ _.
        if-intro (λ (r : Node × AppendEntriesReply). IsLog r.0.log) (ltb args.prev_log_index first)
          (λ below.
            if-intro (λ (r : Node × AppendEntriesReply). IsLog r.0.log)
              (ltb (length args.entries) (first - args.prev_log_index)) (λ _. l')
              (λ _.
                check_append-IsLog n' first _ _ _ l'
                  (subst (λ i. IsFrom i (drop (first - args.prev_log_index) args.entries))
                    (next_of args.prev_log_index first below)
                    (drop-IsFrom (args.prev_log_index + 1) (first - args.prev_log_index)
                      args.entries h))
                  (omega arith)))
          (λ above. check_append-IsLog n' args.prev_log_index _ _ _ l' h (ground arith)))
