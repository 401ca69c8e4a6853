-- ===== src/Raft/Consensus/Sent.antt =====
-- What a leader sends, `sendAppendEntries` of raft/replication.go, and its log.
use distqueue.Base.{
  ℕ, zero, suc, ◌-◌, ◌≤◌, ◌<◌, ◌≡◌, inl, inr, refl, sym, subst, ap, ◌∙◌, not, List, [], ◌∷◌, arith,
  leb, if-intro, option-intro, length, drop, get_or, Bytes, dec_lt,
}
use distqueue.Raft.{Node, LogEntry, leader, is_leader, first_index, term_at, no_entry}
use distqueue.Raft.Replication.{AppendEntriesArgs, append_args, index_of}
use distqueue.Raft.Installing.{Request, append, send_append_entries}
use distqueue.Raft.Consensus.{System}
use distqueue.Raft.Consensus.Logs.{at, IsPart}
use distqueue.Raft.Consensus.Handling.{Fits}
use distqueue.Raft.Consensus.Matched.{IsMatched}
use distqueue.Raft.Consensus.Grown.{is_leader-lem}

-- What a leader sends: its arguments, for a peer whose next index is behind the boundary.
pub sent-lem :
    (n : Node) (peer : Bytes) (args : AppendEntriesArgs)
    → send_append_entries n peer ≡ append args
    → (n.state ≡ leader)
      × (append_args n peer ≡ args)
      × (first_index n < index_of n.next_index peer)
unfolding send_append_entries
sent-lem n peer args =
    let Sent : Request → Type 0 = λ r.
      r ≡ append args
      → (n.state ≡ leader)
        × (append_args n peer ≡ args)
        × (first_index n < index_of n.next_index peer) in
    if-intro Sent (not (is_leader n.state)) (λ _ e. absurd (cc))
      (λ leads.
        if-intro Sent (leb (index_of n.next_index peer) (first_index n))
          (λ _. option-intro Sent n.snapshot (λ _ e. absurd (cc)) (λ _ _ e. absurd (cc)))
          (λ behind e.
            let same : append_args n peer ≡ args = cc (e) in
            (is_leader-lem n.state (ground arith), same, ground (arith, behind))))

get_or-beyond : {A : Type 0} (xs : List A) (k : ℕ) (d : A) → length xs ≤ k → get_or xs k d ≡ d
get_or-beyond [] k d h = refl
get_or-beyond (x ∷ xs) zero d h = absurd (omega arith)
get_or-beyond (x ∷ xs) (suc k) d h = get_or-beyond xs k d (omega arith)

shift-IsPart :
    (x : LogEntry) (xs es : List LogEntry) (i : ℕ) → IsPart xs i es → IsPart (x ∷ xs) (suc i) es
shift-IsPart x xs [] i p = tt
shift-IsPart x xs (e ∷ es) i p = (omega (arith, p.0), p.1, shift-IsPart x xs es (suc i) p.2)

drop-IsPart : (xs : List LogEntry) (k : ℕ) → IsPart xs k (drop k xs)
drop-IsPart [] zero = tt
drop-IsPart [] (suc k) = tt
drop-IsPart (x ∷ xs) zero = (omega arith, refl, shift-IsPart x xs xs 0 (drop-IsPart xs 0))
drop-IsPart (x ∷ xs) (suc k) = shift-IsPart x xs (drop k xs) k (drop-IsPart xs k)

-- What a leader sends fits its log.
append_args-Fits :
    (n : Node) (peer : Bytes)
    → 0 < length n.log
    → first_index n ≡ 0
    → 0 < index_of n.next_index peer
    → Fits n.log (append_args n peer)
unfolding append_args
append_args-Fits n peer some_entry first behind =
    let next = index_of n.next_index peer in
    let place : next - 1 - first_index n ≡ next - 1 = omega (arith, first) in
    let term : term_at n (next - 1) ≡ (at n.log (next - 1)).term =
      ap (λ k. (at n.log k).term) place in
    elim (dec_lt (next - 1) (length n.log)) [
      | yes inside ↦ inl (
        inside,
        term,
        subst (λ k. IsPart n.log k (drop (next - first_index n) n.log))
            (omega (arith, first, behind)) (drop-IsPart n.log (next - first_index n)),
      )
      | no outside ↦ inr (
        omega (arith, some_entry, outside),
        term
            ∙ ap (λ (e : LogEntry). e.term) (get_or-beyond n.log (next - 1) no_entry (omega arith)),
      )
    ]

pub sent-IsMatched :
    (ms : List Bytes) (s : System) (i peer : Bytes) (args : AppendEntriesArgs)
    → IsMatched ms s
    → send_append_entries (s.cluster.nodes i) peer ≡ append args
    → IsMatched ms (record s { requests = args ∷ s.requests })
unfolding append_args
sent-IsMatched ms s i peer args m sent =
    let n = s.cluster.nodes i in
    let (leads, same, behind) = sent-lem n peer args sent in
    let node = m.node i in
    let first = node.told.index 0 node.some_entry in
    let this : Fits (s.past.log_of n.current_term) (append_args n peer) =
      subst (λ xs. Fits xs (append_args n peer)) (sym (node.led leads).1)
        (append_args-Fits n peer node.some_entry first (omega (arith, behind, first))) in
    record {
      sound = m.sound;
      past = m.past;
      node = m.node;
      led = m.led;
      fits = λ x sent. elim sent [
        | inl e ↦ subst (λ (a : AppendEntriesArgs). Fits (s.past.log_of a.term) a) (same ∙ e) this
        | inr before ↦ m.fits x before
      ];
      asked = m.asked;
    }
