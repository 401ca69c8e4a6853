-- ===== src/Raft/Consensus/Crowning.antt =====
-- A candidate wins, `becomeLeaderLocked` of raft/election.go, and what the nodes know.
use distqueue.Base.{
  ℕ, ◌+◌, ◌-◌, ◌*◌, ◌≤◌, ◌<◌, ◌≡◌, ◌≢◌, inl, inr, refl, sym, subst, ap, ◌∙◌, true, List, [], ◌∷◌,
  arith, Bytes, length, count, length-append,
}
use distqueue.Raft.{Node, candidate, last_index, last_term}
use distqueue.Raft.Election.{become_leader}
use distqueue.Raft.Cluster.{Cluster, update, same, same-lem}
use distqueue.Raft.Cluster.Elected.{IsSound, Grow, votes_for}
use distqueue.Raft.Cluster.Moves.{update-here}
use distqueue.Raft.Consensus.{System, History, at_term, share}
use distqueue.Raft.Consensus.Logs.{at, Agree, last-IsTold}
use distqueue.Raft.Consensus.Histories.{at_term-here, at_term-there}
use distqueue.Raft.Consensus.Matched.{IsMatched}
use distqueue.Raft.Consensus.Grown.{Leads, become_leader-Leads}
use distqueue.Raft.Consensus.Winning.{none_led}
use distqueue.Raft.Consensus.Fresh.{IsFresh, become_leader-IsFresh, last_index-Leads}
use distqueue.Raft.Consensus.Facts.{Backs, IsAgreed}
use distqueue.Raft.Consensus.Onward.{Backs-Onward}
use distqueue.Raft.Consensus.Sharing.{shared_to, shared_to-here}
use distqueue.Raft.Consensus.Frame.{vote_in_time, in_time_or_other}
use distqueue.Raft.Consensus.Leading.{Entitles, IsThere, Led, led-Onward}
use distqueue.Raft.Consensus.Reigning.{led-IsAgreed}

-- The history of a new leader.
abbrev pub crowned : History → (Bytes → ℕ → Bytes) → Bytes → Node → Node → History
crowned h cast i n n' =
    share
      (record h {
        log_of = at_term h.log_of n'.current_term n'.log;
        start_of = at_term h.start_of n'.current_term (length n.log);
        leader_of = at_term h.leader_of n'.current_term i;
        backers = at_term h.backers n'.current_term (λ v. same (cast v n'.current_term) i);
      })
      i n'.current_term (length n'.log - 1)

-- The candidate `i` has won, and is now `n'`.
module _ (ms : List Bytes) (s : System) (m : IsMatched ms s) (a : IsAgreed ms s) (i : Bytes)
    (n' : Node) (c : Cluster) (sound : IsSound ms c) (nodes : c.nodes ≡ update s.cluster.nodes i n')
    (g : Grow s.cluster.cast c.cast)
    (unvoted : (v : Bytes) (u : ℕ) → c.cast v u ≢ [] → c.cast v u ≡ s.cluster.cast v u)
    (ran : (s.cluster.nodes i).state ≡ candidate)
    (won : n' ≡ become_leader (s.cluster.nodes i)) where
  abbrev n : Node
  n = s.cluster.nodes i

  abbrev t : ℕ
  t = n.current_term

  abbrev h' : History
  h' = crowned s.past c.cast i n n'

  leads : Leads n n'
  leads = subst (Leads n) (sym won) (become_leader-Leads n)

  some_term : 0 < t
  some_term = ((m.node i).runs ran).0

  here : c.nodes i ≡ n'
  here = ap (λ f. f i) nodes ∙ update-here s.cluster.nodes i n'

  elected : (i ≢ []) × (length ms < 2 * votes_for ms c.cast i t)
  elected =
      let (some_one, most) =
        (sound.elected i).led (ap (λ (x : Node). x.state) here ∙ leads.state) in
      (
        some_one,
        subst (λ u. length ms < 2 * votes_for ms c.cast i u)
            (ap (λ (x : Node). x.current_term) here ∙ leads.term) most,
      )

  none_yet : s.past.log_of t ≡ []
  none_yet = none_led ms s i c m ran g elected.1

  not_led : 0 < length (s.past.log_of t) → ⊥
  not_led h = omega (arith, h, ap length none_yet)

  start-here : h'.start_of t ≡ length n.log
  unfolding share
  start-here =
      ap (λ u. at_term s.past.start_of u (length n.log) t) leads.term
      ∙ at_term-here s.past.start_of t (length n.log)

  leader-here : h'.leader_of t ≡ i
  unfolding share
  leader-here =
      ap (λ u. at_term s.past.leader_of u i t) leads.term ∙ at_term-here s.past.leader_of t i

  backers-here : h'.backers t ≡ λ v. same (c.cast v t) i
  unfolding share
  backers-here =
      ap (λ u. at_term s.past.backers u (λ v. same (c.cast v u) i) t) leads.term
      ∙ at_term-here s.past.backers t (λ v. same (c.cast v t) i)

  there : IsThere t s.past h'
  unfolding share
  there = record {
    start = λ u other.
        ap (λ w. at_term s.past.start_of w (length n.log) u) leads.term
        ∙ at_term-there s.past.start_of t (length n.log) u other;
    leader = λ u other.
        ap (λ w. at_term s.past.leader_of w i u) leads.term
        ∙ at_term-there s.past.leader_of t i u other;
    backers = λ u other.
        ap (λ w. at_term s.past.backers w (λ v. same (c.cast v w) i) u) leads.term
        ∙ at_term-there s.past.backers t (λ v. same (c.cast v t) i) u other;
  }

  pub led : Led s i n' h'
  unfolding share
  led = record {
    leads = leads;
    some_term = some_term;
    log = λ j. at_term s.past.log_of (leads.term j) (leads.log j);
    shared = λ j. shared_to s.past.shared i (leads.term j) (length n'.log - 1);
    ran = refl;
    starts = λ u some_log.
        there.start u (λ e. not_led (subst (λ w. 0 < length (s.past.log_of w)) (sym e) some_log));
    was = inl none_yet;
  }

  -- Who has voted for the new leader.
  voter : (v : Bytes) → h'.backers t v ≡ true → c.cast v t ≡ i
  voter v backs = same-lem (c.cast v t) i (subst (λ f. f v ≡ true) backers-here backs)

  cast_before : (v : Bytes) → h'.backers t v ≡ true → s.cluster.cast v t ≡ i
  cast_before v backs =
      let it = voter v backs in sym (unvoted v t (λ e. elected.0 (sym it ∙ e))) ∙ it

  voter_in_time : (v : Bytes) → h'.backers t v ≡ true → t ≤ (s.cluster.nodes v).current_term
  voter_in_time v backs =
      vote_in_time ms s m a i v t (λ e. elected.0 (sym (cast_before v backs) ∙ e))

  Backs-here : (v : Bytes) → h'.backers t v ≡ true → Backs h' v (s.past.ran i t) t
  Backs-here v backs =
      let it = cast_before v backs in
      Backs-Onward ms i n s.past h' m.past a.counted (led-Onward ms s m a i n' h' led) v
        (s.past.ran i t) t (in_time_or_other s.cluster.nodes i v t (voter_in_time v backs))
        (elim (a.cast v t (λ e. elected.0 (sym it ∙ e))).1 [
          | inl some_log ↦ absurd (not_led some_log)
          | inr b ↦ subst (λ w. Backs s.past v (s.past.ran w t) t) it b
        ])

  entitles : Entitles ms h' t n.log
  unfolding share
  entitles =
      let k = a.knows i in
      let node = m.node i in
      let (last, _) = last-IsTold s.past.log_of n node.some_entry node.told in
      let r : s.past.ran i t ≡ (last_index n, last_term n) = k.runs ran in
      let index : (s.past.ran i t).0 ≡ last_index n = ap (λ x. x.0) r in
      record {
        starts =
            subst
              (λ w.
                (h'.start_of t ≡ (s.past.ran w t).0 + 1)
                × (h'.start_of t ≤ length n.log)
                × ((at n.log (s.past.ran w t).0).term ≡ (s.past.ran w t).1))
              (sym leader-here)
              (
                omega (arith, start-here, index, last),
                omega (arith, start-here),
                ap (λ k. (at n.log k).term) (omega (arith, index, last)) ∙ ap (λ x. x.1) (sym r),
              );
        old = λ k inside _.
            let below = node.terms k inside in
            let other : (at n.log k).term ≢ t = λ e. omega (
              arith,
              ap length none_yet,
              (subst (λ u. Agree n.log k (s.past.log_of u)) e (node.told.told k inside)).right,
            ) in
            ground (arith, below, other);
        new = λ k inside late. absurd (omega (arith, start-here));
        most = subst (λ f. length ms < 2 * count f ms) (sym backers-here) elected.1;
        backs = λ v backs.
            subst (λ w. Backs h' v (s.past.ran w t) t) (sym leader-here) (Backs-here v backs);
      }

  pub crowned-IsAgreed : IsAgreed ms (record s { cluster = c; past = h' })
  unfolding share
  crowned-IsAgreed =
      let k = a.knows i in
      let node = m.node i in
      let fresh : IsFresh i n n' =
        subst (IsFresh i n) (sym won) (become_leader-IsFresh i n (m.sound.elected i).id) in
      let (last, _) = last-IsTold s.past.log_of n node.some_entry node.told in
      let far : last_index n' ≤ h'.shared i t =
        subst (λ u. last_index n' ≤ shared_to s.past.shared i u (length n'.log - 1) i t)
          (sym leads.term)
          (omega (
            arith,
            last,
            last_index-Leads n n' leads,
            ap length leads.log,
            length-append n.log (leads.entry ∷ []),
            shared_to-here s.past.shared i t (length n'.log - 1),
          )) in
      led-IsAgreed ms s m a i n' h' led entitles there (k.runs_member ran) fresh.peers fresh.commit
        (fresh.map k.map)
        (λ p some_index. elim (fresh.index k.peers p) [
          | inl none_left ↦ absurd (omega arith)
          | inr (own, _) ↦ inl own
        ])
        (λ p. elim (fresh.index k.peers p) [
          | inl none_left ↦ omega arith
          | inr (own, below) ↦
              omega (arith, below, subst (λ x. last_index n' ≤ h'.shared x t) (sym own) far)
        ])
        c nodes unvoted voter_in_time
