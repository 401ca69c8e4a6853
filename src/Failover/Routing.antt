-- ===== src/Failover/Routing.antt =====
-- The way of a call of the failover client, client/failover.go: which nodes it asks, and with what it
-- ends.
use distqueue.Base.{ℕ, ◌+◌, ◌<◌, ◌≡◌, ◌⊎◌, Option, none, some, [], ◌∷◌, ◌++◌, Bytes, length}
use distqueue.Failover.{
  Failover, current, leader_hint, failed_precondition, unavailable, deadline_exceeded, other,
  Errors, Attempt, cancelled, undialed, answered, fails, Outcome, returned, failed, IsValid,
}

-- The client that asks next behind `f`: at the address of the hint, which is put down if it is
-- unknown; without a hint at the next address, and behind the last at the first.
abbrev pub IsNext : Failover → Bytes → Failover → Type 0
IsNext f [] g =
    (g.addrs ≡ f.addrs)
    × ((f.cur + 1 < length f.addrs) × (g.cur ≡ f.cur + 1)
        ⊎ ((f.cur + 1 ≡ length f.addrs) × (g.cur ≡ 0)))
IsNext f (h ∷ hs) g =
    (current g ≡ h ∷ hs) × ((g.addrs ≡ f.addrs) ⊎ (g.addrs ≡ f.addrs ++ (h ∷ hs) ∷ []))

module _ {A E : Type 0} (errors : Errors E) (world : ℕ → Bytes → Attempt A E) where
  -- The error of the attempt `i` at an address is one of routing, and gives that hint.
  abbrev pub IsRouting : ℕ → Bytes → E → Bytes → Type 0
  IsRouting i addr e hint =
      ((world i addr ≡ undialed e) × (hint ≡ []))
      ⊎ ((done : Option E) × (world i addr ≡ fails e done)
          × (errors.code e ≡ failed_precondition)
          × (hint ≡ leader_hint (errors.message e)))
      ⊎ ((world i addr ≡ fails e none)
          × ((errors.code e ≡ unavailable) ⊎ (errors.code e ≡ deadline_exceeded))
          × (hint ≡ []))

  -- The first `n` attempts have met errors of routing, the last of them `last`, and lead to `g`.
  pub data Trail (f : Failover) : ℕ → Failover → Option E → Type 0 where
    starts : Trail f 0 f none
    goes_on :
        (n : ℕ) (g g' : Failover) (last : Option E) (e : E) (hint : Bytes)
        → Trail f n g last
        → IsRouting n (current g) e hint
        → IsNext g hint g'
        → Trail f (n + 1) g' (some e)

  -- What the call returns once the attempts before `n` have met errors of routing: the answer or the
  -- error of that attempt, or the last error of routing, behind six.
  abbrev pub IsEnd : ℕ → Failover → Option E → Outcome A E → Type 0
  IsEnd n g last (returned a) = (n < 6) × (world n (current g) ≡ answered a)
  IsEnd n g last (failed none) = ⊥
  IsEnd n g last (failed (some e)) =
      ((n ≡ 6) × (last ≡ some e))
      ⊎ ((n < 6) × (world n (current g) ≡ cancelled e))
      ⊎ ((n < 6)
          × (done : Option E) × (world n (current g) ≡ fails e done)
          × (errors.code e ≡ other))
      ⊎ ((n < 6)
          × (e' : E) × (world n (current g) ≡ fails e' (some e))
          × ((errors.code e' ≡ unavailable) ⊎ (errors.code e' ≡ deadline_exceeded)))

  -- The way of a call, and that the client still points to one of its addresses.
  pub record IsRouted (f : Failover) (r : Failover × Outcome A E) : Type 0 where
    pub tried : ℕ
    pub at : Failover
    pub last : Option E
    pub trail : Trail f tried at last
    pub end : IsEnd tried at last r.1
    pub valid : IsValid r.0
