-- ===== src/Examples/Clients.antt =====
-- The failover client's theorem on two nodes, of which the second is the leader.
use distqueue.Base.{ℕ, zero, suc, none, [], ◌∷◌, Bytes, codes}
use distqueue.Failover.{Failover, failed_precondition, Errors, Attempt, answered, fails}

abbrev two : Failover
two = record { addrs = codes "n1" ∷ codes "n2" ∷ []; cur = 0 }

-- An error is its message, and says that the node does not lead.
abbrev refusals : Errors Bytes
refusals = record { code = λ e. failed_precondition; message = λ e. e }

-- The first attempt is redirected, and the next one is answered.
abbrev redirect : ℕ → Bytes → Attempt ℕ Bytes
redirect zero addr = fails (codes "not leader; leader=n2") none
redirect (suc k) addr = answered 7
