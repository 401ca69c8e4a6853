-- ===== src/Server/Redirects.antt =====
-- What a redirect says, server/cluster.go, and what client/failover.go reads in it.
use distqueue.Base.{
  ◌≡◌, refl, ◌∙◌, none, some, [], ◌++◌, Bytes, bytes_discrete, ite, codes, ite-intro₂,
  option-intro₂,
}
use distqueue.Base.Maps.{get}
use distqueue.Failover
use distqueue.Failover.{after_prefix, trim_left, trim_right}
use distqueue.Raft.Lifecycle.{leader_hint}
use distqueue.Server.{ClusterServer, redirect_message}

-- What the client makes of the answer of a server: the address that the server has for its leader.
abbrev address : ClusterServer → Bytes
address s =
    ite (bytes_discrete (leader_hint s.node) []) []
      (elim (get s.cfg.client_addrs (leader_hint s.node)) [ none ↦ [] | some addr ↦ addr ])

-- A text without white space at its ends.
abbrev IsTrimmed : Bytes → Type 0
IsTrimmed a = trim_right (trim_left a) ≡ a

hinted_lem :
    (addr : Bytes)
    → Failover.leader_hint (codes "not leader; leader=" ++ addr) ≡ trim_right (trim_left addr)
unfolding Failover.leader_hint after_prefix
hinted_lem addr = refl

unknown_lem : Failover.leader_hint (codes "not leader; leader unknown") ≡ []
unfolding Failover.leader_hint after_prefix
unknown_lem = refl

-- The failover client reads in the message of a redirect the address that the server has for its
-- leader, if that has no white space at its ends, and nothing if the server knows no leader or no
-- address of it.
pub redirect-hint :
    (s : ClusterServer)
    → IsTrimmed (address s)
    → Failover.leader_hint (redirect_message s) ≡ address s
unfolding redirect_message
redirect-hint s trimmed =
    let Read : Bytes → Bytes → Type 0 =
      λ msg addr. IsTrimmed addr → Failover.leader_hint msg ≡ addr in
    ite-intro₂ Read (bytes_discrete (leader_hint s.node) []) (λ _ _. unknown_lem)
      (λ _.
        option-intro₂ Read (get s.cfg.client_addrs (leader_hint s.node)) (λ _ _. unknown_lem)
          (λ addr _ t. hinted_lem addr ∙ t))
      trimmed
