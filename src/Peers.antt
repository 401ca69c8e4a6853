-- ===== src/Peers.antt =====
-- The peers flag of the broker command, cmd/broker/main.go, with `strings.Split` on one byte.
pub mod Format
use distqueue.Base.{ℕ, Option, none, some, List, [], ◌∷◌, ◌==◌, if◌then◌else◌, Bytes}
use distqueue.Base.Maps.{insert}

-- A part with one more byte in front.
abbrev pub longer : ℕ → List Bytes → List Bytes
longer x [] = (x ∷ []) ∷ []
longer x (part ∷ parts) = (x ∷ part) ∷ parts

-- `strings.Split(s, c)`
unfoldable pub split : ℕ → Bytes → List Bytes
split c [] = [] ∷ []
split c (x ∷ xs) = let rest = split c xs in if x == c then [] ∷ rest else longer x rest

-- The bytes `,` and `=`
abbrev pub comma : ℕ
comma = 44

abbrev pub equals : ℕ
equals = 61

-- The two maps of `parsePeers`
abbrev pub Addrs : Type 0
Addrs = List (Bytes × Bytes) × List (Bytes × Bytes)

-- The body of the loop of `parsePeers`; none is the error.
unfoldable pub add_part : Addrs → List Bytes → Option Addrs
add_part m (id ∷ raft ∷ client ∷ []) = some (insert m.0 id raft, insert m.1 id client)
add_part m _ = none

unfoldable pub add_parts : Addrs → List Bytes → Option Addrs
add_parts m [] = some m
add_parts m (part ∷ parts) = elim (add_part m (split equals part)) [
  | none ↦ none
  | some m' ↦ add_parts m' parts
]

-- `parsePeers`
unfoldable pub parse_peers : Bytes → Option Addrs
parse_peers [] = some ([], [])
parse_peers (x ∷ xs) = add_parts ([], []) (split comma (x ∷ xs))
