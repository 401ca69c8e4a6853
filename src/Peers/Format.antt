-- ===== src/Peers/Format.antt =====
-- What `parsePeers` of cmd/broker/main.go reads in a flag of the form that the usage gives.
use distqueue.Base.{
  ℕ, ◌≡◌, ◌≢◌, refl, ap, ◌∙◌, some, List, [], ◌∷◌, ◌++◌, map, ◌==◌, Bytes, arith, All, count,
}
use distqueue.Base.Maps.{insert}
use distqueue.Peers.{split, comma, equals, Addrs, add_part, add_parts, parse_peers}

pub record Peer : Type 0 where
  pub id : Bytes
  pub raft : Bytes
  pub client : Bytes

-- The byte does not stand in the text.
abbrev Lacks : ℕ → Bytes → Type 0
Lacks c xs = count (λ x. x == c) xs ≡ 0

-- `id=raftAddr=clientAddr`
unfoldable pub show : Peer → Bytes
show p = p.id ++ equals ∷ (p.raft ++ equals ∷ p.client)

-- The parts with `,` between them.
unfoldable pub join : List Bytes → Bytes
join [] = []
join (x ∷ []) = x
join (x ∷ y ∷ ys) = x ++ comma ∷ join (y ∷ ys)

-- The peers in the maps, a later one over an earlier one with its id.
unfoldable pub add_peers : Addrs → List Peer → Addrs
add_peers m [] = m
add_peers m (p ∷ ps) = add_peers (insert m.0 p.id p.raft, insert m.1 p.id p.client) ps

-- No `=` stands in the three parts, and no `,` in the whole.
pub record IsPlain (p : Peer) : Type 0 where
  pub id : Lacks equals p.id
  pub raft : Lacks equals p.raft
  pub client : Lacks equals p.client
  pub whole : Lacks comma (show p)

split-append : (c : ℕ) (xs ys : Bytes) → Lacks c xs → split c (xs ++ c ∷ ys) ≡ xs ∷ split c ys
unfolding split
split-append c [] ys h = ground arith
split-append c (x ∷ xs) ys h = ground (arith, split-append c xs ys (ground (arith, h)), h)

split-last : (c : ℕ) (xs : Bytes) → Lacks c xs → split c xs ≡ xs ∷ []
unfolding split
split-last c [] h = refl
split-last c (x ∷ xs) h = ground (arith, split-last c xs (ground (arith, h)), h)

show-split : (p : Peer) → IsPlain p → split equals (show p) ≡ p.id ∷ p.raft ∷ p.client ∷ []
unfolding show
show-split p h =
    split-append equals p.id (p.raft ++ equals ∷ p.client) h.id
    ∙ ap (λ rest. p.id ∷ rest)
        (split-append equals p.raft p.client h.raft
          ∙ ap (λ rest. p.raft ∷ rest) (split-last equals p.client h.client))

add_parts-show :
    (m : Addrs) (p : Peer) (parts : List Bytes)
    → IsPlain p
    → add_parts m (show p ∷ parts)
      ≡ add_parts (insert m.0 p.id p.raft, insert m.1 p.id p.client) parts
unfolding add_parts add_part
add_parts-show m p parts h = ground (arith, show-split p h)

join-add_parts :
    (ps : List Peer) (m : Addrs) (p : Peer)
    → All IsPlain (p ∷ ps)
    → add_parts m (split comma (join (map show (p ∷ ps)))) ≡ some (add_peers m (p ∷ ps))
unfolding join add_peers add_parts
join-add_parts [] m p h =
    ap (add_parts m) (split-last comma (show p) h.0.whole) ∙ add_parts-show m p [] h.0
join-add_parts (q ∷ qs) m p h =
    ap (add_parts m) (split-append comma (show p) _ h.0.whole)
    ∙ add_parts-show m p _ h.0
    ∙ join-add_parts qs _ q h.1

append-ne : (xs ys : Bytes) (y : ℕ) → xs ++ y ∷ ys ≢ []
append-ne [] ys y h = absurd (cc)
append-ne (x ∷ xs) ys y h = absurd (cc)

parse_peers-some : (s : Bytes) → s ≢ [] → parse_peers s ≡ add_parts ([], []) (split comma s)
unfolding parse_peers
parse_peers-some [] h = absurd (h refl)
parse_peers-some (x ∷ xs) h = refl

join-ne : (p : Peer) (ps : List Peer) → join (map show (p ∷ ps)) ≢ []
unfolding join show
join-ne p [] = append-ne p.id _ equals
join-ne p (q ∷ qs) = append-ne (show p) _ comma

-- `parsePeers` of one or more peers, each written as id, Raft address and client address with `=`
-- between them and joined by `,`, none of which stands in a part, gives the two maps with those
-- peers put in one after the other.
pub join-parse_peers :
    (p : Peer) (ps : List Peer)
    → All IsPlain (p ∷ ps)
    → parse_peers (join (map show (p ∷ ps))) ≡ some (add_peers ([], []) (p ∷ ps))
join-parse_peers p ps h = parse_peers-some _ (join-ne p ps) ∙ join-add_parts ps ([], []) p h
