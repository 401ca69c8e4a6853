-- ===== src/Server/Effects.antt =====
-- What an acknowledged call has done to the state machine of its server, server/cluster.go: the turn
-- of the applier behind the answer, found in the run.
use distqueue.Base.{ℕ, ◌≡◌, some, List, [], ◌∷◌, ◌++◌, Bytes}
use distqueue.Machine.{Machine, QueueOp}
use distqueue.Machine
use distqueue.Server.{Codec, commits}
use distqueue.Server.Runs.{Act, hears, World, perform, run}

-- What a committed command does to the state machine: nothing if it is empty, and else the operation
-- that it is decoded to.
abbrev pub IsEffect : Codec → Bytes → Machine → Machine → Type 0
IsEffect c [] m m' = m' ≡ m
IsEffect c (b ∷ bs) m m' =
    (op : QueueOp) × (c.decode_op (b ∷ bs) ≡ some op) × (m' ≡ Machine.apply m op)

-- In a run from `w` to `w'` the applier hears of an entry of that index and term, and its command
-- changes the state machine that the server has then.
pub record TakesEffect (c : Codec) (w w' : World) (acts : List Act) (index term : ℕ) : Type 0 where
  pub earlier : List Act
  pub later : List Act
  pub command : Bytes
  pub before : World
  pub after : World
  pub whole : acts ≡ earlier ++ hears (commits command index term) ∷ later
  pub reached : run c w earlier ≡ some before
  pub heard : perform c before (hears (commits command index term)) ≡ some after
  pub left : run c after later ≡ some w'
  pub effect : IsEffect c command before.server.sm after.server.sm
