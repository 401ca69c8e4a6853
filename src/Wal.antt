-- ===== src/Wal.antt =====
-- The records of the write-ahead log, broker/wal.go: their layout, how one is read back, and the
-- replay of a file. The gob coding of a task is the record `Codec`.
pub mod Crc
pub mod Record
pub mod Replay
pub mod Fuel
use distqueue.Base.{
  ℕ, zero, suc, ◌+◌, ◌-◌, ◌*◌, ◌/◌, ◌%◌, ◌^◌, ◌≤◌, ◌≡◌, Bool, true, false, not, Option, none, some,
  List, [], ◌∷◌, ◌++◌, ltb, ◌==◌, if◌then◌else◌, Bytes, length, take, drop, get_or, bytes_discrete,
  ite,
}
use distqueue.Task.{Task}
use Crc.{crc32}
use mathlib.Core.Option

abbrev pub op_enqueue : ℕ
op_enqueue = 0x01

abbrev pub op_ack : ℕ
op_ack = 0x02

abbrev pub op_nack : ℕ
op_nack = 0x03

abbrev pub op_dead : ℕ
op_dead = 0x04

-- 'D', 'Q', 'W', 'L'
abbrev pub wal_magic : Bytes
wal_magic = 0x44 ∷ 0x51 ∷ 0x57 ∷ 0x4c ∷ []

-- The cap on a payload that `readRecord` accepts, 64 << 20.
abbrev pub max_payload : ℕ
max_payload = 64 * 2 ^ 20

-- encoding/gob on a task. What is encoded decodes to an equal task. A task whose id and payload
-- have at most `room` bytes is encoded, below the cap: the coding adds a bounded number of bytes.
pub record Codec : Type 0 where
  pub encode_task : Task → Option Bytes
  pub decode_task : Bytes → Option Task
  pub room : ℕ
  pub decode-encode : (t : Task) (b : Bytes) → encode_task t ≡ some b → decode_task b ≡ some t
  pub room-le : room ≤ max_payload
  pub encode-fits :
      (t : Task)
      → length t.id + length t.payload ≤ room
      → (b : Bytes) × (encode_task t ≡ some b) × (length b ≤ max_payload)

pub record LogEntry : Type 0 where
  pub op : ℕ
  pub task_id : Bytes
  pub task : Option Task

-- binary.BigEndian.AppendUint32 and Uint32
unfoldable pub be32 : ℕ → Bytes
be32 v = (v / 2 ^ 24 % 256) ∷ (v / 2 ^ 16 % 256) ∷ (v / 2 ^ 8 % 256) ∷ (v % 256) ∷ []

unfoldable pub from_be32 : Bytes → ℕ
from_be32 (a ∷ b ∷ c ∷ e ∷ _) = a * 2 ^ 24 + b * 2 ^ 16 + c * 2 ^ 8 + e
from_be32 _ = 0

-- `encodeRecord`
unfoldable pub encode_record : ℕ → Bytes → Bytes
encode_record op payload =
    wal_magic ++ op ∷ be32 (length payload % 2 ^ 32) ++ (payload ++ be32 (crc32 (op ∷ payload)))

module _ (c : Codec) where
  -- The payload of an entry: the task, coded, or the bytes of the id. The gob encoder panics on a
  -- nil task.
  unfoldable pub entry_payload : LogEntry → Option Bytes
  entry_payload e =
      if e.op == op_enqueue
      then elim e.task [ none ↦ none | some t ↦ c.encode_task t ]
      else some e.task_id

  -- The bytes that the loop of `Rewrite` writes for its entries.
  unfoldable pub encode_entries : List LogEntry → Option Bytes
  unfolding entry_payload
  encode_entries [] = some []
  encode_entries (e ∷ es) = elim (entry_payload e) [
    | none ↦ none
    | some payload ↦ Option.map (λ rest. encode_record e.op payload ++ rest) (encode_entries es)
  ]

-- What one call of `readRecord` says, with the bytes that are left to read.
pub data ReadResult : Type 0 where
  entry : LogEntry → Bytes → ReadResult
  eof corrupt : ReadResult

-- io.ReadFull into a buffer of `n` bytes; `none` for a short read.
unfoldable pub read_full : ℕ → Bytes → Option (Bytes × Bytes)
read_full n r = if ltb (length r) n then none else some (take n r, drop n r)

module _ (c : Codec) where
  -- The end of `readRecord`: the entry of a record whose checksum holds.
  unfoldable pub read_entry : ℕ → Bytes → Bytes → ReadResult
  read_entry op payload left =
      if op == op_enqueue
      then elim (c.decode_task payload) [
        | none ↦ corrupt
        | some t ↦ entry (record { op = op; task_id = t.id; task = some t }) left
      ]
      else entry (record { op = op; task_id = payload; task = none }) left

  unfoldable pub read_body : ℕ → ℕ → Bytes → ReadResult
  read_body op plen r = elim (read_full (plen + 4) r) [
    | none ↦ corrupt
    | some (rest, left) ↦
        if crc32 (op ∷ take plen rest) == from_be32 (drop plen rest)
        then read_entry op (take plen rest) left
        else corrupt
  ]

  -- `readRecord`
  unfoldable pub read_record : Bytes → ReadResult
  read_record [] = eof
  read_record r = elim (read_full 9 r) [
    | none ↦ corrupt
    | some (header, body) ↦
        let op = get_or header 4 0 in
        let plen = from_be32 (drop 5 header) in
        ite (bytes_discrete (take 4 header) wal_magic)
          (if ltb max_payload plen then corrupt else read_body op plen body) corrupt
  ]

  -- The loop of `Replay`: the entries read, and the offset behind the last valid one. Each round
  -- reads at least 13 bytes. None is a loop that has not ended in its rounds.
  unfoldable pub replay_loop : ℕ → Bytes → ℕ → Option (List LogEntry × ℕ)
  replay_loop zero r offset = none
  replay_loop (suc f) r offset = elim (read_record r) [
    | eof ↦ some ([], offset)
    | corrupt ↦ some ([], offset)
    | entry e left ↦
        Option.map (λ (p : List LogEntry × ℕ). (e ∷ p.0, p.1))
          (replay_loop f left (offset + (length r - length left)))
  ]

  -- `Replay`: the entries, and the file cut behind the last valid one.
  unfoldable pub replay : Bytes → List LogEntry × Bytes
  replay file = elim (replay_loop (suc (length file)) file 0) [
    | none ↦ ([], file)
    | some (es, end) ↦ (es, take end file)
  ]
