-- ===== src/Examples/Logs.antt =====
-- The log's theorems on records of one ack.
use distqueue.Base.{
  ℕ, zero, suc, ◌+◌, ◌≡◌, refl, none, [], ◌∷◌, ◌++◌, arith, Bytes, length, take, codes, inl, All,
}
use distqueue.Wal.{
  LogEntry, op_ack, max_payload, be32, encode_record, entry_payload, encode_entries, read_record,
  replay, corrupt,
}
use distqueue.Wal.Record.{read_record-over_cap}
use distqueue.Wal.Replay.{IsCanonical, IsWritable, replay-entries, replay-torn}
use distqueue.Examples.{plain}

abbrev an_ack : LogEntry
an_ack = record { op = op_ack; task_id = codes "a"; task = none }

an_ack-IsWritable : All (IsWritable plain) (an_ack ∷ [])
unfolding entry_payload IsCanonical
an_ack-IsWritable =
    (record { payload = codes "a"; coded = refl; capped = omega arith; canonical = refl }, tt)

zeros : ℕ → Bytes
zeros zero = []
zeros (suc n) = 0 ∷ zeros n

length-zeros : (n : ℕ) → length (zeros n) ≡ n
unfolding zeros
length-zeros zero = refl
length-zeros (suc n) = omega (arith, length-zeros n)

read_record-over_cap_example :
    read_record plain (encode_record op_ack (zeros (max_payload + 1)) ++ []) ≡ corrupt
read_record-over_cap_example =
    read_record-over_cap plain op_ack (zeros (max_payload + 1)) []
      (omega (arith, length-zeros (max_payload + 1)))
      (omega (arith, length-zeros (max_payload + 1)))

replay-entries_example :
    replay plain (encode_record op_ack (codes "a") ++ [])
    ≡ (an_ack ∷ [], encode_record op_ack (codes "a"))
unfolding encode_entries entry_payload read_record encode_record be32
replay-entries_example =
    replay-entries plain (an_ack ∷ []) (encode_record op_ack (codes "a")) [] an_ack-IsWritable refl
      (inl refl)

replay-torn_example :
    replay plain (encode_record op_ack (codes "a") ++ take 5 (encode_record op_ack (codes "a")))
    ≡ (an_ack ∷ [], encode_record op_ack (codes "a"))
unfolding encode_entries entry_payload encode_record be32 IsCanonical
replay-torn_example =
    replay-torn plain (an_ack ∷ []) (encode_record op_ack (codes "a")) an_ack 5
      (record { payload = codes "a"; coded = refl; capped = omega arith; canonical = refl })
      an_ack-IsWritable refl (omega arith)
