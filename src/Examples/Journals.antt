-- ===== src/Examples/Journals.antt =====
-- The theorems on the loop of the replay and on group commit, at a small log.
use distqueue.Journal.Group.Durable.{wait_turn-durable}
use distqueue.Base.{ℕ, List, some, take, ◌≤◌, ◌≡◌, refl, true, [], ◌∷◌, codes, arith, length}
use distqueue.Wal.{LogEntry, replay, replay_loop, op_ack, encode_record}
use distqueue.Wal.Fuel.{replay_loop-ends}
use distqueue.Journal.{open_journal, append_no_sync, written}
use distqueue.Journal.Group.{
  Group, Cover, open_group, append, lead, read_cover, end_sync, wait_turn, Run, opened, next,
  appends, leads_sync, reads, ends_sync,
}
use distqueue.Examples.{plain}

replay_loop-ends_example :
    (es : List LogEntry) × (end : ℕ) × (replay_loop plain 4 (7 ∷ 8 ∷ []) 0 ≡ some (es, end))
    × (replay plain (7 ∷ 8 ∷ []) ≡ (es, take end (7 ∷ 8 ∷ [])))
replay_loop-ends_example = replay_loop-ends plain 4 (7 ∷ 8 ∷ []) (omega arith)

abbrev appended : Group
appended = append (open_group []) op_ack (codes "t") written

abbrev covering : Group
covering = read_cover (lead appended)

-- Another record comes while the sync runs.
abbrev busier : Group
busier = append covering op_ack (codes "u") written

abbrev span : Cover
span = record { covered = 1; bytes = length (encode_record op_ack (codes "t")) }

abbrev done : Group
done = end_sync busier span true

synced-Run : Run plain [] done
unfolding open_group append append_no_sync lead read_cover open_journal
synced-Run =
    next
      (next
        (next
          (next (next opened (appends (open_group []) op_ack (codes "t") written))
            (leads_sync appended refl))
          (reads (lead appended) refl refl))
        (appends covering op_ack (codes "u") written))
      (ends_sync busier span true refl)

wait_turn-durable_example :
    (done.ends 1 ≤ done.wal.durable) × (done.wal.durable ≤ length done.wal.disk)
unfolding open_group append append_no_sync lead read_cover end_sync open_journal wait_turn
wait_turn-durable_example = wait_turn-durable plain [] done 1 synced-Run refl
