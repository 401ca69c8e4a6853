-- ===== src/Wal/Replay.antt =====
-- `Replay` of broker/wal.go, on records that were written.
use distqueue.Base.{
  ℕ, zero, suc, ◌+◌, ◌-◌, ◌≤◌, ◌<◌, ◌≡◌, ◌⊎◌, inl, inr, refl, sym, ap, subst, ◌∙◌, none, some, List,
  [], ◌∷◌, ◌++◌, arith, ◌==◌, if◌then◌else◌, Bytes, length, take, length-append, append_assoc, All,
  Option-cases,
}
use mathlib.Core.Option
use distqueue.Task.{Task}
use distqueue.Wal.{
  Codec, LogEntry, max_payload, encode_record, entry_payload, encode_entries, read_entry,
  read_record, entry, eof, corrupt, op_enqueue, replay_loop, replay,
}
use distqueue.Wal.Record.{
  length-encode_record, read_record-encode_record, read_record-torn, take-append,
}

-- The fields of an entry agree: a task and its id, or an id alone.
unfoldable pub IsCanonical : LogEntry → Type 0
IsCanonical e =
    if e.op == op_enqueue
    then ((t : Task) × (e.task ≡ some t) × (e.task_id ≡ t.id))
    else e.task ≡ none

module _ (c : Codec) where
  -- An entry that can be written, with a payload under the cap.
  pub record IsWritable (e : LogEntry) : Type 0 where
    pub payload : Bytes
    pub coded : entry_payload c e ≡ some payload
    pub capped : length payload ≤ max_payload
    pub canonical : IsCanonical e

  read_entry-entry :
      (e : LogEntry) (payload left : Bytes)
      → entry_payload c e ≡ some payload
      → IsCanonical e
      → read_entry c e.op payload left ≡ entry e left
  unfolding read_entry entry_payload IsCanonical
  read_entry-entry e payload left h k = elim (Option-cases e.task) [
    | inl bare ↦ ground arith
    | inr (t, full) ↦ ground (arith, c.decode-encode t payload)
  ]

  -- Nothing more can be read: the file ends here, or goes on with a torn or corrupt record.
  abbrev pub Stops : Bytes → Type 0
  Stops tail = (read_record c tail ≡ eof) ⊎ (read_record c tail ≡ corrupt)

  pub encode_entries-cons :
      (e : LogEntry) (es : List LogEntry) (payload b : Bytes)
      → entry_payload c e ≡ some payload
      → encode_entries c (e ∷ es) ≡ some b
      → (b' : Bytes) × (encode_entries c es ≡ some b') × (b ≡ encode_record e.op payload ++ b')
  unfolding encode_entries
  encode_entries-cons e es payload b p h = elim (Option-cases (encode_entries c es)) [
    | inl bad ↦ ground arith
    | inr (b', good) ↦ (b', good, ground arith)
  ]

  -- One round of the loop over a record that can be written.
  replay_loop-record :
      (f : ℕ) (e : LogEntry) (b tail : Bytes) (offset : ℕ) (w : IsWritable e)
      → let rec = encode_record e.op w.payload in
        replay_loop c (suc f) ((rec ++ b) ++ tail) offset
        ≡ Option.map
            (λ (p : List LogEntry × ℕ). (e ∷ p.0, p.1))
            (replay_loop c f (b ++ tail) (offset + length rec))
  unfolding replay_loop
  replay_loop-record f e b tail offset w =
      let rec = encode_record e.op w.payload in
      let size : length ((rec ++ b) ++ tail) - length (b ++ tail) ≡ length rec =
        omega (arith, length-append (rec ++ b) tail, length-append rec b, length-append b tail) in
      rw (
        replay_loop,
        append_assoc rec b tail,
        read_record-encode_record c e.op w.payload (b ++ tail) w.capped,
        read_entry-entry e w.payload (b ++ tail) w.coded w.canonical,
        size,
      )

  replay_loop-entries :
      (f : ℕ) (es : List LogEntry) (b tail : Bytes) (offset : ℕ)
      → All IsWritable es
      → encode_entries c es ≡ some b
      → Stops tail
      → length b < f
      → replay_loop c f (b ++ tail) offset ≡ some (es, offset + length b)
  unfolding replay_loop encode_entries
  replay_loop-entries zero es b tail offset w h s lt = absurd (omega arith)
  replay_loop-entries (suc f) [] b tail offset w h s lt =
      let nil : b ≡ [] = ground arith in
      rw nil (elim s [
        | inl end ↦ rw (replay_loop, end) (ground arith)
        | inr torn ↦ rw (replay_loop, torn) (ground arith)
      ])
  replay_loop-entries (suc f) (e ∷ es) b tail offset w h s lt =
      let (b', coded, whole) = encode_entries-cons e es w.0.payload b w.0.coded h in
      let rec = encode_record e.op w.0.payload in
      let size : length b' < f =
        omega
          (arith, ap length whole, length-append rec b', length-encode_record e.op w.0.payload) in
      let ih = replay_loop-entries f es b' tail (offset + length rec) w.1 coded s (size) in
      subst (λ x. replay_loop c (suc f) (x ++ tail) offset ≡ some (e ∷ es, offset + length x))
        (sym whole)
        (replay_loop-record f e b' tail offset w.0 ∙ ground (arith, ih, length-append rec b'))

  -- `Replay` of the records of writable entries, followed by bytes of which no record can be read,
  -- gives those entries in order and cuts the file behind them.
  pub replay-entries :
      (es : List LogEntry) (b tail : Bytes)
      → All IsWritable es
      → encode_entries c es ≡ some b
      → Stops tail
      → replay c (b ++ tail) ≡ (es, b)
  unfolding replay
  replay-entries es b tail w h s =
      let ends =
        replay_loop-entries (suc (length (b ++ tail))) es b tail 0 w h s
          (omega (arith, length-append b tail)) in
      rw (replay, ends) (ground (arith, take-append b tail))

  -- `Replay` of the records of writable entries, followed by some first bytes of one more writable
  -- record, but not all, gives the former entries in order and cuts off the rest.
  pub replay-torn :
      (es : List LogEntry) (b : Bytes) (e : LogEntry) (k : ℕ) (w : IsWritable e)
      → All IsWritable es
      → encode_entries c es ≡ some b
      → k < length (encode_record e.op w.payload)
      → replay c (b ++ take k (encode_record e.op w.payload)) ≡ (es, b)
  unfolding read_record
  replay-torn es b e zero w ws h lt = replay-entries es b [] ws h (inl refl)
  replay-torn es b e (suc k) w ws h lt =
      replay-entries es b (take (suc k) (encode_record e.op w.payload)) ws h
        (inr (read_record-torn c e.op w.payload (suc k) w.capped (omega arith) lt))
