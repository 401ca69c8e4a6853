-- ===== src/Wal/Fuel.antt =====
-- The loop of `Replay`, broker/wal.go, and how many rounds it takes: each reads part of the
-- file.
use distqueue.Base.{
  ℕ, zero, suc, ◌+◌, ◌-◌, ◌<◌, ◌≤◌, ◌≡◌, refl, sym, ap, ◌∙◌, Option, some, none, List, [], ◌∷◌,
  arith, ◌==◌, ltb, Bytes, length, take, drop, bytes_discrete, if-intro, option-intro, ite-intro,
  get_or,
}
use mathlib.Core.Option
use distqueue.Machine.Fuel.{EndAlike}
use distqueue.Wal.Crc.{crc32}
use distqueue.Wal.{
  Codec, ReadResult, entry, eof, corrupt, LogEntry, read_full, read_entry, read_body, read_record,
  replay_loop, replay, from_be32, wal_magic, max_payload, op_enqueue,
}

length-drop : (n : ℕ) (xs : Bytes) → n ≤ length xs → length (drop n xs) + n ≡ length xs
length-drop zero xs h = omega arith
length-drop (suc n) [] h = absurd (omega arith)
length-drop (suc n) (x ∷ xs) h = omega (arith, length-drop n xs)

read_full-length :
    (n : ℕ) (r a left : Bytes) → read_full n r ≡ some (a, left) → length left + n ≡ length r
unfolding read_full
read_full-length n r a left =
    if-intro (λ (o : Option (Bytes × Bytes)). o ≡ some (a, left) → length left + n ≡ length r)
      (ltb (length r) n) (λ _ h. absurd (cc))
      (λ enough h.
        let same : drop n r ≡ left = cc in
        ap (λ xs. length xs + n) (sym same) ∙ length-drop n r (ground arith))

module _ (c : Codec) where
  -- Whatever a read leaves has at most `n` bytes.
  abbrev Leaves : ℕ → ReadResult → Type 0
  Leaves n (entry e left) = length left ≤ n
  Leaves n eof = Unit
  Leaves n corrupt = Unit

  read_entry-Leaves :
      (op : ℕ) (payload left : Bytes) → Leaves (length left) (read_entry c op payload left)
  unfolding read_entry
  read_entry-Leaves op payload left =
      if-intro (Leaves (length left)) (op == op_enqueue)
        (λ _.
          option-intro (Leaves (length left)) (c.decode_task payload) (λ _. tt)
            (λ t _. omega arith))
        (λ _. omega arith)

  Leaves-trans : (n k : ℕ) (r : ReadResult) → n ≤ k → Leaves n r → Leaves k r
  Leaves-trans n k (entry e left) h l = omega arith
  Leaves-trans n k eof h l = tt
  Leaves-trans n k corrupt h l = tt

  read_body-Leaves : (op plen : ℕ) (r : Bytes) → Leaves (length r) (read_body c op plen r)
  unfolding read_body
  read_body-Leaves op plen r =
      option-intro (Leaves (length r)) (read_full (plen + 4) r) (λ _. tt)
        (λ (rest, left) h.
          if-intro (Leaves (length r)) (crc32 (op ∷ take plen rest) == from_be32 (drop plen rest))
            (λ _.
              Leaves-trans (length left) (length r) (read_entry c op (take plen rest) left)
                (omega (arith, read_full-length (plen + 4) r rest left h))
                (read_entry-Leaves op (take plen rest) left))
            (λ _. tt))

  read_record-Leaves : (b : ℕ) (r : Bytes) → Leaves (length r) (read_record c (b ∷ r))
  unfolding read_record
  read_record-Leaves b r =
      option-intro (Leaves (length r)) (read_full 9 (b ∷ r)) (λ _. tt)
        (λ (header, body) h.
          let plen = from_be32 (drop 5 header) in
          let op = get_or header 4 0 in
          ite-intro (Leaves (length r)) (bytes_discrete (take 4 header) wal_magic)
            (λ _.
              if-intro (Leaves (length r)) (ltb max_payload plen) (λ _. tt)
                (λ _.
                  Leaves-trans (length body) (length r) (read_body c op plen body)
                    (omega (arith, read_full-length 9 (b ∷ r) header body h))
                    (read_body-Leaves op plen body)))
            (λ _. tt))

  -- The rest of a round, where two loops end alike on all that a read can leave.
  round-EndAlike :
      (f g n offset : ℕ) (r : Bytes) (x : ReadResult)
      → Leaves n x
      → ((left : Bytes) (o : ℕ)
          → length left ≤ n
          → EndAlike (replay_loop c f left o) (replay_loop c g left o))
      → EndAlike {A = List LogEntry × ℕ}
          (elim x [
            | eof ↦ some ([], offset)
            | corrupt ↦ some ([], offset)
            | entry e left ↦
                Option.map
                  (λ (p : List LogEntry × ℕ). (e ∷ p.0, p.1))
                  (replay_loop c f left (offset + (length r - length left)))
          ])
          (elim x [
            | eof ↦ some ([], offset)
            | corrupt ↦ some ([], offset)
            | entry e left ↦
                Option.map
                  (λ (p : List LogEntry × ℕ). (e ∷ p.0, p.1))
                  (replay_loop c g left (offset + (length r - length left)))
          ])
  round-EndAlike f g n offset r eof l same = (_, refl, refl)
  round-EndAlike f g n offset r corrupt l same = (_, refl, refl)
  round-EndAlike f g n offset r (entry e left) l same =
      let add : List LogEntry × ℕ → List LogEntry × ℕ = λ p. (e ∷ p.0, p.1) in
      let (p, here, there) = same left (offset + (length r - length left)) l in
      let both : EndAlike {A = List LogEntry × ℕ}
          (Option.map add (replay_loop c f left (offset + (length r - length left))))
          (Option.map add (replay_loop c g left (offset + (length r - length left)))) =
        (add p, ap (Option.map add) here, ap (Option.map add) there) in
      both

  replay_loop-EndAlike :
      (f g : ℕ) (r : Bytes) (offset : ℕ)
      → length r < f
      → length r < g
      → EndAlike (replay_loop c f r offset) (replay_loop c g r offset)
  unfolding replay_loop read_record
  replay_loop-EndAlike zero g r offset p q = absurd (omega arith)
  replay_loop-EndAlike (suc f) zero r offset p q = absurd (omega arith)
  replay_loop-EndAlike (suc f) (suc g) [] offset p q = (_, refl, refl)
  replay_loop-EndAlike (suc f) (suc g) (b ∷ r) offset p q =
      round-EndAlike f g (length r) offset (b ∷ r) (read_record c (b ∷ r)) (read_record-Leaves b r)
        (λ left o h. replay_loop-EndAlike f g left o (omega arith) (omega arith))

  abbrev cut_behind : Bytes → List LogEntry × ℕ → List LogEntry × Bytes
  cut_behind file p = (p.0, take p.1 file)

  -- With more rounds than the file has bytes, the loop of `Replay` ends on any file, and `Replay`
  -- returns the entries that it ends with and the file cut at the offset that it ends with,
  -- whatever that number of rounds.
  pub replay_loop-ends :
      (f : ℕ) (file : Bytes)
      → length file < f
      → (es : List LogEntry) × (end : ℕ) × (replay_loop c f file 0 ≡ some (es, end))
        × (replay c file ≡ (es, take end file))
  unfolding replay
  replay_loop-ends f file p =
      let (r, here, there) = replay_loop-EndAlike f (suc (length file)) file 0 p (omega arith) in
      (r.0, r.1, here, cut r (replay_loop c (suc (length file)) file 0) there)
    where
      cut :
          (r : List LogEntry × ℕ) (o : Option (List LogEntry × ℕ))
          → o ≡ some r
          → Path
              (List LogEntry × Bytes)
              (elim o [ none ↦ ([], file) | some (es, end) ↦ (es, take end file) ])
              (r.0, take r.1 file)
      cut r none e = absurd (cc (e))
      cut r (some p) e = let same : p ≡ r = cc (e) in ap (cut_behind file) same
