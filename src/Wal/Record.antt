-- ===== src/Wal/Record.antt =====
-- One record: what `readRecord` makes of the bytes that `encodeRecord` writes, whole or torn.
use distqueue.Base.{
  ℕ, suc, ◌+◌, ◌-◌, ◌≤◌, ◌<◌, ◌^◌, ◌%◌, ◌≡◌, refl, none, some, [], ◌∷◌, ◌++◌, arith, ltb,
  if◌then◌else◌, Bytes, length, take, drop, length-append, ◌∙◌, subst, dec_lt, length-take_of_le,
  append_assoc,
}
use distqueue.Wal.{
  Codec, max_payload, wal_magic, be32, from_be32, encode_record, read_full, read_entry, read_body,
  read_record, corrupt,
}
use distqueue.Wal.Crc.{crc32}

pub from_be32-be32 : (v : ℕ) → v < 2 ^ 32 → from_be32 (be32 v) ≡ v
unfolding from_be32 be32
from_be32-be32 v h = omega arith

crc32-lt : (bs : Bytes) → crc32 bs < 2 ^ 32
unfolding crc32
crc32-lt bs = omega arith

pub take-append : (xs ys : Bytes) → take (length xs) (xs ++ ys) ≡ xs
take-append [] ys = refl
take-append (x ∷ xs) ys = rw (take-append xs ys)

take-append_right : (xs ys : Bytes) (n : ℕ) → take (length xs + n) (xs ++ ys) ≡ xs ++ take n ys
take-append_right [] ys n = let e : 0 + n ≡ n = omega arith in rw e
take-append_right (x ∷ xs) ys n =
    let e : suc (length xs) + n ≡ suc (length xs + n) = omega arith in
    rw (e, take-append_right xs ys n)

pub drop-append : (xs ys : Bytes) → drop (length xs) (xs ++ ys) ≡ ys
drop-append [] ys = refl
drop-append (x ∷ xs) ys = drop-append xs ys

pub read_full-append :
    (n : ℕ) (xs ys : Bytes) → length xs ≡ n → read_full n (xs ++ ys) ≡ some (xs, ys)
unfolding read_full
read_full-append n xs ys e =
    rw (← e) (ground (arith, take-append xs ys, drop-append xs ys, length-append xs ys))

pub read_full-short : (n : ℕ) (r : Bytes) → length r < n → read_full n r ≡ none
unfolding read_full
read_full-short n r h = ground arith

pub length-be32 : (v : ℕ) → length (be32 v) ≡ 4
unfolding be32
length-be32 v = refl

pub length-encode_record :
    (op : ℕ) (payload : Bytes) → length (encode_record op payload) ≡ length payload + 13
unfolding encode_record
length-encode_record op payload = omega (
  arith,
  length-append (wal_magic ++ op ∷ be32 (length payload % 2 ^ 32))
      (payload ++ be32 (crc32 (op ∷ payload))),
  length-append payload (be32 (crc32 (op ∷ payload))),
  length-be32 (crc32 (op ∷ payload)),
  length-be32 (length payload % 2 ^ 32),
)

module _ (c : Codec) where
  -- A header with the magic bytes is followed by its body.
  read_record-header :
      (op plen : ℕ) (body : Bytes)
      → plen < 2 ^ 32
      → read_record c (wal_magic ++ op ∷ be32 plen ++ body)
        ≡ (if ltb max_payload plen then corrupt else read_body c op plen body)
  unfolding read_record
  read_record-header op plen body h =
      rw
        (
          read_record,
          read_full-append 9 (wal_magic ++ op ∷ be32 plen) body (omega (arith, length-be32 plen)),
        )
        (rw (from_be32-be32 plen h) (ground arith))

  -- The rest of a record, whole.
  read_body-payload :
      (op : ℕ) (payload left : Bytes)
      → read_body c op (length payload) (payload ++ be32 (crc32 (op ∷ payload)) ++ left)
        ≡ read_entry c op payload left
  unfolding read_body
  read_body-payload op payload left =
      let sum = be32 (crc32 (op ∷ payload)) in
      let size : length (payload ++ sum) ≡ length payload + 4 =
        omega (arith, length-append payload sum, length-be32 (crc32 (op ∷ payload))) in
      rw
        (
          read_body,
          read_full-append (length payload + 4) (payload ++ sum) left size,
          take-append payload sum,
          drop-append payload sum,
          from_be32-be32 (crc32 (op ∷ payload)) (crc32-lt (op ∷ payload)),
        )
        (ground arith)

  -- A record with a payload under the cap passes the checks of magic, length and checksum, and is
  -- read as the entry of its operation and payload, with the bytes behind it left to read.
  pub read_record-encode_record :
      (op : ℕ) (payload left : Bytes)
      → length payload ≤ max_payload
      → read_record c (encode_record op payload ++ left) ≡ read_entry c op payload left
  unfolding encode_record
  read_record-encode_record op payload left h =
      let small : length payload % 2 ^ 32 ≡ length payload = omega arith in
      let body = payload ++ be32 (crc32 (op ∷ payload)) in
      rw (small, append_assoc (be32 (length payload)) body left)
        (read_record-header op (length payload) (body ++ left) (omega arith)
          ∙ ground (arith, read_body-payload op payload left))

  -- A record with a payload over the cap of the reader, but under 2^32 bytes, which the writer does
  -- write, is read as a corrupt record.
  pub read_record-over_cap :
      (op : ℕ) (payload left : Bytes)
      → max_payload < length payload
      → length payload < 2 ^ 32
      → read_record c (encode_record op payload ++ left) ≡ corrupt
  unfolding encode_record
  read_record-over_cap op payload left h k =
      let small : length payload % 2 ^ 32 ≡ length payload = omega arith in
      let body = payload ++ be32 (crc32 (op ∷ payload)) in
      rw (small, append_assoc (be32 (length payload)) body left)
        (read_record-header op (length payload) (body ++ left) k ∙ ground arith)

  -- A header that is cut short.
  read_record-short : (r : Bytes) → 0 < length r → length r < 9 → read_record c r ≡ corrupt
  unfolding read_record
  read_record-short [] p h = absurd (omega arith)
  read_record-short (b ∷ r) p h = rw (read_record, read_full-short 9 (b ∷ r) h)

  -- A record that is cut behind its header.
  read_record-cut :
      (op : ℕ) (payload body : Bytes)
      → length payload ≤ max_payload
      → length body < length payload + 4
      → read_record c (wal_magic ++ op ∷ be32 (length payload % 2 ^ 32) ++ body) ≡ corrupt
  unfolding read_body
  read_record-cut op payload body h k =
      let small : length payload % 2 ^ 32 ≡ length payload = omega arith in
      rw small (
        read_record-header op (length payload) body (omega arith)
        ∙ rw (read_body, read_full-short (length payload + 4) body k) (ground arith))

  -- The first bytes of a record with a payload under the cap, at least one and not all, are read as
  -- a corrupt record.
  pub read_record-torn :
      (op : ℕ) (payload : Bytes) (k : ℕ)
      → length payload ≤ max_payload
      → 0 < k
      → k < length (encode_record op payload)
      → read_record c (take k (encode_record op payload)) ≡ corrupt
  unfolding encode_record
  read_record-torn op payload k h p q = elim (dec_lt k 9) [
    | yes early ↦ read_record-short (take k whole) (omega (arith, cut)) (omega (arith, cut))
    | no late ↦
        subst (λ n. read_record c (take n whole) ≡ corrupt) (e late)
          (rw (take-append_right header body (k - 9)) (
            read_record-cut op payload (take (k - 9) body) h
              (omega (arith, size, length-take_of_le (k - 9) body (omega (arith, size))))))
  ]
    where
      header : Bytes
      header = wal_magic ++ op ∷ be32 (length payload % 2 ^ 32)

      body : Bytes
      body = payload ++ be32 (crc32 (op ∷ payload))

      whole : Bytes
      whole = header ++ body

      cut : length (take k whole) ≡ k
      cut = length-take_of_le k whole (omega arith)

      size :
          (length header ≡ 9)
          × (length whole ≡ 9 + length body)
          × (length body ≡ length payload + 4)
      size = omega (
        arith,
        length-append header body,
        length-append payload (be32 (crc32 (op ∷ payload))),
        length-be32 (length payload % 2 ^ 32),
        length-be32 (crc32 (op ∷ payload)),
      )

      e : ¬ (k < 9) → length header + (k - 9) ≡ k
      e late = omega (arith, size)
