-- ===== src/Tuples/Copied.antt =====
-- A tuple in storage and back.
use learning_journey.Base.{
  ℕ, zero, suc, ◌+◌, ◌^◌, ◌≤◌, ◌<◌, ◌≡◌, refl, sym, ◌∙◌, ap, inl, arith, length, ok, throw,
  undefined, u32,
}
use learning_journey.Types.Family.{low_bytes, from_bytes}
use learning_journey.Types.Casts.{bytes_back}
use learning_journey.TablePage.Memory.{
  write_bytes, read_bytes, read_bytes-write_bytes, read_bytes-write_bytes_apart,
}
use learning_journey.Tuples.{Tuple, serialize_tuple, deserialize_tuple}

length-read_bytes : (m : ℕ → ℕ) (o n : ℕ) → length (read_bytes m o n) ≡ n
unfolding read_bytes
length-read_bytes m o zero = refl
length-read_bytes m o (suc n) = ap suc (length-read_bytes m (o + 1) n)

-- What the two calls of `memcpy` leave.
copy : Tuple → (ℕ → ℕ) → ℕ → ℕ → ℕ
copy t storage offset =
    write_bytes (write_bytes storage offset (low_bytes 4 t.size)) (offset + 4)
      (read_bytes t.bytes 0 t.size)

copied :
    (t : Tuple) (storage : ℕ → ℕ) (offset : ℕ)
    → t.size < 2 ^ 31
    → ((deserialize_tuple (copy t storage offset) offset).size ≡ t.size)
      × (read_bytes (deserialize_tuple (copy t storage offset) offset).bytes 0 t.size
          ≡ read_bytes t.bytes 0 t.size)
unfolding copy deserialize_tuple low_bytes
copied t storage offset small =
    let content = read_bytes t.bytes 0 t.size in
    let len = length-read_bytes t.bytes 0 t.size in
    let header = write_bytes storage offset (low_bytes 4 t.size) in
    let written = copy t storage offset in
    let size : from_bytes (read_bytes written offset 4) ≡ t.size =
      ap from_bytes (
        read_bytes-write_bytes_apart header (offset + 4) content offset 4 (inl (omega arith))
        ∙ read_bytes-write_bytes storage offset (low_bytes 4 t.size))
      ∙ bytes_back 4 t.size (omega arith) in
    let back : read_bytes written (offset + 4) t.size ≡ content =
      ap (read_bytes written (offset + 4)) (sym len)
      ∙ read_bytes-write_bytes header (offset + 4) content in
    (
      size,
      ap (λ n. read_bytes (write_bytes (λ _. 0) 0 (read_bytes written (offset + 4) n)) 0 t.size)
            size
          ∙ ap (λ bs. read_bytes (write_bytes (λ _. 0) 0 bs) 0 t.size) back
          ∙ ap (read_bytes (write_bytes (λ _. 0) 0 content) 0) (sym len)
          ∙ read_bytes-write_bytes (λ _. 0) 0 content,
    )

-- A tuple shorter than 2 ^ 31 is written to storage and read back with its size and its bytes. For
-- one from there on and shorter than 2 ^ 32 the writing is undefined: its size is negative as an
-- `int32_t`.
pub deserialize-serialize_tuple :
    (t : Tuple) (storage : ℕ → ℕ) (offset : ℕ)
    → (t.size < 2 ^ 31
        → (written : ℕ → ℕ) × (serialize_tuple t storage offset ≡ ok written)
          × ((deserialize_tuple written offset).size ≡ t.size)
          × (read_bytes (deserialize_tuple written offset).bytes 0 t.size
              ≡ read_bytes t.bytes 0 t.size))
      × (2 ^ 31 ≤ t.size → t.size < 2 ^ 32 → serialize_tuple t storage offset ≡ throw undefined)
unfolding serialize_tuple copy
deserialize-serialize_tuple t storage offset = (
  λ small.
      let kept : u32 t.size ≡ t.size = omega arith in
      (
        copy t storage offset,
        rw kept (ground arith),
        (copied t storage offset small).0,
        (copied t storage offset small).1,
      ),
  λ large word. let kept : u32 t.size ≡ t.size = omega arith in rw kept (ground arith),
)
