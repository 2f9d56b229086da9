-- ===== src/Jpeg/Bytes/Reads.antt =====
-- The reads stay within the span wherever their guards, or the caller, say so.
use jpg_spinner.Prelude.{
  ℕ, zero, suc, ◌+◌, ◌-◌, ◌*◌, ◌≤◌, ◌<◌, ◌≡◌, refl, ap, ◌||◌, [], ◌∷◌, some, arith, length,
  get_elem?, ltb, leb, ◌==◌,
}
use jpg_spinner.Jpeg.Bytes.{
  Bytes, byte_at, big_endian, try_read_big_endian, try_read_big_endian_unsigned_16,
  try_read_big_endian_unsigned_32, try_read_big_endian_unsigned_64, equal_at, encoded_bytes_equal,
  copy_n, skip_rounds, skip_marker_prefixes,
}
use jpg_spinner.Jpeg.Outcome.{
  Ensures, Yields-Ensures, Yields, yields, Yields-bind, Yields-if, Yields-weaken,
}

-- A read within the span yields the byte there.
pub byte_at-Yields :
    (bytes : Bytes) (i : ℕ)
    → i < length bytes
    → Yields (λ b. get_elem? bytes i ≡ some b) (byte_at bytes i)
unfolding byte_at
byte_at-Yields [] i h = elim h [ ]
byte_at-Yields (x ∷ xs) zero h = yields refl
byte_at-Yields (x ∷ xs) (suc i) h = byte_at-Yields xs i (omega arith)

pub big_endian-Yields :
    (n : ℕ) (bytes : Bytes) (offset acc : ℕ)
    → offset + n ≤ length bytes
    → Yields (λ _. Unit {0}) (big_endian bytes n offset acc)
unfolding big_endian
big_endian-Yields zero bytes offset acc h = yields tt
big_endian-Yields (suc n) bytes offset acc h =
    Yields-bind (byte_at-Yields bytes offset (omega arith))
      λ b _. big_endian-Yields n bytes (offset + 1) (acc * 256 + b) (omega arith)

module _ (n : ℕ) (bytes : Bytes) where
  -- The guarded reads never leave the span.
  try_read-Yields : (offset : ℕ) → Yields (λ _. Unit {0}) (try_read_big_endian n bytes offset)
  unfolding try_read_big_endian
  try_read-Yields offset =
      Yields-if (ltb (length bytes) offset || ltb (length bytes - offset) n) (λ _. yields tt)
        λ h. Yields-bind (big_endian-Yields n bytes offset 0 (ground arith)) λ v _. yields tt

pub try_read_16-Yields :
    (bytes : Bytes) (offset : ℕ)
    → Yields (λ _. Unit {0}) (try_read_big_endian_unsigned_16 bytes offset)
unfolding try_read_big_endian_unsigned_16
try_read_16-Yields bytes offset = try_read-Yields 2 bytes offset

pub try_read_32-Yields :
    (bytes : Bytes) (offset : ℕ)
    → Yields (λ _. Unit {0}) (try_read_big_endian_unsigned_32 bytes offset)
unfolding try_read_big_endian_unsigned_32
try_read_32-Yields bytes offset = try_read-Yields 4 bytes offset

pub try_read_64-Yields :
    (bytes : Bytes) (offset : ℕ)
    → Yields (λ _. Unit {0}) (try_read_big_endian_unsigned_64 bytes offset)
unfolding try_read_big_endian_unsigned_64
try_read_64-Yields bytes offset = try_read-Yields 8 bytes offset

pub equal_at-Yields :
    (bytes : Bytes) (offset : ℕ) (expected : Bytes)
    → offset + length expected ≤ length bytes
    → Yields (λ _. Unit {0}) (equal_at bytes offset expected)
unfolding equal_at
equal_at-Yields bytes offset [] h = yields tt
equal_at-Yields bytes offset (e ∷ es) h =
    Yields-bind (byte_at-Yields bytes offset (omega arith)) λ b _.
      Yields-if (e == b) (λ _. equal_at-Yields bytes (offset + 1) es (omega arith)) (λ _. yields tt)

pub encoded_bytes_equal-Yields :
    (bytes : Bytes) (offset : ℕ) (expected : Bytes)
    → Yields (λ _. Unit {0}) (encoded_bytes_equal bytes offset expected)
unfolding encoded_bytes_equal
encoded_bytes_equal-Yields bytes offset expected =
    Yields-if (ltb (length bytes) offset || ltb (length bytes - offset) (length expected))
      (λ _. yields tt) λ h. equal_at-Yields bytes offset expected (ground arith)

pub copy_n-Yields :
    (bytes : Bytes) (offset n : ℕ)
    → offset + n ≤ length bytes
    → Yields (λ copied. length copied ≡ n) (copy_n bytes offset n)
unfolding copy_n
copy_n-Yields bytes offset zero h = yields refl
copy_n-Yields bytes offset (suc n) h =
    Yields-bind (byte_at-Yields bytes offset (omega arith)) λ b _.
      Yields-bind (copy_n-Yields bytes (offset + 1) n (omega arith)) λ rest e. yields (ap suc e)

skip_rounds-Yields :
    (n : ℕ) (bytes : Bytes) (offset : ℕ)
    → offset + n ≡ length bytes
    → Yields (λ r. (offset ≤ r) × (r ≤ length bytes)) (skip_rounds n bytes offset)
unfolding skip_rounds
skip_rounds-Yields zero bytes offset h = yields (omega arith)
skip_rounds-Yields (suc n) bytes offset h =
    Yields-if (leb (length bytes) offset) (λ _. yields (omega arith))
      λ inside. Yields-bind (byte_at-Yields bytes offset (omega arith)) λ b _.
        Yields-if (b == 0xFF)
          (λ _.
            Yields-weaken (λ r p. omega arith)
              (skip_rounds-Yields n bytes (offset + 1) (omega arith)))
          (λ _. yields (omega arith))

-- The skip ends at or behind its start, and no further than the end of the span.
pub skip_marker_prefixes-Yields :
    (bytes : Bytes) (offset : ℕ)
    → offset ≤ length bytes
    → Yields (λ r. (offset ≤ r) × (r ≤ length bytes)) (skip_marker_prefixes bytes offset)
unfolding skip_marker_prefixes
skip_marker_prefixes-Yields bytes offset h =
    skip_rounds-Yields (length bytes - offset) bytes offset (omega arith)

-- The same reads, where the caller may fail.
pub byte_at-Ensures :
    (bytes : Bytes) (i : ℕ)
    → i < length bytes
    → Ensures (λ b. get_elem? bytes i ≡ some b) (byte_at bytes i)
byte_at-Ensures bytes i h = Yields-Ensures (byte_at-Yields bytes i h)

pub try_read_16-Ensures :
    (bytes : Bytes) (offset : ℕ)
    → Ensures (λ _. Unit {0}) (try_read_big_endian_unsigned_16 bytes offset)
try_read_16-Ensures bytes offset = Yields-Ensures (try_read_16-Yields bytes offset)

pub try_read_32-Ensures :
    (bytes : Bytes) (offset : ℕ)
    → Ensures (λ _. Unit {0}) (try_read_big_endian_unsigned_32 bytes offset)
try_read_32-Ensures bytes offset = Yields-Ensures (try_read_32-Yields bytes offset)

pub copy_n-Ensures :
    (bytes : Bytes) (offset n : ℕ)
    → offset + n ≤ length bytes
    → Ensures (λ copied. length copied ≡ n) (copy_n bytes offset n)
copy_n-Ensures bytes offset n h = Yields-Ensures (copy_n-Yields bytes offset n h)

pub skip_marker_prefixes-Ensures :
    (bytes : Bytes) (offset : ℕ)
    → offset ≤ length bytes
    → Ensures (λ r. (offset ≤ r) × (r ≤ length bytes)) (skip_marker_prefixes bytes offset)
skip_marker_prefixes-Ensures bytes offset h =
    Yields-Ensures (skip_marker_prefixes-Yields bytes offset h)
