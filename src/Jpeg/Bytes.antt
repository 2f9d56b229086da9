-- ===== src/Jpeg/Bytes.antt =====
-- The reads of JpegSegmentScanner.cpp. A span is the list of its bytes, each below 256; its length
-- is a size_t, so no offset within it reaches 2 ^ 64 and none of the sums below wraps.
pub mod Reads
pub mod Numbers
use jpg_spinner.Prelude.{
  ℕ, zero, suc, ◌+◌, ◌-◌, ◌*◌, ◌<◌, Bool, true, false, ◌&&◌, ◌||◌, List, [], ◌∷◌, Option, none,
  some, length, get_elem?, ltb, leb, ◌==◌, if◌then◌else◌, All,
}
use jpg_spinner.Jpeg.Outcome.{Outcome, success, out_of_bounds, ◌>>=◌}

abbrev pub Bytes : Type 0
Bytes = List ℕ

abbrev or_out_of_bounds : Option ℕ → Outcome ℕ
or_out_of_bounds none = out_of_bounds
or_out_of_bounds (some b) = success b

-- `byteValue(span[offset])`, with no check of the source's own.
unfoldable pub byte_at : Bytes → ℕ → Outcome ℕ
byte_at bytes offset = or_out_of_bounds (get_elem? bytes offset)

-- The big-endian number of `n` bytes from `offset` on, behind `acc`.
unfoldable pub big_endian : Bytes → ℕ → ℕ → ℕ → Outcome ℕ
big_endian bytes zero offset acc = success acc
big_endian bytes (suc n) offset acc =
    byte_at bytes offset >>= λ b. big_endian bytes n (offset + 1) (acc * 256 + b)

abbrev lift_some : Outcome ℕ → Outcome (Option ℕ)
lift_some m = m >>= λ v. success (some v)

-- tryReadBigEndianUnsigned16, 32 and 64, by the number of bytes.
unfoldable pub try_read_big_endian : ℕ → Bytes → ℕ → Outcome (Option ℕ)
try_read_big_endian n bytes offset =
    if ltb (length bytes) offset || ltb (length bytes - offset) n
    then success none
    else lift_some (big_endian bytes n offset 0)

unfoldable pub try_read_big_endian_unsigned_16 : Bytes → ℕ → Outcome (Option ℕ)
unfolding try_read_big_endian
try_read_big_endian_unsigned_16 = try_read_big_endian 2

pub try_read_big_endian_unsigned_32 : Bytes → ℕ → Outcome (Option ℕ)
unfolding try_read_big_endian
try_read_big_endian_unsigned_32 = try_read_big_endian 4

pub try_read_big_endian_unsigned_64 : Bytes → ℕ → Outcome (Option ℕ)
unfolding try_read_big_endian
try_read_big_endian_unsigned_64 = try_read_big_endian 8

-- `std::equal` of an identifier with the bytes from `offset` on: it stops at the first difference.
unfoldable pub equal_at : Bytes → ℕ → Bytes → Outcome Bool
equal_at bytes offset [] = success true
equal_at bytes offset (e ∷ es) =
    byte_at bytes offset >>= λ b. (if e == b then equal_at bytes (offset + 1) es else success false)

pub encoded_bytes_equal : Bytes → ℕ → Bytes → Outcome Bool
encoded_bytes_equal bytes offset expected =
    if ltb (length bytes) offset || ltb (length bytes - offset) (length expected)
    then success false
    else equal_at bytes offset expected

-- A copy of `n` bytes from `offset` on.
pub copy_n : Bytes → ℕ → ℕ → Outcome Bytes
copy_n bytes offset zero = success []
copy_n bytes offset (suc n) =
    byte_at bytes offset >>= λ b. copy_n bytes (offset + 1) n >>= λ rest. success (b ∷ rest)

-- `while (offset < size && bytes[offset] == 0xFF) ++offset`, for as many rounds as bytes are left.
unfoldable pub skip_rounds : ℕ → Bytes → ℕ → Outcome ℕ
skip_rounds zero bytes offset = success offset
skip_rounds (suc n) bytes offset =
    let rest = skip_rounds n bytes (offset + 1) in
    if leb (length bytes) offset
    then success offset
    else byte_at bytes offset >>= λ b. if b == 0xFF then rest else success offset

unfoldable pub skip_marker_prefixes : Bytes → ℕ → Outcome ℕ
unfolding skip_rounds
skip_marker_prefixes bytes offset = skip_rounds (length bytes - offset) bytes offset
