-- ===== src/Jpeg/Bytes/Numbers.antt =====
-- The bounded reads return the numbers that the bytes spell.
use jpg_spinner.Prelude.{
  Bool, false, ◌||◌, ℕ, zero, suc, ◌+◌, ◌-◌, ◌*◌, ◌≤◌, ◌≡◌, refl, ap, ◌∙◌, [], ◌∷◌, ◌++◌, none,
  some, arith, length, length-append, ltb, if◌then◌else◌,
}
use jpg_spinner.Jpeg.Bytes.{
  Bytes, byte_at, big_endian, try_read_big_endian, try_read_big_endian_unsigned_16,
  try_read_big_endian_unsigned_32, try_read_big_endian_unsigned_64,
}
use jpg_spinner.Jpeg.Outcome.{Outcome, success, ◌>>=◌}

-- The weight of the digit that `n` others follow, and the number that digits spell.
abbrev pub weight : ℕ → ℕ
weight zero = 1
weight (suc n) = 256 * weight n

abbrev pub number : Bytes → ℕ
number [] = 0
number (b ∷ bs) = b * weight (length bs) + number bs

byte_at-append : (xs ys : Bytes) (b : ℕ) → byte_at (xs ++ b ∷ ys) (length xs) ≡ success b
unfolding byte_at
byte_at-append [] ys b = refl
byte_at-append (x ∷ xs) ys b = byte_at-append xs ys b

one_more : (xs w ys : Bytes) (b : ℕ) → (xs ++ b ∷ []) ++ (w ++ ys) ≡ xs ++ b ∷ (w ++ ys)
one_more [] w ys b = refl
one_more (x ∷ xs) w ys b = ap (λ r. x ∷ r) (one_more xs w ys b)

big_endian_next :
    (bytes : Bytes) (n offset acc b : ℕ)
    → byte_at bytes offset ≡ success b
    → big_endian bytes (suc n) offset acc ≡ big_endian bytes n (offset + 1) (acc * 256 + b)
unfolding big_endian
big_endian_next bytes n offset acc b h =
    ap (λ (m : Outcome ℕ). m >>= λ c. big_endian bytes n (offset + 1) (acc * 256 + c)) h

number_step : (acc b w n : ℕ) → (acc * 256 + b) * w + n ≡ acc * (256 * w) + (b * w + n)
number_step acc b w n = grind arith

big_endian-number :
    (xs w ys : Bytes) (acc : ℕ)
    → big_endian (xs ++ (w ++ ys)) (length w) (length xs) acc
      ≡ success (acc * weight (length w) + number w)
unfolding big_endian
big_endian-number xs [] ys acc = ap success (omega arith)
big_endian-number xs (b ∷ w) ys acc =
    let rest = big_endian-number (xs ++ b ∷ []) w ys (acc * 256 + b) in
    let rest' = rw (one_more xs w ys b, length-append xs (b ∷ [])) at rest in
    big_endian_next (xs ++ b ∷ (w ++ ys)) (length w) (length xs) acc b
      (byte_at-append xs (w ++ ys) b)
    ∙ rest'
    ∙ ap success (number_step acc b (weight (length w)) (number w))

lift_some-success :
    (bytes : Bytes) (n offset v : ℕ)
    → big_endian bytes n offset 0 ≡ success v
    → offset + n ≤ length bytes
    → try_read_big_endian n bytes offset ≡ success (some v)
unfolding try_read_big_endian
lift_some-success bytes n offset v h l =
    if_in (ltb (length bytes) offset || ltb (length bytes - offset) n) (ground arith)
    ∙ ap (λ (m : Outcome ℕ). m >>= λ r. success (some r)) h
  where
    if_in :
        (b : Bool)
        → b ≡ false
        → (if b then success none else (big_endian bytes n offset 0 >>= λ r. success (some r)))
          ≡ (big_endian bytes n offset 0 >>= λ r. success (some r))
    if_in b e = rw e refl

-- Two, four or eight bytes that stand behind `xs` are read as the big-endian number that they spell.
try_read_big_endian-number :
    (xs w ys : Bytes)
    → try_read_big_endian (length w) (xs ++ (w ++ ys)) (length xs) ≡ success (some (number w))
try_read_big_endian-number xs w ys =
    let h = length-append xs (w ++ ys) in
    let k = length-append w ys in
    lift_some-success (xs ++ (w ++ ys)) (length w) (length xs) (number w)
      (big_endian-number xs w ys 0 ∙ ap success (omega arith)) (omega arith)

-- The three bounded reads answer with the big-endian number that their two, four or eight bytes
-- spell, where these stand between `xs` and `ys`.
pub try_read_numbers :
    (xs ys : Bytes) (a b c d e f g h : ℕ)
    → (try_read_big_endian_unsigned_16 (xs ++ a ∷ b ∷ ys) (length xs)
        ≡ success (some (256 * a + b)))
      × (try_read_big_endian_unsigned_32 (xs ++ a ∷ b ∷ c ∷ d ∷ ys) (length xs)
          ≡ success (some (number (a ∷ b ∷ c ∷ d ∷ []))))
      × (try_read_big_endian_unsigned_64 (xs ++ a ∷ b ∷ c ∷ d ∷ e ∷ f ∷ g ∷ h ∷ ys) (length xs)
          ≡ success (some (number (a ∷ b ∷ c ∷ d ∷ e ∷ f ∷ g ∷ h ∷ []))))
unfolding try_read_big_endian_unsigned_16 try_read_big_endian_unsigned_32
    try_read_big_endian_unsigned_64
try_read_numbers xs ys a b c d e f g h = (
  try_read_big_endian-number xs (a ∷ b ∷ []) ys ∙ ap (λ (n : ℕ). success (some n)) (omega arith),
  try_read_big_endian-number xs (a ∷ b ∷ c ∷ d ∷ []) ys,
  try_read_big_endian-number xs (a ∷ b ∷ c ∷ d ∷ e ∷ f ∷ g ∷ h ∷ []) ys,
)
