-- ===== src/Devotcp/Bytes.antt =====
-- Big-endian numbers and buffers: `encoding/binary` and `copy` as protocol.go uses them.
use firmflow.Base.{
  ℕ, zero, suc, ◌+◌, ◌*◌, ◌/◌, ◌%◌, ◌<◌, ◌≡◌, ap, true, if◌then◌else◌, List, [], ◌∷◌, ◌++◌, leb,
  length, replicate, arith, length-append, length-replicate,
}
use firmflow.Devotcp.Outcome.{Outcome, returned, panicked}

-- `BigEndian.PutUint16` and `PutUint32`, with the conversion that wraps.
abbrev pub be16 : ℕ → List ℕ
be16 n = (n / 256 % 256) ∷ (n % 256) ∷ []

abbrev pub be32 : ℕ → List ℕ
be32 n = (n / 16777216 % 256) ∷ (n / 65536 % 256) ∷ (n / 256 % 256) ∷ (n % 256) ∷ []

-- `BigEndian.Uint16` and `Uint32`.
abbrev pub uint16 : List ℕ → Outcome ℕ
uint16 (a ∷ b ∷ r) = returned (a * 256 + b)
uint16 _ = panicked

abbrev pub uint32 : List ℕ → Outcome ℕ
uint32 (a ∷ b ∷ c ∷ d ∷ r) = returned (a * 16777216 + b * 65536 + c * 256 + d)
uint32 _ = panicked

abbrev pub IsByte : ℕ → Type 0
IsByte b = b < 256

pub uint16-be16 : (n : ℕ) → n < 65536 → uint16 (be16 n) ≡ returned n
uint16-be16 n h = ap returned (omega arith)

pub uint32-be32 : (n : ℕ) → n < 4294967296 → uint32 (be32 n) ≡ returned n
uint32-be32 n h = ap returned (omega arith)

overwrite : List ℕ → List ℕ → List ℕ
overwrite [] buf = buf
overwrite (b ∷ bs) [] = []
overwrite (b ∷ bs) (x ∷ buf) = b ∷ overwrite bs buf

copy_into : ℕ → List ℕ → List ℕ → List ℕ
unfolding overwrite
copy_into zero bs buf = overwrite bs buf
copy_into (suc o) bs [] = []
copy_into (suc o) bs (x ∷ buf) = x ∷ copy_into o bs buf

-- `copy(buf[o:], bs)`.
unfoldable pub copy : ℕ → List ℕ → List ℕ → Outcome (List ℕ)
unfolding copy_into
copy o bs buf = if leb o (length buf) then returned (copy_into o bs buf) else panicked

-- `PutUint16(buf[o:o+2], …)` and `PutUint32(buf[o:o+4], …)`.
unfoldable pub put : ℕ → List ℕ → List ℕ → Outcome (List ℕ)
unfolding copy_into
put o bs buf = if leb (o + length bs) (length buf) then returned (copy_into o bs buf) else panicked

overwrite_zeros :
    (bs : List ℕ) (n m : ℕ) → n ≡ length bs + m → overwrite bs (replicate n 0) ≡ bs ++ replicate m 0
unfolding overwrite
overwrite_zeros [] n m h = ap (λ (k : ℕ). replicate k 0) (omega (arith, h))
overwrite_zeros (b ∷ bs) zero m h = absurd (omega (arith, h))
overwrite_zeros (b ∷ bs) (suc n) m h = ap (λ l. b ∷ l) (overwrite_zeros bs n m (omega (arith, h)))

copy_into_next :
    (a bs : List ℕ) (n m : ℕ)
    → n ≡ length bs + m
    → copy_into (length a) bs (a ++ replicate n 0) ≡ (a ++ bs) ++ replicate m 0
unfolding copy_into
copy_into_next [] bs n m h = overwrite_zeros bs n m h
copy_into_next (x ∷ a) bs n m h = ap (λ l. x ∷ l) (copy_into_next a bs n m h)

buffer_length : (a : List ℕ) (n : ℕ) → length (a ++ replicate n 0) ≡ length a + n
buffer_length a n =
    let zeros : List ℕ = replicate n 0 in
    let e : length zeros ≡ n = length-replicate n 0 in omega (arith, length-append a zeros, e)

-- Behind the `o` bytes that a fresh buffer has, the next field is written; the zeros stay behind.
pub copy_next :
    (o : ℕ) (a bs : List ℕ) (n m : ℕ)
    → o ≡ length a
    → n ≡ length bs + m
    → copy o bs (a ++ replicate n 0) ≡ returned ((a ++ bs) ++ replicate m 0)
unfolding copy
copy_next o a bs n m k h =
    let room : leb (length a) (length (a ++ replicate n 0)) ≡ true =
      ground (arith, buffer_length a n) in
    rw k (rw room (ap returned (copy_into_next a bs n m h)))

pub put_next :
    (o : ℕ) (a bs : List ℕ) (n m : ℕ)
    → o ≡ length a
    → n ≡ length bs + m
    → put o bs (a ++ replicate n 0) ≡ returned ((a ++ bs) ++ replicate m 0)
unfolding put
put_next o a bs n m k h =
    let room : leb (length a + length bs) (length (a ++ replicate n 0)) ≡ true =
      ground (arith, buffer_length a n, h) in
    rw k (rw room (ap returned (copy_into_next a bs n m h)))
