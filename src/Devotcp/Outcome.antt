-- ===== src/Devotcp/Outcome.antt =====
-- What a Go function of internal/transport/devotcp/protocol.go comes to: a value, one of its
-- errors, or a panic of a slice or an index out of range.
use firmflow.Base.{
  ℕ, zero, suc, ◌-◌, Bool, ◌&&◌, if◌then◌else◌, List, [], ◌∷◌, leb, length, take, drop,
}

-- `ErrBadFrame`, `ErrPayloadTooBig`, and any error of the connection.
pub data WireError : Type 0 where
  bad_frame payload_too_big connection : WireError

pub data Outcome (A : Type 0) : Type 0 where
  returned : A → Outcome A
  failed : WireError → Outcome A
  panicked : Outcome A

infixl 5 ◌>>=◌ ◌>>◌
abbrev pub ◌>>=◌ : {A B : Type 0} → Outcome A → (A → Outcome B) → Outcome B
returned a >>= f = f a
failed e >>= f = failed e
panicked >>= f = panicked

abbrev pub ◌>>◌ : {B : Type 0} → Outcome (Unit {0}) → Outcome B → Outcome B
m >> k = m >>= λ _. k

-- `if !b { return …, e }`.
abbrev pub check : Bool → WireError → Outcome (Unit {0})
check b e = if b then returned tt else failed e

-- `p[a:b]` and `p[i]`.
unfoldable pub slice : List ℕ → ℕ → ℕ → Outcome (List ℕ)
slice p a b = if leb a b && leb b (length p) then returned (take (b - a) (drop a p)) else panicked

unfoldable pub index : List ℕ → ℕ → Outcome ℕ
index [] i = panicked
index (x ∷ xs) zero = returned x
index (x ∷ xs) (suc i) = index xs i

-- `io.ReadFull`: the bytes and what the connection still holds.
unfoldable pub read_full : ℕ → List ℕ → Outcome (List ℕ × List ℕ)
read_full n input =
    if leb n (length input) then returned (take n input, drop n input) else failed connection
