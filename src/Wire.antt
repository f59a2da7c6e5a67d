-- ===== src/Wire.antt =====
-- src/peering/common.h: bytes of integers in network order, and the reads of a span.
-- A byte string is a list of numbers. The host is little endian, as `kIsBigEndian` is false.
use laps.Prelude.{
  ℕ, zero, suc, ◌+◌, ◌*◌, ◌/◌, ◌%◌, ◌^◌, ◌<◌, ◌≡◌, List, [], ◌∷◌, ◌++◌, reverse, length, arith,
}
use laps.Prelude.Outcome.{Outcome, done, thrown, fault, stuck, Exception}
pub mod Reads
pub mod Exact

-- `BytesOf`: the bytes of a `w`-byte integer as they lie in memory.
unfoldable pub bytes_of : ℕ → ℕ → List ℕ
bytes_of zero v = []
bytes_of (suc w) v = (v % 256) ∷ bytes_of w (v / 256)

-- `data.insert(data.end(), bytes.rbegin(), bytes.rend())`.
unfoldable pub net : ℕ → ℕ → List ℕ
net w v = reverse (bytes_of w v)

unfoldable pub le_value : List ℕ → ℕ
le_value [] = 0
le_value (b ∷ bs) = b + 256 * le_value bs

-- `ValueOf` with `host_order`: byte `i` of the result is byte `last - i` of the span.
unfoldable pub value_of : List ℕ → ℕ
value_of bs = le_value (reverse bs)

-- A cursor `it` over a span: what is left of it. A read past the end is undefined.
abbrev pub Reader {ℓ} : Type ℓ → Type ℓ
Reader A = List ℕ → Outcome (A × List ℕ)

abbrev pub pure {ℓ} : {A : Type ℓ} → A → Reader A
pure a bs = done (a, bs)

infixl 5 ◌>>=◌ ◌>>◌
abbrev pub ◌>>=◌ {ℓ κ} : {A : Type ℓ} {B : Type κ} → Reader A → (A → Reader B) → Reader B
◌>>=◌ m f bs = elim (m bs) [
  | done (a, rest) ↦ f a rest
  | thrown e ↦ thrown e
  | fault ↦ fault
  | stuck ↦ stuck
]

abbrev pub ◌>>◌ {ℓ} : {B : Type ℓ} → Reader (Unit {0}) → Reader B → Reader B
m >> k = m >>= λ _. k

-- `{it, it + n}`, then `it += n`.
unfoldable pub read_bytes : ℕ → Reader (List ℕ)
read_bytes zero bs = done ([], bs)
read_bytes (suc n) [] = fault
read_bytes (suc n) (b ∷ bs) = elim (read_bytes n bs) [
  | done (xs, rest) ↦ done (b ∷ xs, rest)
  | thrown e ↦ thrown e
  | fault ↦ fault
  | stuck ↦ stuck
]

-- `*it++`.
unfoldable pub read_byte : Reader ℕ
read_byte [] = fault
read_byte (b ∷ bs) = done (b, bs)

-- `ValueOf<T>({ it, it + w })`, then `it += w`.
unfoldable pub read_value : ℕ → Reader ℕ
read_value w = do bs ← read_bytes w; pure (value_of bs)
