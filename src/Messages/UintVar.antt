-- ===== src/Messages/UintVar.antt =====
-- `quicr::UintVar` of the transport library, which is not part of the repository: variable length
-- integers of RFC 9000, as far as the messages use them.
use laps.Prelude.{ℕ, suc, ◌<◌, ◌^◌, ◌≡◌, List, [], ◌∷◌, length}
use laps.Prelude.Outcome.{fault}
use laps.Wire.{Reader, pure, ◌>>=◌, read_bytes}

pub record UintVar : Type 0 where
  -- The bytes from `begin()` to `end()` of `UintVar(value)`.
  pub encode : ℕ → List ℕ
  -- `UintVar::Size(first byte)`.
  pub size : ℕ → ℕ
  -- `uint64_t(UintVar(span))`.
  pub decode : List ℕ → ℕ

-- What RFC 9000 says of them: the first byte tells the length, and the value is read back.
pub record UintVarLaws (u : UintVar) : Type 0 where
  pub size_encode :
      (v : ℕ)
      → v < 2 ^ 62
      → (b : ℕ) × (bs : List ℕ) × (u.encode v ≡ b ∷ bs) × (u.size b ≡ suc (length bs))
  pub decode_encode : (v : ℕ) → v < 2 ^ 62 → u.decode (u.encode v) ≡ v

unfoldable pub read_uint_var : UintVar → Reader ℕ
read_uint_var u [] = fault
read_uint_var u (b ∷ bs) = (do x ← read_bytes (u.size b); pure (u.decode x)) (b ∷ bs)
