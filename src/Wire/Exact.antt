-- ===== src/Wire/Exact.antt =====
-- Readers of a fixed number of bytes: with fewer bytes they run past the end, and with as many
-- they succeed and leave the others.
use laps.Prelude.{ℕ, ◌+◌, ◌≡◌, ◌<◌, ◌≤◌, refl, ◌∙◌, List, [], ◌∷◌, length, arith}
use laps.Prelude.Outcome.{done, fault}
use laps.Wire.{Reader, pure, ◌>>=◌, read_bytes, read_byte, read_value}
use laps.Wire.Reads.{read_step, read_bytes_short, read_value_long}
use native.Mathlib.Decide.{dec_le}

pub record Exact {ℓ} {A : Type ℓ} (n : ℕ) (r : Reader A) : Type ℓ where
  pub long :
      (bytes : List ℕ)
      → n ≤ length bytes
      → (a : A) × (rest : List ℕ) × (r bytes ≡ done (a, rest)) × (length bytes ≡ n + length rest)
  pub short : (bytes : List ℕ) → length bytes < n → r bytes ≡ fault

read_fault {ℓ κ} :
    {A : Type ℓ} {B : Type κ} (r : Reader A) (f : A → Reader B) {bytes : List ℕ}
    → r bytes ≡ fault
    → (r >>= f) bytes ≡ fault
read_fault r f e = rw (e, ◌>>=◌)

pub Exact-pure {ℓ} : {A : Type ℓ} (a : A) → Exact 0 (pure a)
Exact-pure a = record {
  long = λ bytes h. (a, bytes, refl, omega arith);
  short = λ bytes h. absurd (omega arith);
}

pub Exact-bind {ℓ κ} :
    {A : Type ℓ} {B : Type κ} (n m : ℕ) (r : Reader A) (f : A → Reader B)
    → Exact n r
    → ((a : A) → Exact m (f a))
    → Exact (n + m) (r >>= f)
Exact-bind n m r f er ef = record {
  long = λ bytes h.
      let (a, mid, p, l) = er.long bytes (omega arith) in
      let (b, rest, q, k) = (ef a).long mid (omega arith) in
      (b, rest, read_step r f p ∙ q, omega arith);
  short = λ bytes h. elim (dec_le n (length bytes)) [
    | yes enough ↦
        let (a, mid, p, l) = er.long bytes enough in
        read_step r f p ∙ (ef a).short mid (omega arith)
    | no few ↦ read_fault r f (er.short bytes (omega arith))
  ];
}

pub Exact-read_byte : Exact 1 read_byte
unfolding read_byte
Exact-read_byte = record { long = byte_long; short = byte_short }
  where
    byte_long :
        (bytes : List ℕ)
        → 1 ≤ length bytes
        → (a : ℕ) × (rest : List ℕ) × (read_byte bytes ≡ done (a, rest))
          × (length bytes ≡ 1 + length rest)
    byte_long [] h = absurd (omega arith)
    byte_long (b ∷ bytes) h = (b, bytes, refl, omega arith)

    byte_short : (bytes : List ℕ) → length bytes < 1 → read_byte bytes ≡ fault
    byte_short [] h = refl
    byte_short (b ∷ bytes) h = absurd (omega arith)

pub Exact-read_value : (w : ℕ) → Exact w (read_value w)
unfolding read_value
Exact-read_value w = record {
  long = read_value_long w;
  short = λ bytes h. read_fault (read_bytes w) _ (read_bytes_short w bytes h);
}
