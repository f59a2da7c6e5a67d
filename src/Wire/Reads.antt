-- ===== src/Wire/Reads.antt =====
-- Reading back what was written.
use mathlib.Core.List.{reverse-reverse}
use native.Mathlib.Nat.{pow-suc, mod-eq_of_lt}
use laps.Prelude.{
  ℕ, zero, suc, ◌+◌, ◌/◌, ◌%◌, ◌^◌, ◌<◌, ◌≤◌, ◌≡◌, refl, ap, ◌∙◌, List, [], ◌∷◌, ◌++◌, length,
  length-reverse, arith,
}
use laps.Prelude.Outcome.{done, fault}
use laps.Wire.{
  bytes_of, net, le_value, value_of, Reader, pure, ◌>>=◌, read_bytes, read_byte, read_value,
}

pub length-bytes_of : (w v : ℕ) → length (bytes_of w v) ≡ w
unfolding bytes_of
length-bytes_of zero v = refl
length-bytes_of (suc w) v = ap suc (length-bytes_of w (v / 256))

pub length-net : (w v : ℕ) → length (net w v) ≡ w
unfolding net
length-net w v = length-reverse (bytes_of w v) ∙ length-bytes_of w v

pub le_value-bytes_of : (w v : ℕ) → v < 256 ^ w → le_value (bytes_of w v) ≡ v
unfolding le_value bytes_of
le_value-bytes_of zero v h = omega arith
le_value-bytes_of (suc w) v h =
    omega (arith, le_value-bytes_of w (v / 256) (omega (arith, pow-suc 256 w)))

pub value_of-net : (w v : ℕ) → v < 256 ^ w → value_of (net w v) ≡ v
unfolding value_of net
value_of-net w v h = rw (reverse-reverse (bytes_of w v)) (le_value-bytes_of w v h)

pub read_bytes-append : (xs ys : List ℕ) → read_bytes (length xs) (xs ++ ys) ≡ done (xs, ys)
unfolding read_bytes
read_bytes-append [] ys = refl
read_bytes-append (x ∷ xs) ys = rw (read_bytes-append xs ys)

-- One step of a chain of reads.
pub read_step {ℓ κ} :
    {A : Type ℓ} {B : Type κ} (r : Reader A) (f : A → Reader B) {bs rest : List ℕ} {a : A}
    → r bs ≡ done (a, rest)
    → (r >>= f) bs ≡ f a rest
read_step r f e = rw (e, ◌>>=◌)

pub read_bytes-prefix :
    (n : ℕ) (xs ys : List ℕ) → length xs ≡ n → read_bytes n (xs ++ ys) ≡ done (xs, ys)
read_bytes-prefix n xs ys e = rw (← e) (read_bytes-append xs ys)

pub read_value-net :
    (w v : ℕ) (rest : List ℕ) → v < 256 ^ w → read_value w (net w v ++ rest) ≡ done (v, rest)
unfolding read_value
read_value-net w v rest h =
    read_step (read_bytes w) (λ bs. pure (value_of bs))
      (read_bytes-prefix w (net w v) rest (length-net w v))
    ∙ ap (λ (x : ℕ). done (x, rest)) (value_of-net w v h)

pub read_byte-cons : (b : ℕ) (bs : List ℕ) → read_byte (b ∷ bs) ≡ done (b, bs)
unfolding read_byte
read_byte-cons b bs = refl

-- A value that was cut to the width of its type before it was written.
pub read_value-wrapped :
    (w v : ℕ) (rest : List ℕ)
    → v < 256 ^ w
    → read_value w (net w (v % 256 ^ w) ++ rest) ≡ done (v, rest)
read_value-wrapped w v rest h = rw (mod-eq_of_lt h) (read_value-net w v rest h)

pub read_byte-wrapped : (v : ℕ) (bs : List ℕ) → v < 256 → read_byte ((v % 256) ∷ bs) ≡ done (v, bs)
read_byte-wrapped v bs h = rw (mod-eq_of_lt h) (read_byte-cons v bs)

-- A read succeeds exactly when the bytes are there.
pub read_bytes_short : (n : ℕ) (bs : List ℕ) → length bs < n → read_bytes n bs ≡ fault
unfolding read_bytes
read_bytes_short zero bs h = absurd (omega arith)
read_bytes_short (suc n) [] h = refl
read_bytes_short (suc n) (b ∷ bs) h = rw (read_bytes_short n bs (omega arith))

pub read_bytes_long :
    (n : ℕ) (bs : List ℕ)
    → n ≤ length bs
    → (xs ys : List ℕ) × (read_bytes n bs ≡ done (xs, ys)) × (length bs ≡ n + length ys)
unfolding read_bytes
read_bytes_long zero bs h = ([], bs, refl, omega arith)
read_bytes_long (suc n) [] h = absurd (omega arith)
read_bytes_long (suc n) (b ∷ bs) h =
    let (xs, ys, e, l) = read_bytes_long n bs (omega arith) in (b ∷ xs, ys, rw e, omega arith)

pub read_value_long :
    (w : ℕ) (bs : List ℕ)
    → w ≤ length bs
    → (v : ℕ) × (ys : List ℕ) × (read_value w bs ≡ done (v, ys)) × (length bs ≡ w + length ys)
unfolding read_value
read_value_long w bs h =
    let (xs, ys, e, l) = read_bytes_long w bs h in
    (value_of xs, ys, read_step (read_bytes w) (λ x. pure (value_of x)) e, l)
