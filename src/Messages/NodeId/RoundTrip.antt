-- ===== src/Messages/NodeId/RoundTrip.antt =====
-- The text of a node id, read back.
use mathlib.Core.List.{append-nil, append_assoc}
use laps.Prelude.{
  ℕ, zero, suc, ◌+◌, ◌-◌, ◌*◌, ◌/◌, ◌%◌, ◌^◌, ◌<◌, ◌≤◌, ◌≡◌, refl, sym, ap, ◌∙◌, true, false, List,
  [], ◌∷◌, ◌++◌, some, arith, inl, inr, Bool-cases, ltb, All, ◌==◌, leb, ◌&&◌, ◌||◌, ◌⊎◌, ==-self,
}
use laps.Prelude.Outcome.{done}
use laps.Messages.NodeId.{
  split_at, is_digit, read_digits, stoul_digits, stoul_sign, stoul, dot_value, numeric_value,
  node_id_of, decimal, decimal16, node_id_text, colon, dot,
}

abbrev IsDigit : ℕ → Type 0
IsDigit c = (48 ≤ c) × (c < 58)

All-append : (P : ℕ → Type 0) (xs ys : List ℕ) → All P xs → All P ys → All P (xs ++ ys)
All-append P [] ys h k = k
All-append P (x ∷ xs) ys h k = (h.0, All-append P xs ys h.1 k)

decimal-All : (fuel n : ℕ) → All IsDigit (decimal fuel n)
unfolding decimal
decimal-All zero n = tt
decimal-All (suc fuel) n = elim (Bool-cases (ltb n 10)) [
  | inl small ↦ rw small (((ground arith, ground arith), tt))
  | inr large ↦ rw large (
      All-append IsDigit (decimal fuel (n / 10)) ((48 + n % 10) ∷ []) (decimal-All fuel (n / 10))
        ((omega arith, omega arith), tt))
]

-- Up to the first character that is no digit.
abbrev Stops : List ℕ → Type 0
Stops [] = Unit {0}
Stops (c ∷ cs) = is_digit c ≡ false

read_digits-digit :
    (m d n : ℕ) (rest : List ℕ)
    → d < 10
    → m * 10 + d ≡ n
    → read_digits m ((48 + d) ∷ rest) ≡ read_digits n rest
unfolding read_digits is_digit
read_digits-digit m d n rest h e =
    let digit : (leb 48 (48 + d) && leb (48 + d) 57) ≡ true = ground arith in
    let value : m * 10 + (48 + d - 48) ≡ n = omega arith in rw (digit, value) refl

append_one : (xs rest : List ℕ) (x : ℕ) → (xs ++ (x ∷ [])) ++ rest ≡ xs ++ (x ∷ rest)
append_one [] rest x = refl
append_one (y ∷ ys) rest x = ap (λ zs. y ∷ zs) (append_one ys rest x)

read_digits-decimal :
    (fuel n : ℕ) (rest : List ℕ)
    → n < 10 ^ fuel
    → 1 ≤ n
    → read_digits 0 (decimal fuel n ++ rest) ≡ read_digits n rest
unfolding decimal
read_digits-decimal zero n rest h k = absurd (omega arith)
read_digits-decimal (suc fuel) n rest h k = elim (Bool-cases (ltb n 10)) [
  | inl small ↦ rw (decimal, small) (read_digits-digit 0 n n rest (ground arith) (omega arith))
  | inr large ↦
      rw (decimal, large)
        (ap (read_digits 0) (append_one (decimal fuel (n / 10)) rest (48 + n % 10))
          ∙ (read_digits-decimal fuel (n / 10) _ (omega arith) (ground arith)
              ∙ read_digits-digit (n / 10) (n % 10) n rest (omega arith) (omega arith)))
]

read_digits-stop : (n : ℕ) (rest : List ℕ) → Stops rest → read_digits n rest ≡ n
unfolding read_digits
read_digits-stop n [] h = refl
read_digits-stop n (c ∷ cs) h = rw h refl

front_char :
    (xs : List ℕ) (d : ℕ)
    → All IsDigit xs
    → IsDigit d
    → (c : ℕ) × (cs : List ℕ) × (xs ++ (d ∷ []) ≡ c ∷ cs) × IsDigit c
front_char [] d all h = (d, [], refl, h)
front_char (c ∷ cs) d all h = (c, cs ++ (d ∷ []), refl, all.0)

decimal-front : (fuel n : ℕ) → (c : ℕ) × (cs : List ℕ) × (decimal (suc fuel) n ≡ c ∷ cs) × IsDigit c
unfolding decimal
decimal-front fuel n = elim (Bool-cases (ltb n 10)) [
  | inl small ↦ (48 + n, [], rw (decimal, small) refl, (ground arith, ground arith))
  | inr large ↦
      let (c, cs, e, h) =
        front_char (decimal fuel (n / 10)) (48 + n % 10) (decimal-All fuel (n / 10))
          (omega arith, omega arith) in
      (c, cs, rw (decimal, large) e, h)
]

stoul-digits :
    (c n : ℕ) (cs : List ℕ)
    → IsDigit c
    → read_digits 0 (c ∷ cs) ≡ n
    → n < 2 ^ 64
    → stoul (c ∷ cs) ≡ done n
unfolding stoul stoul_sign stoul_digits is_digit
stoul-digits c n cs h e small =
    let space : (c == 32 || (leb 9 c && leb c 13)) ≡ false = ground arith in
    let minus : (c == 45) ≡ false = ground arith in
    let plus : (c == 43) ≡ false = ground arith in
    let digit : (leb 48 c && leb c 57) ≡ true = ground arith in
    let fits : ltb n (2 ^ 64) ≡ true = ground arith in rw (space, minus, plus, digit, e, fits) refl

read_digits-number :
    (n : ℕ) (rest : List ℕ) → n < 10 ^ 5 → Stops rest → read_digits 0 (decimal 5 n ++ rest) ≡ n
read_digits-number zero rest h stop =
    unfold decimal in
    (read_digits-digit 0 0 0 rest (omega arith) refl ∙ read_digits-stop 0 rest stop)
read_digits-number (suc n) rest h stop =
    read_digits-decimal 5 (suc n) rest h (omega arith) ∙ read_digits-stop (suc n) rest stop

stoul-decimal :
    (n : ℕ) (rest : List ℕ) → n < 10 ^ 5 → Stops rest → stoul (decimal 5 n ++ rest) ≡ done n
stoul-decimal n rest h stop =
    let (c, cs, e, digit) = decimal-front 4 n in
    let front = ap (λ xs. xs ++ rest) e in
    ap stoul front
    ∙ stoul-digits c n (cs ++ rest) digit
        (sym (ap (read_digits 0) front) ∙ read_digits-number n rest h stop) (omega arith)

split_at-append :
    (c : ℕ) (xs rest : List ℕ)
    → All (λ x. (x == c) ≡ false) xs
    → split_at c (xs ++ (c ∷ rest)) ≡ some (xs, rest)
unfolding split_at
split_at-append c [] rest h = rw ==-self refl
split_at-append c (x ∷ xs) rest h = rw (h.0, split_at-append c xs rest h.1) refl

apart_from :
    (c : ℕ) (xs : List ℕ) → (c < 48) ⊎ (57 < c) → All IsDigit xs → All (λ x. (x == c) ≡ false) xs
apart_from c [] h all = tt
apart_from c (x ∷ xs) h all = (ground (arith, all.0), apart_from c xs h all.1)

dot_value-decimal :
    (n : ℕ) (rest : List ℕ) → n < 2 ^ 16 → Stops rest → dot_value (decimal 5 n ++ rest) ≡ done n
unfolding dot_value
dot_value-decimal n rest h stop =
    let fits : leb n 65535 ≡ true = ground arith in
    rw (stoul-decimal n rest (omega arith) stop, fits) refl

numeric_value-dotted :
    (a b : ℕ)
    → a < 2 ^ 16
    → b < 2 ^ 16
    → numeric_value (decimal 5 a ++ (dot ∷ decimal 5 b)) ≡ done (a * 2 ^ 16 + b)
unfolding numeric_value
numeric_value-dotted a b ha hb =
    let split =
      split_at-append dot (decimal 5 a) (decimal 5 b)
        (apart_from dot (decimal 5 a) (inl (omega arith)) (decimal-All 5 a)) in
    let low = ap dot_value (sym (append-nil (decimal 5 b))) ∙ dot_value-decimal b [] hb tt in
    rw
      (
        numeric_value,
        split,
        dot_value-decimal a (dot ∷ decimal 5 b) ha (unfold is_digit in refl),
        low,
      )
      refl

dotted_apart : (a b : ℕ) → All (λ x. (x == colon) ≡ false) (decimal 5 a ++ (dot ∷ decimal 5 b))
dotted_apart a b =
    All-append (λ x. (x == colon) ≡ false) (decimal 5 a) (dot ∷ decimal 5 b)
      (apart_from colon (decimal 5 a) (inr (omega arith)) (decimal-All 5 a))
      (refl, apart_from colon (decimal 5 b) (inr (omega arith)) (decimal-All 5 b))

node_id_of-parts :
    (text before after : List ℕ) (hi low : ℕ)
    → split_at colon text ≡ some (before, after)
    → numeric_value before ≡ done hi
    → numeric_value after ≡ done low
    → node_id_of text ≡ done (hi * 2 ^ 32 + low)
unfolding node_id_of
node_id_of-parts text before after hi low split h l = rw (node_id_of, split, h, l) refl

-- The text of a 64-bit node id is read as the node id.
pub node_id_of-node_id_text : (id : ℕ) → id < 2 ^ 64 → node_id_of (node_id_text id) ≡ done id
unfolding node_id_text decimal16
node_id_of-node_id_text id h =
    let a = id / 2 ^ 48 % 2 ^ 16 in
    let b = id / 2 ^ 32 % 2 ^ 16 in
    let c = id / 2 ^ 16 % 2 ^ 16 in
    let d = id % 2 ^ 16 in
    let hi = decimal 5 a ++ (dot ∷ decimal 5 b) in
    let low = decimal 5 c ++ (dot ∷ decimal 5 d) in
    let parts : node_id_text id ≡ hi ++ (colon ∷ low) =
      append_assoc hi (colon ∷ decimal 5 c) (dot ∷ decimal 5 d) in
    let split = split_at-append colon hi low (dotted_apart a b) in
    let sum : (a * 2 ^ 16 + b) * 2 ^ 32 + (c * 2 ^ 16 + d) ≡ id = omega arith in
    node_id_of-parts (node_id_text id) hi low (a * 2 ^ 16 + b) (c * 2 ^ 16 + d)
      (ap (split_at colon) parts ∙ split) (numeric_value-dotted a b (omega arith) (omega arith))
      (numeric_value-dotted c d (omega arith) (omega arith))
    ∙ ap done sum
