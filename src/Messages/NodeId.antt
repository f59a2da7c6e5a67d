-- ===== src/Messages/NodeId.antt =====
-- The class `NodeId` of src/peering/messages/node_info.h: node ids as text and as numbers. A text
-- is a list of character codes.
use laps.Prelude.{
  ℕ, zero, suc, ◌+◌, ◌-◌, ◌*◌, ◌/◌, ◌%◌, ◌^◌, Bool, true, false, List, [], ◌∷◌, ◌++◌, Option, none,
  some, ◌&&◌, ◌||◌, ltb, leb, ◌==◌, if◌then◌else◌,
}
use laps.Prelude.Outcome.{
  Outcome, done, thrown, require, invalid_argument, out_of_range, runtime_error, ◌>>=◌, ◌>>◌,
}
pub mod RoundTrip

abbrev pub colon : ℕ
colon = 58

abbrev pub dot : ℕ
dot = 46

-- `value.find(c)` as the text before `c` and the text after it.
unfoldable pub split_at : ℕ → List ℕ → Option (List ℕ × List ℕ)
split_at c [] = none
split_at c (x ∷ xs) =
    let rest = split_at c xs in
    if x == c
    then some ([], xs)
    else elim rest [ none ↦ none | some (before, after) ↦ some (x ∷ before, after) ]

unfoldable pub is_digit : ℕ → Bool
is_digit c = leb 48 c && leb c 57

-- The digits in front, and the number that they stand for after the digits read so far.
unfoldable pub read_digits : ℕ → List ℕ → ℕ
read_digits n [] = n
read_digits n (c ∷ cs) = if is_digit c then read_digits (n * 10 + (c - 48)) cs else n

-- `std::stoul` behind white space and sign: an exception where there is no digit or the number
-- does not fit; a number with a minus sign wraps.
unfoldable pub stoul_digits : Bool → List ℕ → Outcome ℕ
stoul_digits negative [] = thrown invalid_argument
stoul_digits negative (c ∷ cs) =
    if is_digit c
    then (let n = read_digits 0 (c ∷ cs) in
        if ltb n (2 ^ 64)
        then done (if negative then (2 ^ 64 - n) % 2 ^ 64 else n)
        else thrown out_of_range)
    else thrown invalid_argument

unfoldable pub stoul_sign : List ℕ → Outcome ℕ
stoul_sign [] = thrown invalid_argument
stoul_sign (c ∷ cs) =
    if c == 45
    then stoul_digits true cs
    else if c == 43
    then stoul_digits false cs
    else stoul_digits false (c ∷ cs)

unfoldable pub stoul : List ℕ → Outcome ℕ
stoul [] = thrown invalid_argument
stoul (c ∷ cs) =
    let rest = stoul cs in if c == 32 || (leb 9 c && leb c 13) then rest else stoul_sign (c ∷ cs)

-- One round of the loop: the number behind a dot, which is read until the next character that is
-- no digit, so that a second dot does not matter.
unfoldable pub dot_value : List ℕ → Outcome ℕ
dot_value text = do n ← stoul text; require (leb n 65535) runtime_error; done n

-- A text with no dot is one number, cut off to 32 bits.
unfoldable pub numeric_value : List ℕ → Outcome ℕ
numeric_value text = elim (split_at dot text) [
  | none ↦ do n ← stoul text; done (n % 2 ^ 32)
  | some (_, after) ↦ do hi ← dot_value text; low ← dot_value after; done (hi * 2 ^ 16 + low)
]

-- `Value` of a text.
unfoldable pub node_id_of : List ℕ → Outcome ℕ
node_id_of text = elim (split_at colon text) [
  | none ↦ thrown runtime_error
  | some (before, after) ↦ do
    hi ← numeric_value before
    low ← numeric_value after
    done (hi * 2 ^ 32 + low)
]

-- A number of at most `fuel` digits.
unfoldable pub decimal : ℕ → ℕ → List ℕ
decimal zero n = []
decimal (suc fuel) n =
    let front = decimal fuel (n / 10) in
    if ltb n 10 then (48 + n) ∷ [] else front ++ ((48 + n % 10) ∷ [])

-- A 16-bit number has at most five digits.
unfoldable pub decimal16 : ℕ → List ℕ
decimal16 n = decimal 5 (n % 2 ^ 16)

-- `Value` of a number.
unfoldable pub node_id_text : ℕ → List ℕ
node_id_text id =
    decimal16 (id / 2 ^ 48)
    ++ (dot ∷ decimal16 (id / 2 ^ 32))
    ++ (colon ∷ decimal16 (id / 2 ^ 16))
    ++ (dot ∷ decimal16 id)
