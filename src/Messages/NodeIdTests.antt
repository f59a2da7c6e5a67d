-- ===== src/Messages/NodeIdTests.antt =====
-- Node ids in text.
use laps.Prelude.{ℕ, ◌≡◌, refl, List, [], ◌∷◌, arith}
use laps.Prelude.Outcome.{done, thrown, runtime_error}
use laps.Messages.NodeId.RoundTrip.{node_id_of-node_id_text}
use laps.Messages.NodeId.{
  split_at, is_digit, read_digits, stoul_digits, stoul_sign, stoul, dot_value, numeric_value,
  node_id_of, decimal, decimal16, node_id_text,
}

-- "1.2:30.4".
abbrev text : List ℕ
text = 49 ∷ 46 ∷ 50 ∷ 58 ∷ 51 ∷ 48 ∷ 46 ∷ 52 ∷ []

node_id_of-text : node_id_of text ≡ done 0x00010002001E0004
unfolding node_id_of split_at is_digit read_digits stoul_digits stoul_sign stoul dot_value
    numeric_value
node_id_of-text = refl

node_id_text_number : node_id_text 0x00010002001E0004 ≡ text
unfolding node_id_text decimal decimal16
node_id_text_number = refl

-- "70000.1:1".
node_id_of_large :
    node_id_of (55 ∷ 48 ∷ 48 ∷ 48 ∷ 48 ∷ 46 ∷ 49 ∷ 58 ∷ 49 ∷ []) ≡ thrown runtime_error
unfolding node_id_of split_at is_digit read_digits stoul_digits stoul_sign stoul dot_value
    numeric_value
node_id_of_large = refl

node_id_of-node_id_text_example :
    node_id_of (node_id_text 0x00010002001E0004) ≡ done 0x00010002001E0004
node_id_of-node_id_text_example = node_id_of-node_id_text 0x00010002001E0004 (omega arith)
