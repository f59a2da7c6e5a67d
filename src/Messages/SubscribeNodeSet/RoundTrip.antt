-- ===== src/Messages/SubscribeNodeSet/RoundTrip.antt =====
-- What `read_sns` makes of the bytes of a subscribe node set.
use mathlib.Core.List.{append_assoc, append-nil}
use laps.Prelude.{
  ℕ, ◌+◌, ◌*◌, ◌^◌, ◌≡◌, ◌<◌, ◌≤◌, refl, ap, ◌∙◌, Bool, true, false, List, [], ◌∷◌, ◌++◌, length,
  length-append, All, arith,
}
use laps.Prelude.Outcome.{done}
use laps.Wire.{net, read_byte, read_value}
use laps.Wire.Reads.{length-net, read_step, read_value-net, read_byte-cons, read_value-wrapped}
use laps.Prelude.SortedSet.{emplace, Above, IsSortedSet}
use laps.Messages.SubscribeNodeSet.{
  SubscribeNodeSet, default_sns, size_bytes, write_nodes, append_sns, append_body, read_nodes,
  read_sns,
}

abbrev pub IsNode : ℕ → Type 0
IsNode n = n < 2 ^ 64

pub record IsSns (s : SubscribeNodeSet) : Type 0 where
  pub id : s.id < 2 ^ 32
  pub nodes : All IsNode s.nodes
  pub count : length s.nodes < 2 ^ 16
  pub sorted : IsSortedSet s.nodes

emplace_last : (n b : ℕ) (xs : List ℕ) → All (λ x. x ≤ b) xs → b < n → emplace n xs ≡ xs ++ (n ∷ [])
unfolding emplace
emplace_last n b [] h lt = refl
emplace_last n b (x ∷ xs) h lt = ground (arith, emplace_last n b xs h.1 lt)

All-append_one :
    (n b : ℕ) (xs : List ℕ) → All (λ x. x ≤ b) xs → b < n → All (λ x. x ≤ n) (xs ++ (n ∷ []))
All-append_one n b [] h lt = omega arith
All-append_one n b (x ∷ xs) h lt = (omega arith, All-append_one n b xs h.1 lt)

read_nodes-write :
    (ns nodes : List ℕ) (b : ℕ) (rest : List ℕ)
    → All (λ x. x ≤ b) nodes
    → Above b ns
    → All IsNode ns
    → read_nodes (length ns) nodes (write_nodes ns ++ rest) ≡ done (nodes ++ ns, rest)
unfolding read_nodes write_nodes
read_nodes-write [] nodes b rest le up h = rw append-nil
read_nodes-write (n ∷ ns) nodes b rest le up h = rw (append_assoc (net 8 n)) (
    read_step (read_value 8) _ (read_value-net 8 n _ h.0)
    ∙ rw (emplace_last n b nodes le up.0)
        (read_nodes-write ns (nodes ++ (n ∷ [])) n rest (All-append_one n b nodes le up.0) up.1 h.1)
    ∙ ap (λ (l : List ℕ). done (l, rest)) (append_assoc nodes (n ∷ []) ns))

read_each_node :
    (ns : List ℕ) (rest : List ℕ)
    → IsSortedSet ns
    → All IsNode ns
    → read_nodes (length ns) [] (write_nodes ns ++ rest) ≡ done (ns, rest)
unfolding read_nodes write_nodes
read_each_node [] rest s h = refl
read_each_node (n ∷ ns) rest s h = rw (append_assoc (net 8 n)) (
    read_step (read_value 8) _ (read_value-net 8 n _ h.0)
    ∙ unfold emplace in (read_nodes-write ns (n ∷ []) n rest (omega arith) s h.1))

length-write_nodes : (ns : List ℕ) → length (write_nodes ns) ≡ length ns * 8
unfolding write_nodes
length-write_nodes [] = omega arith
length-write_nodes (n ∷ ns) =
    omega (arith, length-append (net 8 n) (write_nodes ns), length-net 8 n, length-write_nodes ns)

-- Reading an advertised node set whose fields fit their types, with fewer than 2 ^ 16 nodes,
-- gives it back.
pub read_sns-advertised :
    (s : SubscribeNodeSet) → IsSns s → read_sns false (append_body false [] s) ≡ done (s, [])
unfolding read_sns append_body append_sns
read_sns-advertised s h =
    read_step (read_value 4) _ (read_value-net 4 s.id _ h.id)
    ∙ read_step read_byte _ (read_byte-cons s.priority _)
    ∙ read_step (read_value 2) _ (read_value-wrapped 2 (length s.nodes) _ h.count)
    ∙ read_step (read_nodes (length s.nodes) []) _
        (rw append-nil at (read_each_node s.nodes [] h.sorted h.nodes))

-- Of a withdrawn one the identifier comes through, and the rest is what the constructor sets.
pub read_sns-withdrawn :
    (s : SubscribeNodeSet)
    → s.id < 2 ^ 32
    → read_sns true (append_body true [] s) ≡ done (record default_sns { id = s.id }, [])
unfolding read_sns append_body
read_sns-withdrawn s h = read_step (read_value 4) _ (rw append-nil at (read_value-net 4 s.id [] h))

-- The size that goes into the common headers of a node set of fewer than 2 ^ 16 nodes is the
-- length of what follows them.
pub length-append_body :
    (withdraw : Bool) (bytes : List ℕ) (s : SubscribeNodeSet)
    → length s.nodes < 2 ^ 16
    → length (append_body withdraw bytes s) ≡ length bytes + size_bytes withdraw s
unfolding append_body append_sns size_bytes
length-append_body true bytes s h = simp (length-append, length-net)
length-append_body false bytes s h =
    simp (length-append, length-net, length-write_nodes) (omega arith)
