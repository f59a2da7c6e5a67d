-- ===== src/Messages/TrackNamespace.antt =====
-- `quicr::TrackNamespace` and `quicr::TrackHash` of the transport library, which is not part of
-- the repository: a namespace is a value of some type with a list of byte strings, its entries.
use laps.Prelude.{ℕ, ◌+◌, ◌≡◌, List, [], ◌∷◌, length}

pub record TrackNamespaces (Namespace : Type 0) : Type 0 where
  -- `GetEntries()`.
  pub entries : Namespace → List (List ℕ)
  -- `size()`.
  pub size : Namespace → ℕ
  -- The constructor from a list of entries.
  pub of_entries : List (List ℕ) → Namespace

abbrev pub total_length : List (List ℕ) → ℕ
total_length [] = 0
total_length (e ∷ es) = length e + total_length es

-- A namespace is made of its entries, and its size is their length.
pub record TrackNamespacesLaws {Namespace : Type 0} (t : TrackNamespaces Namespace) : Type 0 where
  pub of_entries-entries : (n : Namespace) → t.of_entries (t.entries n) ≡ n
  pub size-entries : (n : Namespace) → t.size n ≡ total_length (t.entries n)
