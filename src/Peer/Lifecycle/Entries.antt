-- ===== src/Peer/Lifecycle/Entries.antt =====
-- The table of the sessions that this side opened, in src/peering/peer_manager.cc.
use laps.Prelude.{
  ℕ, ◌≡◌, ◌⊎◌, refl, Bool, true, false, [], ◌∷◌, Option, none, some, ◌==◌, inl, inr, Bool-cases,
  ==_iff, arith,
}
use laps.Prelude.SortedMap.{Map, lookup, insert, nat_key, lookup-insert}
use laps.Peer.Session.{Session, StatusValue, connecting, connected, disconnected}
use laps.Peer.World.{World}

abbrev pub is_up : StatusValue → Bool
is_up disconnected = false
is_up _ = true

pub status-cases : (s : StatusValue) → (s ≡ disconnected) ⊎ ((s ≡ connecting) ⊎ (s ≡ connected))
status-cases connecting = inr (inl refl)
status-cases connected = inr (inr refl)
status-cases disconnected = inl refl

-- No number is in the table twice.
abbrev pub AllDistinct : Map ℕ ℕ → Type 0
AllDistinct [] = Unit {0}
AllDistinct ((id, _) ∷ m) = (lookup id m ≡ none) × AllDistinct m

-- Every pointer was moved.
abbrev pub AllMoved : Map ℕ (Option ℕ) → Type 0
AllMoved [] = Unit {0}
AllMoved ((_, left) ∷ old) = (left ≡ none) × AllMoved old

module _ {Namespace : Type 0} where
  -- The session is alive, this side opened it, and it stands under its number.
  pub record IsEntry (w : World Namespace) (id object : ℕ) : Type 0 where
    pub session : Session
    pub there : lookup object w.objects ≡ some session
    pub outbound : session.is_inbound ≡ false
    pub numbered : session.t_conn_id ≡ id
    pub found : lookup id w.client_peer_sessions ≡ some object

  abbrev pub AllEntries : World Namespace → Map ℕ ℕ → Type 0
  AllEntries w [] = Unit {0}
  AllEntries w ((id, object) ∷ m) = IsEntry w id object × AllEntries w m

  -- The session is alive, connected or connecting, and in the table under its number.
  pub record IsHeld (w : World Namespace) (object : ℕ) : Type 0 where
    pub session : Session
    pub there : lookup object w.objects ≡ some session
    pub up : is_up session.status ≡ true
    pub found : lookup session.t_conn_id w.client_peer_sessions ≡ some object

  abbrev pub AllHeld : World Namespace → Map ℕ ℕ → Type 0
  AllHeld w [] = Unit {0}
  AllHeld w ((_, object) ∷ m) = IsHeld w object × AllHeld w m

  -- Held, under a number that is not to be erased, and that was in the table for none but it.
  pub record Stands (w w' : World Namespace) (m : Map ℕ ℕ) (old : Map ℕ (Option ℕ)) (object : ℕ)
      : Type 0 where
    pub held : IsHeld w' object
    pub stays : lookup held.session.t_conn_id old ≡ none
    pub apart :
        (k o : ℕ)
        → lookup k w.client_peer_sessions ≡ some o
        → lookup k m ≡ none
        → (k == held.session.t_conn_id) ≡ false

  abbrev pub AllStand :
      World Namespace → World Namespace → Map ℕ ℕ → Map ℕ (Option ℕ) → Map ℕ ℕ → Type 0
  AllStand w w' m old [] = Unit {0}
  AllStand w w' m old ((_, object) ∷ rest) = Stands w w' m old object × AllStand w w' m old rest

pub lookup-tail :
    {A : Type 0} (k id : ℕ) (a : A) (m : Map ℕ A)
    → lookup k ((id, a) ∷ m) ≡ none
    → ((id == k) ≡ false) × (lookup k m ≡ none)
unfolding lookup
lookup-tail k id a m e = elim (Bool-cases (id == k)) [
  | inl same ↦ absurd (cc (rw same at e))
  | inr other ↦ (other, rw other at e)
]

pub lookup_cons :
    {A : Type 0} (k id : ℕ) (a : A) (m : Map ℕ A)
    → (id == k) ≡ false
    → lookup k m ≡ none
    → lookup k ((id, a) ∷ m) ≡ none
unfolding lookup
lookup_cons k id a m other e = rw other e

pub lookup_self : (id a : ℕ) (m : Map ℕ ℕ) → lookup id ((id, a) ∷ m) ≡ some a
unfolding lookup
lookup_self id a m = rw ((==_iff id id).1 refl) refl

-- One number is in the table and another is not.
pub apart_of :
    (k n o : ℕ) (m : Map ℕ ℕ) → lookup k m ≡ some o → lookup n m ≡ none → (k == n) ≡ false
apart_of k n o m there missing = elim (Bool-cases (k == n)) [
  | inl same ↦ let e = (==_iff k n).0 same in absurd (cc (rw e at there, missing))
  | inr other ↦ other
]

pub flip_apart : (k n : ℕ) → (k == n) ≡ false → (n == k) ≡ false
flip_apart k n e = ground arith

module _ {Namespace : Type 0} where
  pub lookup-entries :
      (k : ℕ) (w : World Namespace) (m : Map ℕ ℕ)
      → AllEntries w m
      → lookup k w.client_peer_sessions ≡ none
      → lookup k m ≡ none
  unfolding lookup
  lookup-entries k w [] all missing = refl
  lookup-entries k w ((id, object) ∷ m) (entry, all) missing =
      lookup_cons k id object m (apart_of id k object w.client_peer_sessions entry.found missing)
        (lookup-entries k w m all missing)

  -- The other entries are not touched by a session that gets a new number.
  pub entries_kept :
      (w w' : World Namespace) (id object : ℕ) (s' : Session) (m : Map ℕ ℕ)
      → IsEntry w id object
      → lookup id m ≡ none
      → w'.objects ≡ insert object s' w.objects
      → ((k o : ℕ)
          → lookup k w.client_peer_sessions ≡ some o
          → lookup k w'.client_peer_sessions ≡ some o)
      → AllEntries w m
      → AllEntries w' m
  entries_kept w w' id object s' [] entry missing objects grows all = tt
  entries_kept w w' id object s' ((id', o) ∷ m) entry missing objects grows (other, all) =
      let (differs, rest) = lookup-tail id id' o m missing in
      (
        elim (Bool-cases (object == o)) [
          | inl same ↦
              let e = (==_iff object o).0 same in
              let both : entry.session ≡ other.session = cc (entry.there, other.there, e) in
              let ids : id' ≡ id = cc (entry.numbered, other.numbered, both) in
              absurd (cc (differs, (==_iff id' id).1 ids))
          | inr apart ↦ record {
            session = other.session;
            there = rw (objects, lookup-insert, apart) other.there;
            outbound = other.outbound;
            numbered = other.numbered;
            found = grows id' o other.found;
          }
        ],
        entries_kept w w' id object s' m entry rest objects grows all,
      )

  -- A session that is not at this entry is where it was.
  pub elsewhere :
      (id object : ℕ) (w : World Namespace) (entry : IsEntry w id object) (s' : Session) (o : ℕ)
      (s : Session)
      → lookup o w.objects ≡ some s
      → (id == s.t_conn_id) ≡ false
      → lookup o (insert object s' w.objects) ≡ some s
  elsewhere id object w entry s' o s here differs = elim (Bool-cases (object == o)) [
    | inl same ↦
        let e = (==_iff object o).0 same in
        let both : entry.session ≡ s = cc (entry.there, here, e) in
        let ids : id ≡ s.t_conn_id = cc (entry.numbered, both) in
        absurd (cc (differs, (==_iff id s.t_conn_id).1 ids))
    | inr apart ↦ rw (lookup-insert, apart) here
  ]
