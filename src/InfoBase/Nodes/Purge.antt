-- ===== src/InfoBase/Nodes/Purge.antt =====
-- `PurgePeerSessionInfo`: nothing of the session is left in the tables of nodes.
use laps.Prelude.{
  ℕ, ◌≡◌, ◌≢◌, refl, sym, ap, ◌∙◌, false, List, [], ◌∷◌, Option, none, some, ◌&&◌, ◌==◌,
  if◌then◌else◌, arith, inl, inr, Bool-cases, Option-cases, ==_iff, ==-self, is_some,
}
use laps.Prelude.Outcome.{done}
use laps.Prelude.SortedSet.{contains}
use laps.Prelude.SortedMap.{Map, lookup, erase, nat_key, pair_key, lookup-erase}
use laps.InfoBase.State.{Sessions, NodeItem, InfoBase}
use laps.InfoBase.Nodes.{set_at, purge_nodes, purge_fib, purge_peer_session_info}
use laps.InfoBase.Nodes.Routed.{IsRouted, reselect-IsRouted}
use laps.InfoBase.Nodes.Consistent.{IsConsistent}

-- Where a node has no entry by a session, it is not reached by a session object with that id.
unreached :
    (lock : Sessions) (nodes : Map (ℕ × ℕ) NodeItem) (best : Map ℕ ℕ) (id : ℕ)
    → IsRouted lock nodes best
    → ((n : ℕ) → lookup (n, id) nodes ≡ none)
    → (n session : ℕ) → lookup n best ≡ some session
    → lock session ≢ some id
unreached lock nodes best id r gone n session e at_id =
    let (info, (i, item, at_i, entry, _)) = r.known n session e in
    let same : i ≡ id = cc in let absent = ap (λ x. lookup (n, x) nodes) same ∙ gone n in cc

not_there : {A : Type 0} (o : Option A) → is_some o ≡ false → o ≡ none
not_there none e = refl
not_there (some a) e = absurd (cc)

-- With no entry by a session in the set of the session, none is in the table.
absent_entry :
    (nodes : Map (ℕ × ℕ) NodeItem) (sets : Map ℕ (List ℕ)) (id n : ℕ)
    → contains n (set_at (lookup id sets)) ≡ is_some (lookup (n, id) nodes)
    → lookup id sets ≡ none
    → lookup (n, id) nodes ≡ none
unfolding contains
absent_entry nodes sets id n e absent =
    not_there (lookup (n, id) nodes) (sym e ∙ ap (λ x. contains n (set_at x)) absent)

still_absent :
    (nodes : Map (ℕ × ℕ) NodeItem) (id n s : ℕ)
    → lookup (n, id) nodes ≡ none
    → lookup (n, s) nodes ≡ (if id == s then none else lookup (n, s) nodes)
still_absent nodes id n s gone = elim (Bool-cases (id == s)) [
  | inl same ↦ rw same (ap (λ x. lookup (n, x) nodes) (sym ((==_iff id s).0 same)) ∙ gone)
  | inr other ↦ rw other refl
]

-- The loop over the set of a session takes every entry by the session.
purged_entry :
    (nodes : Map (ℕ × ℕ) NodeItem) (sets : Map ℕ (List ℕ)) (id n s : ℕ) (ids : List ℕ)
    → contains n (set_at (lookup id sets)) ≡ is_some (lookup (n, id) nodes)
    → lookup id sets ≡ some ids
    → (if id == s && contains n ids then none else lookup (n, s) nodes)
      ≡ (if id == s then none else lookup (n, s) nodes)
purged_entry nodes sets id n s ids indexed present = elim (Bool-cases (id == s)) [
  | inl same ↦ elim (Bool-cases (contains n ids)) [
    | inl member ↦ rw (same, member) refl
    | inr other ↦
        let gone =
          not_there (lookup (n, id) nodes)
            (sym indexed ∙ ap (λ x. contains n (set_at x)) present ∙ other) in
        rw (same, other) (ap (λ x. lookup (n, x) nodes) (sym ((==_iff id s).0 same)) ∙ gone)
  ]
  | inr other ↦ rw other refl
]

indexed_without :
    (id n s : ℕ) (nodes nodes' : Map (ℕ × ℕ) NodeItem) (sets : Map ℕ (List ℕ))
    → contains n (set_at (lookup s sets)) ≡ is_some (lookup (n, s) nodes)
    → lookup (n, s) nodes' ≡ (if id == s then none else lookup (n, s) nodes)
    → contains n (set_at (lookup s (erase id sets))) ≡ is_some (lookup (n, s) nodes')
unfolding contains
indexed_without id n s nodes nodes' sets indexed entry = elim (Bool-cases (id == s)) [
  | inl same ↦ rw (lookup-erase, entry, same) refl
  | inr other ↦ rw (lookup-erase, entry, other) indexed
]

module _ {Namespace : Type 0} (lock : Sessions) where
  -- What the loop over the nodes of a session leaves.
  abbrev pub Purged : InfoBase Namespace → ℕ → List ℕ → Type 0
  Purged ib id ids =
      (nodes' : Map (ℕ × ℕ) NodeItem) × (best' : Map ℕ ℕ) × (purge_nodes lock ib id ids
        ≡ done (record ib { nodes = nodes'; nodes_best = best' }))
      × IsRouted lock nodes' best'
      × ((n s : ℕ)
          → lookup (n, s) nodes'
            ≡ (if id == s && contains n ids then none else lookup (n, s) ib.nodes))

  purge_nodes-Purged :
      (ids : List ℕ) (ib : InfoBase Namespace) (id : ℕ)
      → IsRouted lock ib.nodes ib.nodes_best
      → Purged ib id ids
  unfolding purge_nodes contains
  purge_nodes-Purged [] ib id r = (ib.nodes, ib.nodes_best, refl, r, λ n s. ground arith)
  purge_nodes-Purged (node_id ∷ ids) ib id r =
      let (best₁, run₁, r₁) = reselect-IsRouted lock ib ib.nodes_by_peer_session node_id id r in
      let (nodes', best', run, r', left) =
        purge_nodes-Purged ids
          (record ib { nodes = erase (node_id, id) ib.nodes; nodes_best = best₁ }) id r₁ in
      (nodes', best', rw run₁ run, r', λ n s. left n s ∙ rw lookup-erase (ground arith))

  -- `PurgePeerSessionInfo` returns and keeps the tables of nodes together. Afterwards no node has an entry
  -- by the session, the entries of all other sessions are as before, and no node is reached by a
  -- session object with that id.
  pub purge_peer_session_info-IsConsistent :
      (ib : InfoBase Namespace) (id : ℕ)
      → IsConsistent lock ib
      → (ib' : InfoBase Namespace) × (purge_peer_session_info lock ib id ≡ done ib')
        × IsConsistent lock ib'
        × ((n s : ℕ) → lookup (n, s) ib'.nodes ≡ (if id == s then none else lookup (n, s) ib.nodes))
        × ((n session : ℕ) → lookup n ib'.nodes_best ≡ some session → lock session ≢ some id)
  unfolding purge_peer_session_info purge_fib
  purge_peer_session_info-IsConsistent ib id c =
      elim (Option-cases (lookup id ib.nodes_by_peer_session)) [
        | inl absent ↦
            let gone = λ (n : ℕ).
              absent_entry ib.nodes ib.nodes_by_peer_session id n (c.indexed id n) absent in
            (
              purge_fib ib id,
              rw (purge_peer_session_info, absent) refl,
              record { routed = c.routed; indexed = c.indexed },
              λ n s. still_absent ib.nodes id n s (gone n),
              unreached lock ib.nodes ib.nodes_best id c.routed gone,
            )
        | inr (ids, present) ↦
            let (nodes', best', run, r, left) = purge_nodes-Purged ids ib id c.routed in
            let entries = λ (n s : ℕ).
              left n s
              ∙ purged_entry ib.nodes ib.nodes_by_peer_session id n s ids (c.indexed id n)
                  present in
            (
              purge_fib
                  (record ib {
                    nodes = nodes';
                    nodes_best = best';
                    nodes_by_peer_session = erase id ib.nodes_by_peer_session;
                  })
                  id,
              rw (purge_peer_session_info, present, run) refl,
              record {
                routed = r;
                indexed = λ s n.
                    indexed_without id n s ib.nodes nodes' ib.nodes_by_peer_session (c.indexed s n)
                      (entries n s);
              },
              entries,
              unreached lock nodes' best' id r (λ n. entries n id ∙ rw (==-self id) refl),
            )
      ]
