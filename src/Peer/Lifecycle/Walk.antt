-- ===== src/Peer/Lifecycle/Walk.antt =====
-- The walk of `CheckThread` of src/peering/peer_manager.cc over the sessions of this side.
use laps.Prelude.{
  ℕ, ◌≡◌, refl, ◌∙◌, true, false, [], ◌∷◌, Option, none, some, ◌==◌, inl, inr, ==_iff,
}
use laps.Prelude.Outcome.{done}
use laps.Prelude.SortedMap.{Map, lookup, nat_key, lookup-insert}
use laps.Peer.Session.{Session}
use laps.Peer.World.{Transport, World}
use laps.Peer.World.Alive.{session_of_alive}
use laps.Peer.Lifecycle.{reconnect}
use laps.Peer.Lifecycle.Entries.{
  is_up, status-cases, AllDistinct, AllMoved, IsEntry, AllEntries, AllStand, lookup-tail,
  lookup_cons, apart_of, lookup-entries, entries_kept, flip_apart, elsewhere,
}
use laps.Peer.Lifecycle.Renewal.{NumbersApart, IsFresh, Renewed, reconnect-Renewed}

module _ {Namespace : Type 0} (q : Transport Namespace) where
  -- What a walk over entries of the table leaves.
  pub record Walked (m : Map ℕ ℕ) (w : World Namespace) : Type 0 where
    pub old : Map ℕ (Option ℕ)
    pub last : World Namespace
    pub run : reconnect q m w ≡ (done old, last)
    pub moved : AllMoved old
    pub among : (k : ℕ) → lookup k m ≡ none → lookup k old ≡ none
    pub objects :
        (o : ℕ) (s : Session)
        → lookup o w.objects ≡ some s
        → lookup s.t_conn_id m ≡ none
        → lookup o last.objects ≡ some s
    pub table :
        (k o : ℕ)
        → lookup k w.client_peer_sessions ≡ some o
        → lookup k last.client_peer_sessions ≡ some o
    pub stand : AllStand w last m old m

  -- The later entries, seen from before the first.
  widen :
      (w w1 w' : World Namespace) (id object : ℕ) (m rest : Map ℕ ℕ) (old old' : Map ℕ (Option ℕ))
      → ((k o : ℕ)
          → lookup k w.client_peer_sessions ≡ some o
          → lookup k w1.client_peer_sessions ≡ some o)
      → lookup id w.client_peer_sessions ≡ some object
      → lookup id m ≡ none
      → ((n : ℕ) → (id == n) ≡ false → lookup n old ≡ none → lookup n old' ≡ none)
      → AllStand w1 w' m old rest
      → AllStand w w' ((id, object) ∷ m) old' rest
  widen w w1 w' id object m [] old old' grows found missing more all = tt
  widen w w1 w' id object m (_ ∷ rest) old old' grows found missing more (one, all) = (
    record {
      held = one.held;
      stays =
          more one.held.session.t_conn_id (one.apart id object (grows id object found) missing)
            one.stays;
      apart = λ k o there none_here.
          one.apart k o (grows k o there) (lookup-tail k id object m none_here).1;
    },
    widen w w1 w' id object m rest old old' grows found missing more all,
  )

  stays-Walked :
      (id object : ℕ) (m : Map ℕ ℕ) (w : World Namespace) (entry : IsEntry w id object)
      → is_up entry.session.status ≡ true
      → lookup id m ≡ none
      → reconnect q ((id, object) ∷ m) w ≡ reconnect q m w
      → Walked m w
      → Walked ((id, object) ∷ m) w
  stays-Walked id object m w entry up missing skip r =
      let number = entry.numbered in
      record {
        old = r.old;
        last = r.last;
        run = skip ∙ r.run;
        moved = r.moved;
        among = λ k e. r.among k (lookup-tail k id object m e).1;
        objects = λ o s here e. r.objects o s here (lookup-tail s.t_conn_id id object m e).1;
        table = r.table;
        stand = (
          record {
            held = record {
              session = entry.session;
              there = r.objects object entry.session entry.there (rw number missing);
              up = up;
              found = rw number (r.table id object entry.found);
            };
            stays = rw number (r.among id missing);
            apart = λ k o there none_here.
                rw number (flip_apart id k (lookup-tail k id object m none_here).0);
          },
          widen w w r.last id object m m r.old r.old (λ k o e. e) entry.found missing
              (λ n other e. e) r.stand,
        );
      }

  Renewed-Walked :
      (id object : ℕ) (m : Map ℕ ℕ) (w : World Namespace) (entry : IsEntry w id object)
      → AllEntries w m
      → lookup id m ≡ none
      → (a : Renewed q id object w) → Walked m a.next
      → Walked ((id, object) ∷ m) w
  Renewed-Walked id object m w entry all missing a r =
      let n = a.session.t_conn_id in
      let not_later = lookup-entries n w m all a.free in
      let grows : (k o : ℕ)
          → lookup k w.client_peer_sessions ≡ some o
          → lookup k a.next.client_peer_sessions ≡ some o =
        λ k o there.
          let other = flip_apart k n (apart_of k n o w.client_peer_sessions there a.free) in
          rw (a.table, lookup-insert, other) there in
      record {
        old = (id, none) ∷ r.old;
        last = r.last;
        run = a.step m r.old r.last r.run;
        moved = (refl, r.moved);
        among = λ k e.
            let (other, later) = lookup-tail k id object m e in
            lookup_cons k id none r.old other (r.among k later);
        objects = λ o s here e.
            let (other, later) = lookup-tail s.t_conn_id id object m e in
            r.objects o s (rw (a.objects) (elsewhere id object w entry a.session o s here other))
              later;
        table = λ k o there. r.table k o (grows k o there);
        stand = (
          record {
            held = record {
              session = a.session;
              there =
                  r.objects object a.session
                    (rw (a.objects, lookup-insert, (==_iff object object).1 refl) refl) not_later;
              up = a.up;
              found = r.table n object (rw (a.table, lookup-insert, (==_iff n n).1 refl) refl);
            };
            stays =
                lookup_cons n id none r.old
                  (apart_of id n object w.client_peer_sessions entry.found a.free)
                  (r.among n not_later);
            apart = λ k o there none_here. apart_of k n o w.client_peer_sessions there a.free;
          },
          widen w a.next r.last id object m m r.old ((id, none) ∷ r.old) grows entry.found missing
              (λ k other e. lookup_cons k id none r.old other e) r.stand,
        );
      }

  pub reconnect-Walked :
      (m : Map ℕ ℕ) (w : World Namespace)
      → NumbersApart q
      → IsFresh q w
      → AllDistinct m
      → AllEntries w m
      → Walked m w
  unfolding reconnect lookup
  reconnect-Walked [] w numbers fresh distinct all = record {
    old = [];
    last = w;
    run = refl;
    moved = tt;
    among = λ k e. refl;
    objects = λ o s here e. here;
    table = λ k o e. e;
    stand = tt;
  }
  reconnect-Walked ((id, object) ∷ m) w numbers fresh (missing, distinct) (entry, all) =
      elim (status-cases entry.session.status) [
        | inr (inl up) ↦
            stays-Walked id object m w entry (rw up refl) missing
              (rw (reconnect, session_of_alive object entry.session w entry.there, up) refl)
              (reconnect-Walked m w numbers fresh distinct all)
        | inr (inr up) ↦
            stays-Walked id object m w entry (rw up refl) missing
              (rw (reconnect, session_of_alive object entry.session w entry.there, up) refl)
              (reconnect-Walked m w numbers fresh distinct all)
        | inl down ↦
            let a = reconnect-Renewed q id object w numbers fresh entry down in
            let n = a.session.t_conn_id in
            let grows : (k o : ℕ)
                → lookup k w.client_peer_sessions ≡ some o
                → lookup k a.next.client_peer_sessions ≡ some o =
              λ k o there.
                let other = flip_apart k n (apart_of k n o w.client_peer_sessions there a.free) in
                rw (a.table, lookup-insert, other) there in
            Renewed-Walked id object m w entry all missing a (
              reconnect-Walked m a.next numbers a.fresh distinct
                (entries_kept w a.next id object a.session m entry missing a.objects grows all))
      ]
