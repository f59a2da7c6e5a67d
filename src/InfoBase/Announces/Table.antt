-- ===== src/InfoBase/Announces/Table.antt =====
-- The tables of announces: a partial map of full name and source node, and the full names under
-- each prefix.
use laps.Prelude.{
  ℕ, ◌≡◌, refl, sym, ap, ◌∙◌, Bool, true, false, not, List, [], ◌∷◌, Option, none, some, ◌&&◌, ◌||◌,
  ◌==◌, if◌then◌else◌, arith, inl, inr, Bool-cases, Option-cases, ==_iff, ==-self, is_some, All,
}
use laps.Prelude.SortedSet.{is_empty, contains, emplace, contains-emplace, contains-erase}
use laps.Prelude.SortedSet
use laps.Prelude.SortedMap.{Map, lookup, insert, erase, nat_key, lookup-insert, lookup-erase}
use laps.Messages.AnnounceInfo.{AnnounceInfo}
use laps.InfoBase.State.{InfoBase}
use laps.InfoBase.Nodes.{set_at}
use laps.InfoBase.Nested.{
  entry_at, entry_at-insert, entry_at-touch, entry_at-erase, entry_at-absent,
}
use laps.InfoBase.Announces.{
  Hashes, add_prefixes, drop_prefixes, erase_prefixes, prefix_hash_namespace_tuples, add_announce,
  remove_announce,
}

-- The announce of a source node for a full name.
abbrev pub announced :
    {Namespace : Type 0} → InfoBase Namespace → ℕ → ℕ → Option (AnnounceInfo Namespace)
announced ib fullname node_id = entry_at ib.announces fullname node_id

-- Whether a full name is found under a prefix.
abbrev pub is_under : ℕ → ℕ → Map ℕ (List ℕ) → Bool
is_under fullname prefix m = contains fullname (set_at (lookup prefix m))

insert-is_under :
    (h p x : ℕ) (s : List ℕ) (m : Map ℕ (List ℕ))
    → is_under x p (insert h s m) ≡ (if h == p then contains x s else is_under x p m)
insert-is_under h p x s m = elim (Bool-cases (h == p)) [
  | inl same ↦ rw (lookup-insert, same) refl
  | inr other ↦ rw (lookup-insert, other) refl
]

under_at :
    (h p x : ℕ) (s : List ℕ) (m : Map ℕ (List ℕ))
    → lookup h m ≡ some s
    → (h == p) ≡ true
    → is_under x p m ≡ contains x s
under_at h p x s m present same =
    ap (λ y. is_under x y m) (sym ((==_iff h p).0 same)) ∙ ap (λ y. contains x (set_at y)) present

under_absent :
    (h p x : ℕ) (m : Map ℕ (List ℕ)) → lookup h m ≡ none → (h == p) ≡ true → is_under x p m ≡ false
unfolding contains
under_absent h p x m absent same =
    ap (λ y. is_under x y m) (sym ((==_iff h p).0 same)) ∙ ap (λ y. contains x (set_at y)) absent

-- The element that is in a set adds nothing to it.
or_member : (f x : ℕ) (s : List ℕ) → contains f s ≡ true → (f == x || contains x s) ≡ contains x s
or_member f x s member = elim (Bool-cases (f == x)) [
  | inl same ↦ rw same (sym member ∙ ap (λ y. contains y s) ((==_iff f x).0 same))
  | inr other ↦ rw other refl
]

add_prefix-is_under :
    (f h p x : ℕ) (m : Map ℕ (List ℕ))
    → is_under x p (elim (lookup h m) [
      | none ↦ insert h (f ∷ []) m
      | some s ↦ if contains f s then m else insert h (emplace f s) m
    ])
      ≡ ((h == p && f == x) || is_under x p m)
add_prefix-is_under f h p x m = elim (Option-cases (lookup h m)) [
  | inl absent ↦ elim (Bool-cases (h == p)) [
    | inl same ↦
        rw (absent, insert-is_under, same, under_absent h p x m absent same)
          (unfold contains in refl)
    | inr other ↦ rw (absent, insert-is_under, other) refl
  ]
  | inr (s, present) ↦ elim (Bool-cases (contains f s)) [
    | inl member ↦ elim (Bool-cases (h == p)) [
      | inl same ↦
          rw (present, member, same, under_at h p x s m present same) (sym (or_member f x s member))
      | inr other ↦ rw (present, member, other) refl
    ]
    | inr other ↦ elim (Bool-cases (h == p)) [
      | inl same ↦
          rw
            (
              present,
              other,
              insert-is_under,
              contains-emplace,
              same,
              under_at h p x s m present same,
            )
            refl
      | inr apart ↦ rw (present, other, insert-is_under, apart) refl
    ]
  ]
]

or_cons : (a b c d : Bool) → ((b && c) || ((a && c) || d)) ≡ (((a || b) && c) || d)
or_cons a b c d = ground arith

if_cons :
    (a b c d e : Bool)
    → e ≡ (if a && c then false else d)
    → (if b && c then false else e) ≡ (if (a || b) && c then false else d)
if_cons a b c d e h = ground arith

add_prefixes-is_under :
    (f p x : ℕ) (hs : List ℕ) (m : Map ℕ (List ℕ))
    → is_under x p (add_prefixes f hs m) ≡ ((contains p hs && f == x) || is_under x p m)
unfolding add_prefixes contains
add_prefixes-is_under f p x [] m = refl
add_prefixes-is_under f p x (h ∷ hs) m =
    add_prefixes-is_under f p x hs _
    ∙ rw add_prefix-is_under (or_cons (h == p) (contains p hs) (f == x) (is_under x p m))

drop_prefix-is_under :
    (f h p x : ℕ) (s : List ℕ) (m : Map ℕ (List ℕ))
    → lookup h m ≡ some s
    → is_under x p (insert h (SortedSet.erase f s) m)
      ≡ (if h == p && f == x then false else is_under x p m)
drop_prefix-is_under f h p x s m present = elim (Bool-cases (h == p)) [
  | inl same ↦ rw (insert-is_under, contains-erase, same, under_at h p x s m present same) refl
  | inr other ↦ rw (insert-is_under, other) refl
]

both : (a b : Bool) → (a && b) ≡ true → (a ≡ true) × (b ≡ true)
both a b e = ground arith

keep_prefix-is_under :
    (f h p x : ℕ) (m : Map ℕ (List ℕ))
    → is_under f h m ≡ false
    → is_under x p m ≡ (if h == p && f == x then false else is_under x p m)
keep_prefix-is_under f h p x m gone = elim (Bool-cases (h == p && f == x)) [
  | inl same ↦
      let (here, there) = both (h == p) (f == x) same in
      rw same (
        ap (λ y. is_under x y m) (sym ((==_iff h p).0 here))
        ∙ (ap (λ y. is_under y h m) (sym ((==_iff f x).0 there)) ∙ gone))
  | inr other ↦ rw other refl
]

drop_prefixes-is_under :
    (f p x : ℕ) (hs : List ℕ) (m : Map ℕ (List ℕ))
    → is_under x p (drop_prefixes f hs m).0
      ≡ (if contains p hs && f == x then false else is_under x p m)
unfolding drop_prefixes contains
drop_prefixes-is_under f p x [] m = refl
drop_prefixes-is_under f p x (h ∷ hs) m = elim (Option-cases (lookup h m)) [
  | inl absent ↦
      rw (drop_prefixes, absent)
        (drop_prefixes-is_under f p x hs m
          ∙ next m (keep_prefix-is_under f h p x m (under_absent h h f m absent (==-self h))))
  | inr (s, present) ↦ elim (Bool-cases (contains f s)) [
    | inl member ↦
        let m' = insert h (SortedSet.erase f s) m in
        rw (drop_prefixes, present, member)
          (drop_prefixes-is_under f p x hs m' ∙ next m' (drop_prefix-is_under f h p x s m present))
    | inr other ↦
        rw (drop_prefixes, present, other)
          (drop_prefixes-is_under f p x hs m
            ∙ next m
                (keep_prefix-is_under f h p x m (under_at h h f s m present (==-self h) ∙ other)))
  ]
]
  where
    next :
        (m' : Map ℕ (List ℕ))
        → is_under x p m' ≡ (if h == p && f == x then false else is_under x p m)
        → (if contains p hs && f == x then false else is_under x p m')
          ≡ (if (h == p || contains p hs) && f == x then false else is_under x p m)
    next m' e = if_cons (h == p) (contains p hs) (f == x) (is_under x p m) (is_under x p m') e

-- No full name is under the prefix.
abbrev Vacant : Map ℕ (List ℕ) → ℕ → Type 0
Vacant m prefix = (x : ℕ) → is_under x prefix m ≡ false

All-mono : {P Q : ℕ → Type 0} → ((a : ℕ) → P a → Q a) → (xs : List ℕ) → All P xs → All Q xs
All-mono f [] all = tt
All-mono f (x ∷ xs) all = (f x all.0, All-mono f xs all.1)

empty-Vacant :
    (h : ℕ) (s : List ℕ) (m : Map ℕ (List ℕ)) → is_empty s ≡ true → Vacant (insert h s m) h
unfolding contains
empty-Vacant h [] m e x = rw (insert-is_under, ==-self h) refl
empty-Vacant h (y ∷ s) m e x = absurd (cc)

Vacant-drop_prefixes :
    (f e : ℕ) (hs : List ℕ) (m : Map ℕ (List ℕ)) → Vacant m e → Vacant (drop_prefixes f hs m).0 e
Vacant-drop_prefixes f e hs m v x = rw (drop_prefixes-is_under, v) (ground arith)

drop_prefixes-Vacant :
    (f : ℕ) (hs : List ℕ) (m : Map ℕ (List ℕ))
    → All (Vacant (drop_prefixes f hs m).0) (drop_prefixes f hs m).2
unfolding drop_prefixes
drop_prefixes-Vacant f [] m = tt
drop_prefixes-Vacant f (h ∷ hs) m = elim (Option-cases (lookup h m)) [
  | inl absent ↦ rw (drop_prefixes, absent) (drop_prefixes-Vacant f hs m)
  | inr (s, present) ↦ elim (Bool-cases (contains f s)) [
    | inl member ↦
        let m' = insert h (SortedSet.erase f s) m in
        elim (Bool-cases (is_empty (SortedSet.erase f s))) [
          | inl e ↦
              rw (drop_prefixes, present, member, e)
                (
                  Vacant-drop_prefixes f h hs m' (empty-Vacant h (SortedSet.erase f s) m e),
                  drop_prefixes-Vacant f hs m',
                )
          | inr e ↦ rw (drop_prefixes, present, member, e) (drop_prefixes-Vacant f hs m')
        ]
    | inr other ↦ rw (drop_prefixes, present, other) (drop_prefixes-Vacant f hs m)
  ]
]

erase-Vacant :
    (e p x : ℕ) (m : Map ℕ (List ℕ)) → Vacant m e → is_under x p (erase e m) ≡ is_under x p m
unfolding contains
erase-Vacant e p x m v = elim (Bool-cases (e == p)) [
  | inl same ↦ rw (lookup-erase, same) (sym (v x) ∙ ap (λ y. is_under x y m) ((==_iff e p).0 same))
  | inr other ↦ rw (lookup-erase, other) refl
]

erase_prefixes-is_under :
    (p x : ℕ) (es : List ℕ) (m : Map ℕ (List ℕ))
    → All (Vacant m) es
    → is_under x p (erase_prefixes es m) ≡ is_under x p m
unfolding erase_prefixes
erase_prefixes-is_under p x [] m all = refl
erase_prefixes-is_under p x (e ∷ es) m all =
    erase_prefixes-is_under p x es (erase e m)
      (All-mono (λ a v y. erase-Vacant e a y m all.0 ∙ v y) es all.1)
    ∙ erase-Vacant e p x m all.0

module _ {Namespace : Type 0} (q : Hashes Namespace) where
  -- `AddAnnounce`: it returns whether the source node had not announced the full name. Only then
  -- the announce is stored, and its full name is found under every prefix of its namespace. The
  -- rest of both tables is as before.
  pub add_announce-find :
      (ib : InfoBase Namespace) (a : AnnounceInfo Namespace)
      → let full = a.fullname_hash in
        let (ib', is_new) = add_announce q ib a in
        (is_new ≡ not (is_some (announced ib full a.source_node_id)))
        × ((f n : ℕ)
            → announced ib' f n ≡ (
                if is_new && (full == f && a.source_node_id == n)
                then some a
                else announced ib f n))
        × ((f p : ℕ)
            → is_under f p ib'.prefix_lookup_announces ≡ (
                (is_new && (contains p (prefix_hash_namespace_tuples q a.name_space) && full == f))
                || is_under f p ib.prefix_lookup_announces))
  unfolding add_announce
  add_announce-find ib a = elim (Option-cases (announced ib a.fullname_hash a.source_node_id)) [
    | inl absent ↦ (
      rw (add_announce, absent) refl,
      λ f n.
          rw (add_announce, absent)
            (entry_at-insert ib.announces a.fullname_hash a.source_node_id f n a),
      λ f p.
          rw (add_announce, absent)
            (add_prefixes-is_under a.fullname_hash p f (prefix_hash_namespace_tuples q a.name_space)
              ib.prefix_lookup_announces),
    )
    | inr (old, present) ↦ (
      rw (add_announce, present) refl,
      λ f n. rw (add_announce, present) (entry_at-touch ib.announces a.fullname_hash f n),
      λ f p. rw (add_announce, present) refl,
    )
  ]

  -- `RemoveAnnounce`: the source node no longer announces the full name, and the rest of the
  -- announces is as before. Where the table of announces has a row for the full name, the name is
  -- no longer found under the prefixes of the namespace, and the rest of that table is as before.
  pub remove_announce-find :
      (ib : InfoBase Namespace) (a : AnnounceInfo Namespace)
      → let full = a.fullname_hash in
        let ib' = (remove_announce q ib a).0 in
        ((f n : ℕ)
          → announced ib' f n
            ≡ (if full == f && a.source_node_id == n then none else announced ib f n))
        × ((f p : ℕ)
            → is_under f p ib'.prefix_lookup_announces ≡ (
                if is_some (lookup full ib.announces)
                  && (contains p (prefix_hash_namespace_tuples q a.name_space) && full == f)
                then false
                else is_under f p ib.prefix_lookup_announces))
  unfolding remove_announce
  remove_announce-find ib a = elim (Option-cases (lookup a.fullname_hash ib.announces)) [
    | inl absent ↦ (
      λ f n.
          rw (remove_announce, absent)
            (entry_at-absent ib.announces a.fullname_hash a.source_node_id f n
              (rw absent (unfold lookup in refl))),
      λ f p. rw (remove_announce, absent) refl,
    )
    | inr (m, present) ↦
        let hs = prefix_hash_namespace_tuples q a.name_space in
        let prefixes = drop_prefixes a.fullname_hash hs ib.prefix_lookup_announces in
        (
          λ f n.
              rw (remove_announce, present)
                (entry_at-erase ib.announces a.fullname_hash a.source_node_id f n m present),
          λ f p.
              rw (remove_announce, present)
                (erase_prefixes-is_under p f prefixes.2 prefixes.0
                    (drop_prefixes-Vacant a.fullname_hash hs ib.prefix_lookup_announces)
                  ∙ drop_prefixes-is_under a.fullname_hash p f hs ib.prefix_lookup_announces),
        )
  ]
