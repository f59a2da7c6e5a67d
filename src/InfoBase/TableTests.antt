-- ===== src/InfoBase/TableTests.antt =====
-- The tables of subscribes and announces on small inputs.
use laps.Prelude.{
  ℕ, ◌+◌, ◌*◌, ◌≡◌, true, false, List, [], ◌∷◌, none, some, ◌&&◌, ◌||◌, ◌==◌, length, if◌then◌else◌,
}
use laps.Prelude.SortedSet.{contains}
use laps.Prelude.SortedMap.{lookup}
use laps.Messages.SubscribeInfo.{SubscribeInfo}
use laps.Messages.AnnounceInfo.{AnnounceInfo}
use laps.InfoBase.State.{InfoBase}
use laps.InfoBase.Subscribes.{add_subscribe, remove_subscribe}
use laps.InfoBase.Subscribes.Table.{find, add_subscribe-find, remove_subscribe-find}
use laps.InfoBase.Announces.{
  Hashes, prefix_hashes, prefix_hash_namespace_tuples, add_announce, remove_announce,
}
use laps.InfoBase.Announces.Table.{announced, is_under, add_announce-find, remove_announce-find}

abbrev subscribe : SubscribeInfo
subscribe = record {
  seq = 4;
  source_node_id = 9;
  track_hash = record { track_namespace_hash = 1; track_name_hash = 2; track_fullname_hash = 5 };
  subscribe_data = [];
}

abbrev announce : AnnounceInfo (List ℕ)
announce = record {
  source_node_id = 9;
  name_space = 1 ∷ 2 ∷ [];
  name = [];
  fullname_hash = 5;
  flags = 0;
}

-- Node 9 has subscribed, and nodes 8 and 9 announce the same name.
abbrev tables : InfoBase (List ℕ)
tables = record {
  nodes = [];
  nodes_best = [];
  subscribes = (5, (9, subscribe) ∷ []) ∷ [];
  client_fib = [];
  peer_fib = [];
  announces = (5, (8, record announce { source_node_id = 8 }) ∷ (9, announce) ∷ []) ∷ [];
  prefix_lookup_announces = (11, 5 ∷ []) ∷ (122, 5 ∷ []) ∷ [];
  nodes_by_peer_session = [];
}

abbrev next : SubscribeInfo
next = record subscribe { seq = 5 }

add_subscribe-find_example :
    ((add_subscribe tables next).1 ≡ true)
    × ((h n : ℕ)
        → find (add_subscribe tables next).0 h n
          ≡ (if 5 == h && 9 == n then some next else find tables h n))
unfolding lookup
add_subscribe-find_example = add_subscribe-find tables next

remove_subscribe-find_example :
    ((remove_subscribe tables next).1 ≡ true)
    × ((h n : ℕ)
        → find (remove_subscribe tables next).0 h n
          ≡ (if 5 == h && 9 == n then none else find tables h n))
unfolding lookup
remove_subscribe-find_example = remove_subscribe-find tables next

abbrev sum_hashes : Hashes (List ℕ)
sum_hashes = record {
  get_hashes = λ name_space. name_space;
  hash_combine = λ hash x. hash * 10 + x + 10;
  track_fullname_hash = λ name_space name. length name_space + length name;
}

-- Node 10 announces the name too.
abbrev third : AnnounceInfo (List ℕ)
third = record announce { source_node_id = 10 }

add_announce-find_example :
    ((add_announce sum_hashes tables third).1 ≡ true)
    × ((f n : ℕ)
        → announced (add_announce sum_hashes tables third).0 f n
          ≡ (if 5 == f && 10 == n then some third else announced tables f n))
    × ((f p : ℕ)
        → is_under f p (add_announce sum_hashes tables third).0.prefix_lookup_announces
          ≡ ((contains p (11 ∷ 122 ∷ []) && 5 == f) || is_under f p tables.prefix_lookup_announces))
unfolding lookup add_announce prefix_hash_namespace_tuples prefix_hashes
add_announce-find_example = add_announce-find sum_hashes tables third

-- Node 8 still announces the name that is no longer found.
remove_announce-find_example :
    ((f n : ℕ)
      → announced (remove_announce sum_hashes tables announce).0 f n
        ≡ (if 5 == f && 9 == n then none else announced tables f n))
    × ((f p : ℕ)
        → is_under f p (remove_announce sum_hashes tables announce).0.prefix_lookup_announces ≡ (
            if contains p (11 ∷ 122 ∷ []) && 5 == f
            then false
            else is_under f p tables.prefix_lookup_announces))
unfolding lookup prefix_hash_namespace_tuples prefix_hashes
remove_announce-find_example = remove_announce-find sum_hashes tables announce
