-- ===== src/Lib.antt =====
-- laps is a relay for media over QUIC. Relays peer with each other: they exchange node infos,
-- subscribes and announces over control streams, keep them in an information base, and forward
-- data objects behind a short header. This library models src/peering of the repository: the
-- messages of the peering protocol, the information base, and the peer sessions with their manager.
-- Of the rest of src it models the ranking of tracks, and the handlers that receive a track and that
-- publish the tracks of a namespace.
--
-- Prelude: numbers, tests, lists, and the containers of the C++ library as far as the code uses
-- them: SortedMap for std::map and std::unordered_map, a list of pairs in the order of its keys;
-- SortedSet for std::set; Outcome for the ends of a call: a value, an exception, undefined
-- behaviour; Action for calls that change a state, in do blocks. The order of a walk over an
-- unordered map is not seen: it only logs, it erases entry by entry, it looks whether an entry is
-- there, or it is followed by a sort.
--
-- Wire: src/peering/common.h. Bytes are numbers, integers are written in network order, and a
-- reader takes bytes from the front; to read past the end is a fault. The host is little endian.
--
-- Messages: src/peering/messages. One module for each class, named as the class, with size_bytes
-- for SizeBytes, append_... for operator<<, serialize for Serialize and read_... for the
-- constructor from bytes; the RoundTrip modules relate writing to reading. Integers keep the width
-- of their C++ types, also in the lengths that are cut off. Doubles are moved as bit patterns.
-- UintVar and TrackNamespace are the transport library's: parameters, with the laws that the code
-- relies on. NodeId is the class of that name, in node_info.h, with std::stoul and the decimal
-- output of 16-bit numbers, whose fuel of 5 is the number of digits. The loop over path items has
-- the number of bytes as its fuel, and each round takes 16.
--
-- InfoBase: src/peering/info_base.h and info_base.cc. The tables are one record, State.InfoBase,
-- and each operation is a function on it, in snake case under its own name. Session objects are
-- numbers; what `lock()` and `GetSessionId()` give at a time is a function of them. Select is
-- SelectBestNode, Nodes the tables of nodes, Subscribes and Announces theirs, Nested what the last
-- two share. The hashes of namespaces and names are parameters. Peer calls these operations.
--
-- Peer: src/peering/peer_session and peer_manager, .h and .cc. Session.Session is the class
-- PeerSession, World.World the class PeerManager with the session objects that are alive, and an
-- operation is an Action on one of them, in snake case under its own name where no other class has
-- that name. What the code asks of the transport library and of the client manager is an Event in
-- the log of the state, the newest first; what the library answers is a parameter, as are its parser
-- of subscribe messages and its hashes, all in the record World.Transport. A weak pointer is the
-- number of an object that may be gone; to follow it then is a fault, as is a client manager that was
-- not set. Random numbers and the numbers of new objects are arguments. Session has the senders,
-- NodeSets the node sets of a session, Frame the cutting of the control stream into messages. Of the
-- manager Nodes has the node infos, Forward and ClientData the data, Subscribes and Announces these
-- infos, Sns the node sets that peers announce, Lifecycle the status of sessions and a round of the
-- check thread, and Receive what a session does with the bytes that arrive. The mutexes of the
-- manager are not in the state: an operation is one step. Where SessionChanged locks a mutex that it
-- holds, the outcome is a fault.
--
-- Ranking: src/track_ranking.h. The class is the record TrackRanking, UpdateValue is update_value,
-- and each loop in it is a function by its own. A handler is a number; whether its weak pointer is
-- still good is a function of it.
--
-- PublishNamespace: src/publish_namespace_handler, .h and .cc. The handler of a namespace holds the
-- tracks that are published to one connection; update_track_ranking is UpdateTrackRanking, which the
-- track ranking calls with its flat list. The handlers of the tracks are numbers, with the part of
-- their state that is read. What the base class does when a track is published is a parameter.
--
-- PublishHandler: src/publish_handler, .h and .cc, the handler of a track that is published to one
-- connection, and how the handler of a namespace passes objects and data on to such handlers
-- (PublishObject and ForwardPublishedData of src/publish_namespace_handler.cc). What the base class
-- does to the streams is a parameter.
--
-- SubscribeHandler: src/subscribe_handler, .h and .cc. The handler of a received track, with its
-- calls of the transport library, of the other handlers and of the peer manager as a log; Fanout has
-- what it does with objects and with stream data. What a handler has sent is a parameter.
--
-- The client manager answers the clients of the relay (client_manager.h and client_manager.cc), over
-- the tables of state.h. ClientManager has the tables as a record, Relay, with the handlers of tracks
-- as numbered objects, since two tables share them, and with a log of the calls of the transport
-- library and of the peer manager. ClientManager/Subscribes is ProcessSubscribe, SubscribeReceived and
-- DampenOrUpdateTrackSubscription; ClientManager/Unsubscribes is UnsubscribeReceived,
-- RemoveOrPausePublisherSubscribe, PublishDoneReceived, TrackStatusReceived and NewGroupRequested;
-- ClientManager/Publishers is PublishNamespaceReceived, its end, and PurgePublishState;
-- ClientManager/Publishes is PublishReceived and the failure of a subscribe (subscribe_handler.cc,
-- StatusChanged); ClientManager/Namespaces is the subscribe and unsubscribe of a namespace and
-- ConnectionStatusChanged; ClientManager/Fetches is the fetches: the answer, the walk over the cache,
-- the choice of a publisher and the wait for it, the joining fetch and the cancel. A namespace is a
-- value of a parameter type with an order. Environment has what comes from elsewhere: the library's
-- matching of namespaces and its hashes, the base class of a handler, the newest object of the cache,
-- the configuration, the clock, and what the peer manager answers. A set of active subscribes is a map
-- from the connection and the request, which are all that its order compares. ClientManager/Tables has
-- the proofs on the tables. The wait for a publisher is a loop on fuel, and a turn for every five
-- milliseconds up to the limit is enough. When the last pointer to a handler goes, and its destructor
-- runs, is not followed.
--
-- Not modelled: of the client manager the data that a peer sends to a track (PeerDataReceived), the
-- threads of the fetches with the loop that waits for the publisher's last object, and the callbacks
-- that only write to the log; of the handlers of tracks the status texts and the metrics, and of the
-- fetch handler all; of the subscribe handler the parsing with the library's stream buffers and the
-- status texts; of the manager the start and the stop of the transport and of the thread; of the
-- receiving loops the number of pieces that one callback takes; logging, threads, start and
-- configuration.
pub mod Prelude
pub mod Wire
pub mod Messages
pub mod ClientManager
pub mod InfoBase
pub mod Ranking
pub mod PublishNamespace
pub mod PublishHandler
pub mod SubscribeHandler
pub mod Peer
