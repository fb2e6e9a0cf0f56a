-- ===== src/Lib.antt =====
-- Zenlive is a live-streaming server and SDK in Go. This library models parts of its core as
-- definitions by clauses and proves what makes them correct.
--
-- Common has the shared helpers: Boolean tests (Common/Tests), lists over the native numbers
-- (Common/Lists) and their order (Common/Order), and association lists for Go maps with the laws of
-- lookup, insert and erase (Common/Maps). A range over a map goes through the list in its order,
-- except where the rules of the firewall are listed anew.
--
-- Rtmp is pkg/streaming/rtmp. Rtmp/Bytes has the byte orders of encoding/binary. Of chunk.go,
-- Rtmp/Chunk/Reader is ChunkReader: a reader is the bytes that the connection still delivers before
-- its end, the chunk size and the map of chunk streams, and each method a computation that returns
-- a value or an error with the reader after it (ReadMessage is read_message, readBasicHeader
-- read_basic_header, readMessageHeader read_message_header). Rtmp/Chunk/Writer is ChunkWriter over
-- any io.Writer, a function from bytes and the writer's state to an optional error and the state
-- after it; a method is a function of the chunk size that the writer has. A pointer to a chunk
-- stream is a key of the map. Rtmp/Chunk/Output says which writes a message makes, Steps how the
-- reader takes single headers and Assembly how it puts chunks together, RoundTrip and Session that
-- it reads what was written, Wide what it does to long chunk stream ids, and Termination that it
-- ends. The loop of read_message has as fuel one more than the bytes left, since each round takes a
-- byte; that of write_message has one more than the payload's length, since with a positive chunk
-- size each round writes a byte. With a chunk size of zero WriteMessage loops for ever, which the
-- model shows as out_of_fuel.
--
-- Rtmp/Amf is amf.go, over the same writers and readers: a Go value is a Value, a string its bytes, a
-- float64 the number of its bits, a map the list of its entries. Rtmp/Amf/Encoder and
-- Rtmp/Amf/Decoder are AMF0Encoder and AMF0Decoder; Printed says which bytes a value makes, Entries
-- how the decoder puts an object together. Decode has as fuel one more than the bytes left, since
-- each nested value and each entry takes a byte.
--
-- Room is pkg/room. Room/Participant is types.go and participant.go; Room/State is Room of room.go,
-- whose methods take the room to an error, the room after it and the events that they publish;
-- Room/Bus is EventBus of events.go, where a call of a callback is a delivery; and Room/Manager is
-- RoomManager of manager.go, which creates, deletes and cleans up rooms and through which clients
-- call them. A mutex makes each method one step, and a history is a list of calls. Room/Cases has
-- one lemma per operation that goes through its branches; Invariant, Membership, Accounting, Tracks
-- and Registry are named for what they prove, and Fates says what the calls of a manager make of
-- one room. A nil map of tracks is none, and a panic an error. The room's timer is the fact that it
-- is set, since its callback only logs. Random ids and the time are arguments.
--
-- Sdk is pkg/sdk. Sdk/StateMachine is StreamStateMachine of state.go, Sdk/Lifecycle is about its
-- histories. Sdk/Events is events.go, where a call of a handler is a delivery. Sdk/Stream has the
-- types of stream.go, Sdk/StreamManager is its StreamManager, and
-- Sdk/StreamController is StreamController of control.go: an operation takes the controller to an
-- error, the controller after it and the events that it hands to the bus. A pointer to a stream is
-- its key in the map; a clock gives the time that a call reads at each of its places. Sdk/Calls has
-- the histories, and Sdk/Spec what the users of a controller see: the states of the streams by
-- their ids. Consistency has the invariant, Operations, Restart, StopAll and Registry go through
-- the operations, and Refinement and History compare them with the specification. Sdk/Query is
-- QueryStreams of query.go, with the functions of the standard library that it calls as
-- parameters, and Sdk/QueryBuilder the builder of queries; Sdk/Pages says what a query returns and
-- Sdk/Filters what a query that was built selects.
--
-- Cluster is pkg/cluster. Cluster/Balancer is LoadBalancer and Node of loadbalancer.go, with int32,
-- uint32 and int as words that wrap, and a panic as an outcome; Cluster/Stats has GetStats.
-- Selection, Least, Rotation and Weights are about the nodes that the strategies select.
-- Cluster/Sessions is InMemorySessionManager of session.go; Indexes, Membership and SessionHistory
-- are about its three indexes.
--
-- Auth/RateLimit is pkg/auth/ratelimit.go, with an int as a signed 64-bit word and the two times
-- that Allow reads as arguments. Auth/RateLimit/Budget is about one bucket, Auth/RateLimit/Bounds
-- about the attempts of many keys. Auth/Roles is pkg/auth/rbac.go with the roles and permissions of
-- pkg/types/user.go, which are strings; Auth/Roles/Grants says who may do what.
--
-- Cache is InMemoryCache of pkg/cache/cache.go, with the times that it reads as arguments, its loops
-- over the entries by recursion on them, and its cleanup goroutine as calls of cleanup.
-- Cache/Victim is about the choice of the entry to evict, Cache/Bounds about the size and
-- Cache/Lookup about what is found. Cache/Interface is the interface Cache with its laws, and
-- InMemoryCache as one; Cache/MultiLevel is MultiLevelCache, a client of it over a list of levels,
-- and Cache/Promotion says what that finds.
--
-- Hls is pkg/streaming/hls. Hls/Buffer is the bytes.Buffer of the library as segment.go uses it,
-- with the array behind its content; how much room a growth leaves is a parameter, and a write
-- behind the array a panic. Hls/Writer is TSWriter and WritePacket, Hls/Pes is WritePES with
-- writePTS, Hls/Tables WritePAT, WritePMT, the checksum and CreateSegment. The loop of WritePES has
-- the number of bytes as fuel, since each packet takes at least one. Headers, Sections, Fragments
-- and Numbering say which bytes the packets have, Segments puts them together. Hls/Playlist and
-- Hls/Variants are the media and the master playlist of playlist.go, Hls/Render is their text, with
-- what fmt and time print of a number or a time as parameters; Hls/Reading is a reader of such
-- texts, and Hls/Uris says what it finds. Hls/Dvr is DVRWindow of dvr.go: its size is a word of 64
-- bits, and its total the float64 computation that gives it, whose sign is a parameter of Validate.
-- Durations are in milliseconds. Window, Lookup and Fresh are about the indices of the window, what
-- it finds and what it keeps, Export about the playlist that it makes, and Sorting about the order
-- of the variants.
--
-- Security is pkg/security/firewall.go. Security/Firewall is Firewall and Security/Checks its
-- operations that read addresses, with package net as a record of functions; Security/Tracker is
-- ConnectionTracker together with its firewall. The order in which a range goes through the rules
-- is a parameter of each operation that lists them anew. The histories of whole calls run one after
-- the other; AddConnection checks and counts under one lock after the other, and Slack and Races
-- are about what comes in between. Priority is about the order of the rules, Verdicts about what
-- they decide, Bans about bans, Connections and Admission about the counts, RuleCalls and History
-- about all histories, and Drift says where the counts are wrong.
--
-- Not modelled: the handshake and the connections of the RTMP server, the sessions, subscriptions
-- and media of rooms, the webhooks of the SDK, tokens and sessions of the authentication, the
-- router and the discovery of the cluster, the choice of HLS variants and its server, the other
-- parts of pkg/security, and storage; and WebRTC, HTTP handlers, Redis, S3, TLS and the loggers,
-- which are I/O or calls of other libraries.
pub mod Common
pub mod Rtmp
pub mod Room
pub mod Sdk
pub mod Cluster
pub mod Auth
pub mod Hls
pub mod Security
pub mod Cache
