-- ===== src/Lib.antt =====
-- schneeflocke is a peer-to-peer library (libschnee) with a file sharing layer above it
-- (libflocke). Hosts exchange datagrams over channels; on these, a data sharing server gives out
-- data by path, and clients request it, subscribe to it and transfer files.
--
-- How the parts work together. A TCP socket reads ahead into a buffer (BufferedReader) and is one
-- implementation of the reading side of a channel (Channel). A DatagramReader takes datagrams
-- (Datagram) out of any channel, whatever pieces the bytes come in. What comes in is dispatched as
-- commands (Elements) by a CommunicationMultiplex. The DataSharingServer answers requests and
-- subscriptions, tells subscribers of updates, and sends transmissions in chunks; FileTransfer, at
-- the other end, writes them into a file. DataTracker keeps remote data up to date by subscription
-- and request; on it, a SharedListTracker follows the list that a SharedListServer of another host
-- publishes. A ChannelHolder keeps the channels to the other hosts, which AuthProtocol has checked.
-- PingProtocol measures how long a host takes to answer.
--
-- The files, and the code they are about:
--   Base and its children   shared names, lists over the native numbers, byte strings, maps, integers
--   Error                   libschnee/schnee/Error.h
--   Channel                 libschnee/schnee/net/Channel.h, the reading side, as operations and laws
--   ByteArray               libschnee/schnee/tools/ByteArray.cpp
--   Datagram                libschnee/schnee/p2p/Datagram.cpp
--   DatagramReader          libschnee/schnee/p2p/DatagramReader.cpp; Stream: what a call accounts for
--   BufferedReader          libschnee/schnee/net/impl/BufferedReader.cpp with the reading of
--                           TCPSocket; Contract: the laws of Channel; Flow: the reachable states
--   Authentication          libschnee/schnee/p2p/Authentication.cpp
--   AuthProtocol            libschnee/schnee/p2p/channels/AuthProtocol.cpp. Wire, Handshake and
--                           Exchange have two hosts that run it with each other; Run, Branches,
--                           Validity and Outcome one host and whatever comes over the channel
--   ChannelHolder           libschnee/schnee/p2p/impl/ChannelHolder.cpp. Incoming has the handling
--                           of messages; Peers, Invariant, Adding, Handling and Reachable what is
--                           found in every state; Entries and Faults two channels of one level,
--                           and what cannot be read
--   PathName                libschnee/schnee/tools/Path.cpp
--   ArgSplit                libschnee/schnee/tools/ArgSplit.cpp, argSplit
--   HttpResponseParser      libschnee/schnee/net/http/impl/HttpResponseParser.cpp
--   Range, Elements         libschnee/schnee/p2p/DataSharingElements.h
--   CommunicationMultiplex  libschnee/schnee/p2p/CommunicationMultiplex.cpp; Dispatch: which
--                           component gets a command
--   PingProtocol            libschnee/schnee/p2p/com/PingProtocol.cpp; Once: how often a ping is
--                           measured, Answered: a ping, its answer and the measurement
--   DataSharingServer       libschnee/schnee/p2p/com/DataSharingServerImpl.cpp, p2p/DataPromise.h.
--                           Requests and Transmissions have the handlers of requests; Sharing and
--                           Invariant what is shared, Refinement its abstract view; Transfer and
--                           Delivery what a receiver gets; Faults the requests that are not served
--                           as meant
--   DataSharingClient       libschnee/schnee/p2p/com/DataSharingClientImpl.cpp, and the table of
--                           libschnee/schnee/tools/async/AsyncOpBase.cpp. Commands, Replies and
--                           Channels have the operations; Subscriptions what becomes of requests
--                           and subscriptions; Offline what happens when a host is gone
--   SharedListServer        libflocke/flocke/sharedlists/SharedListServer.cpp and SharedList.h;
--                           Published: what the data sharing server gives out at "shared"
--   SharedListTracker       libflocke/flocke/sharedlists/SharedListTracker.cpp; Fetched: a list on
--                           its way from one host to another
--   FileTransfer            libflocke/flocke/filesharing/file_io/FileTransfer.cpp
--   DataTracker             libflocke/flocke/objsync/DataTracker.cpp
-- A definition has the name of the function it models, in lower case with underscores. State is a
-- record that operations take and return. What the world answers (the network's result codes, the
-- disk, a channel's bytes, the client's replies) is an argument, and an asynchronous callback is
-- an operation that the environment calls, in an order that the step relations leave open.
--
-- Bounds and fuel. Lengths and positions are unbounded numbers; where the code computes in
-- `uint32_t` (Datagram) the wrap-around is written out, and `int64_t` values, and the `int` in
-- which the server and its clients count revisions, are integers that stay in the middle of their
-- range. DatagramReader's loop has three rounds, since each goes on to the next of three states or
-- returns. The loop of `Path::normalize` has the length of the path as its fuel, since a round
-- takes two characters off. A transmission is run for as many calls as it has chunks, which is when
-- it ends.
--
-- Not modelled: the event loop, threads, timers and logging; sockets' connecting and writing, TLS and
-- UDT, which are calls of boost asio, GnuTLS and udt; XMPP and XML, beside the vendored parser; the
-- generated (de)serialisation of commands, and the generated `Range::isDefault`, which is taken as the
-- commented-out member of `Range` has it; transfer speeds. `boost::replace_all` is a parameter of
-- PathName. Nor are the time-outs of asynchronous operations, the leveling of channels and the
-- shared folders.
pub mod AuthProtocol
pub mod Authentication
pub mod Base
pub mod Error
pub mod Channel
pub mod ChannelHolder
pub mod ByteArray
pub mod Datagram
pub mod DatagramReader
pub mod BufferedReader
pub mod Range
pub mod Elements
pub mod PathName
pub mod ArgSplit
pub mod HttpResponseParser
pub mod FileTransfer
pub mod CommunicationMultiplex
pub mod PingProtocol
pub mod DataSharingServer
pub mod SharedListServer
pub mod SharedListTracker
pub mod DataSharingClient
pub mod DataTracker
