-- ===== src/Lib.antt =====
-- BitTorrent over SCION: a seeder and a leecher that speak the BitTorrent peer protocol over the
-- connections of scion-path-discovery. This library models the program's core and proves what
-- makes it correct.
--
-- The parts and how they interact. A torrent file (torrentfile/torrentfile.go) names a file, its
-- piece length and a hash for each piece. A leecher (p2p/p2p.go) makes a queue of the pieces,
-- connects to peers (client/client.go), which starts with a handshake (handshake/handshake.go) and
-- a bitfield (bitfield/bitfield.go), and downloads the pieces block by block with messages
-- (message/message.go). A seeder (server/server.go) answers the handshake and the requests, and chooses
-- for each leecher the paths on which it dials back (pathselection/pathselectionstore.go). A node of a
-- DHT (dht_node/dht_node.go) tells either of them of new peers. main.go starts one of the two.
--
-- Which file models which part:
--   Common       the shared types and lemmas: Results (error values, panics, the monad of a call on
--                a connection), Bytes (copy, make, encoding/binary), Int (Go's 64-bit int, with its
--                wrap), Lists, Tests, Stream (the connection and what a call does on it), Pipe (a
--                connection to run the model on)
--   Bitfield     bitfield/bitfield.go: HasPiece is has_piece, SetPiece is set_piece
--   Message      message/message.go: FormatRequest, ParseRequest, FormatHave, FormatPort,
--                ParsePiece, ParseHave, ParsePort, Serialize and Read, by their names in snake case
--   Handshake    handshake/handshake.go: New, NewEmpty, Serialize, getReservedBytes and Read
--   Peers        peers/peers.go: the set of peers, and Unmarshal. Peers.Members is the set without the
--                order of its list, as a quotient
--   Config       config/discovery_config.go
--   TorrentFile  torrentfile/torrentfile.go: hash, splitPieceHashes, toTorrentFile, parseDhtNodes.
--                TorrentFile.Download has the torrent that DownloadToFile makes, TorrentFile.Files Open
--                and the whole of DownloadToFile, TorrentFile.Tracker torrentfile/tracker.go
--   Client       client/client.go: completeHandshake, recvBitfield, the Send functions, Handshake;
--                dial is the loop of DialAndWaitForConnectBack over the connections, and
--                Client.Connecting has that function as a whole, with WaitForNewClient
--   P2p          p2p/p2p.go: calculateBoundsForPiece, calculatePieceSize, the first loop of
--                Download (queue_from), readMessage, attemptDownloadPiece. P2p.Integrity has
--                checkIntegrity and work_round, the body of a worker's loop over the queue;
--                P2p.Workers the channels workQueue and results with the goroutines that use
--                them, as steps in any order; P2p.Assembly the end of Download, which joins the
--                results; P2p.Connections the clients that join while a worker runs; P2p.Discovery
--                the callback of EnableDht. P2p.Notes and P2p.Parcels are a description of what a
--                peer sends between and with its blocks, for the proof about attemptDownloadPiece;
--                P2p.Exchange is one of what it is asked for and when, and with which bytes it answers
--   Server       server/server.go: handleConnection, handleIncomingHandshake and the bitfield of
--                NewServer. Server.Creation has NewServer; Server.Leechers the path store and the
--                list extPeers of ListenHandshake and updateDisjointPathselection, with
--                CustomPathSelectAlg; Server.Connections the field Conns; Server.Metrics the
--                bandwidth of server/metrics.go and the lock that measureConnMetrics takes
--   PathSelection
--                pathselection/pathselectionstore.go: pathsConflict, getConflictFreePaths, and the
--                store of the paths that each peer uses, with AddPeerEntry. The type of a path is
--                called Route
--   DhtNode      dht_node/dht_node.go: announceLoop, consumePeers, the callbacks OnAnnouncePeer and
--                StartingNodes of New, uniqueStartingNodes, and Port as own_port
--   Session      p2p/p2p.go and server/server.go at the two ends of a connection: Download with one
--                worker, whose peer is a seeder of the file
--   Socket       socket/: the interface, with NewSocket in Socket.Networks, the two kinds of socket in
--                Socket.Tcp and Socket.Scion, and any sequence of calls on one
--   Utils        Utils/numbers.go, and Utils/addr.go in Utils.Addresses
--   Main         main.go: the configurations that the flags make, up to the server or the download
--
-- State. A Go function that reads or writes a connection is a function from the connection's state
-- to a result and the next state. A result is a value, an error, or a halt: a panic, log.Fatal, or
-- an end of fuel. A deferred call runs after the result is known, whatever it is. A buffer or a
-- bitfield that Go changes in place is passed on as a new list; the bitfield slice that a
-- leecher's later connections share with the first one is one list for each of them.
-- Go's int is a 64-bit integer whose sums and products wrap; uint32 and uint16 conversions take
-- the remainder.
--
-- Concurrency. P2p.Workers.Step is one step of one of the goroutines of a download; a send or a
-- receive on a channel is a step that its room allows, and work on a piece is one step. The
-- goroutines of the server are modelled one call at a time: a leecher that connects or leaves is one
-- step. The code takes no lock for the first of these two. consumePeers, a goroutine for each
-- announcement of the DHT, is modelled as reading its stream to the end before the next
-- announcement, which in the code closes the one before first. In DownloadToFile the peers that the
-- DHT node finds join the torrent's PeerSet before the download and at the end.
--
-- Parameters. packets.UDPConn is a record of the calls that the code makes on it. IsStream states
-- what a working connection documents: ReadFull returns bytes in their order or an error when too
-- few are left, Write sends all bytes, and a deadline changes neither. Common.Pipe is a connection
-- of which it holds. SHA-1, the bencode encoder, the parser of SCION addresses, the interfaces of
-- a path, sort.Slice, rand.Intn, the order of a map and the calls on a peer of the DHT are functions
-- that the definitions take. A ping of a DHT node is a call whose outcome is dropped. The sockets,
-- sciond, the file system and HTTP are records of calls on a state that nothing is known of, but
-- for IsDisk, which states what the documents of os say of a file.
--
-- Fuel. The endless loop of handleConnection takes fuel for one message more than there are
-- requests. The outer loop of attemptDownloadPiece takes fuel for the messages it reads, one more
-- than the peer sends. The inner loop needs more than the bytes still to be requested, since a
-- round requests a byte at least; request_if_unchoked gives it the piece's length and one more.
--
-- Not modelled: the parser of the command line, the texts of the metrics, logging, and the timing of
-- deadlines and tickers: these are calls of libraries and of the system.
-- Of the code that is modelled, the body of ListenHandshake outside its bookkeeping is calls of
-- scion-path-discovery.
pub mod Common
pub mod Bitfield
pub mod Message
pub mod Handshake
pub mod Peers
pub mod Config
pub mod TorrentFile
pub mod Client
pub mod P2p
pub mod Server
pub mod Session
pub mod Socket
pub mod PathSelection
pub mod Utils
pub mod Main
pub mod DhtNode
