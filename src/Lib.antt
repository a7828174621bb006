-- ===== src/Lib.antt =====
-- Peernet core: a peer-to-peer node that speaks encrypted and signed UDP packets.
--
-- The program. A node has a key pair. It listens on the IPs of its network adapters (Network.go,
-- Network Init.go, Network Detection.go) and discovers others by broadcast, multicast and a seed
-- list. Every packet that a listener reads goes to packetWorker (Network.go), which decrypts it
-- (Packet Encoding.go), finds the sender in the peer list (Peer ID.go), attributes the packet to
-- one of the sender's connections (Connection.go) and calls the handler of its command
-- (Commands.go). Handlers answer with PeerInfo.send (Connection.go). Two loops run beside this:
-- autoPingAll (Commands.go) pings connections and retires silent ones, and networkChangeMonitor
-- (Network Detection.go) follows the adapters of the machine.
--
-- The files.
--   Prelude     shared names and lemmas; Lists: sequences and Go's copy; Outcomes: a value, an
--               error or a panic.
--   Crypto      the third-party code (btcec, salsa20, blake3) and math/rand as parameters, with
--               their documented laws. Fixtures has concrete stand-ins for it.
--   Ip          net.IP, and IsIPv4 and IsIPv6 of Network Detection.go.
--   Text        Go's strings and what the code uses of the standard library on them: Hex is the
--               package encoding/hex, Number strconv.Atoi, HostPort net.SplitHostPort, and Address
--               net.ParseIP with parseAddress of Bootstrap.go.
--   Packet      Packet Encoding.go: packet_encrypt and packet_decrypt are PacketEncrypt and
--               PacketDecrypt, packet_garbage is packetGarbage.
--   Slice       Go slices of pointers with the array below them, since the code removes elements
--               in place while other code ranges over the same array.
--   Connection  the connection lists of Connection.go: register_connection, set_connection_latest,
--               invalidate_active_connection, remove_inactive_connection. IsConsistent in
--               Connection/Invariant is what holds between calls.
--   Config      Config.go: load_config and save_config over the files of the machine.
--   Identity    the key pair of Peer ID.go (init_peer_id, export_private_key) and the keys of the
--               discovery (initBroadcastIPv4, initMulticastIPv6).
--   Network     Network.go (terminate, auto_assign_port, get_networks) and the set of own addresses.
--               Adapters is the state. Listen is networkStart and networkPrepareListen of Network
--               Init.go, Init initNetwork and NetworkListIPs, Discovery the joining of broadcast
--               and multicast (Network IPv4 Broadcast.go, Network IPv6 Multicast.go), Changes the
--               removal of networks and a round of networkChangeMonitor (Network Detection.go).
--               IsFiled in Invariant is what holds of the two lists of networks.
--   Node        the state of a node (the package's variables) and a state monad over it. Peerlist
--               is the peer list of Peer ID.go with its specification in Refinement, Sending the
--               sending code of Connection.go, Commands is Commands.go, Worker packetWorker of
--               Network.go, Discovery the messages of the discovery and autoMulticastBroadcast,
--               Bootstrap the contacting of root peers in Bootstrap.go with its seed list in Seeds,
--               and Start is Init of Peernet.go. Run has the steps of a node that runs, and what
--               can be reached by them. IsSound in Invariant is what holds of a node between two
--               steps; IsQuiet in Quiet is what all sending has in common.
-- Definitions have the names of the functions in the source, in lower case with underscores.
--
-- Conventions. Pointers to connections, peers and networks are numbers, and the pointees are kept
-- in functions from these. Bytes are numbers; counters of 64 bits and lengths of 16 bits wrap where
-- the code lets them. A panic is Outcome's panic in a packet function and none in the node's monad,
-- since it ends the process. The clock is read once per step, where the code reads it at each use.
-- The map of peers has an order in the model and any order in Go. An array that append grows has no
-- spare room; Go leaves some. A lock is taken around each list operation, and each step here is
-- taken as a whole: interleavings of the goroutines inside a step are not modelled. The loops that
-- run for ever (packetWorker, autoPingAll, networkChangeMonitor) are modelled by one round;
-- autoMulticastBroadcast takes the number of its rounds as an argument, and bootstrap does as many
-- as the code. Other loops are recursion on the list they go over, or on the length that the list
-- had at the start, so no fuel is needed. What the operating system answers (the interfaces, the
-- sockets it opens, the groups it lets join) is the record System, and a file is a record with its
-- content.
--
-- Not modelled: InitLog, which opens the log file, and what the code logs or prints; Connect, which
-- only starts goroutines whose rounds are modelled; the system's side of the sockets, and the
-- channels between the goroutines. The YAML library and the configuration that is built into the
-- program are parameters. What other goroutines do while bootstrap or autoMulticastBroadcast sleeps
-- is an argument of them.
pub mod Prelude
pub mod Crypto
pub mod Fixtures
pub mod Ip
pub mod Text
pub mod Slice
pub mod Packet
pub mod Connection
pub mod Config
pub mod Identity
pub mod Network
pub mod Node
