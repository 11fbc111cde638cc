-- ===== src/Lib.antt =====
-- clustergo: logic addresses, the frames that nodes exchange and the sockets that carry them, rpc
-- messages, the cache of nodes that routes them, and the membership that feeds it.
--
-- A node of a cluster has a logic address (addr/addr.go), 14 bits of cluster, 8 of type and 10 of server.
-- A node knows the others from a membership (membership/membership.go), whose changes its node cache
-- takes in (nodeCache in node.go); for a message it asks the cache for the next hop (getNodeByLogicAddr
-- in cluster.go), which is the target itself or a harbor. What goes over a connection is a frame
-- (codec/ss), whose body is binary, a protobuf message under a registered id (codec/pb), or an rpc
-- request or response (rpc/rpc.go, rpc/bytes.go). A socket gathers frames into writes and cuts what it
-- reads into packets again (socket/socket.go). Messages for a node without a connection are queued
-- (node.go); a request goes to the server (rpc/server.go), a response to the client (rpc/client.go). A
-- node that a frame is not addressed to passes it on.
--
-- The files:
--   Common: booleans, options, lists and numbers; Common/Results: a result, an error or a panic;
--     Common/Bits: masks and shifts; Common/Int: Go's int and its conversions to words; Common/Table: a
--     map as an association list.
--   Addr: addr/addr.go. LogicAddr is a number below 2^32; MakeLogicAddr is make_logic_addr, which splits
--     the text and gives its parts to make_parts; strconv.Atoi and strings.Split are written out, and
--     net.ResolveTCPAddr is a parameter.
--   Endian, Buffer: codec/buffer/buffer.go, with encoding/binary as put and value. A reader is its bytes,
--     its offset and its byte order; the getters return the new reader.
--   Pb: codec/pb/pb.go. PbMeta with its array and its map; reflection and protobuf are the record Proto.
--   Rpc/Bytes, Rpc/Message: rpc/bytes.go and rpc/rpc.go. A reader is a function from the bytes that are
--     left; the user's codec is the record Codec, whose Encode appends and may fail.
--   Ss: codec/ss/message.go and codec/ss/codec.go, Encode and Decode on every branch.
--   Socket: socket/socket.go. frameReader is its buffer and two offsets, and a connection the arrivals
--     that its reads find. Socket/Stream, Unpack, Receive, Loop: the reference that cuts packets off a
--     stream, and what recv and recvloop make of it. recv has as much fuel as there are reads, of which
--     each takes a byte or an arrival, and recvloop as many rounds as there are bytes. Decode, the
--     packet handler and where the loop finds die closed are the record Handling.
--   Socket/Send: sendloop as turns, with what each write comes to. Socket/Delivery: both ends together.
--   Crypto: pkg/crypto/aes.go; the block cipher and its modes are the record Cipher.
--   Membership: membership/membership.go, the data that a membership reports and its JSON form.
--   Membership/Redis/Script: the Lua scripts of membership/redis/script.go, on tables. A value of a hash is
--     its fields, and one whose fields the scripts' pattern does not find is a constructor of its own.
--     Membership/Redis/Subscribe: getMembers and getAlives of subscribe.go, UpdateMember and RemoveMember of
--     admin.go. Membership/Redis/Runs, Fetch, Follows, Refines: updates, removals and fetches in any order,
--     and the map that they refine.
--   Membership/Etcd: the events of the watches of membership/etcd/etcd.go; Membership/Etcd/Read: its full
--     reads; Membership/Etcd/Watch: the map that the events make.
--   Cluster/Groups, Cluster/Cache, Cluster/Route: nodeCache of node.go and getNodeByLogicAddr of
--     cluster.go. Nodes live on a heap under pointers, since three maps share them.
--   Cluster/Queue: the messages of a node that wait for a connection (sendMessage, removeFailedMsg,
--     onEstablish, dialOK, dialError and the end of dial in node.go, the end of onNewConnection in
--     cluster.go). Instants are numbers, the mutex is a mark, and an operation that waits for ever is blocked.
--   Cluster/Handshake: handshake of node.go and onNewConnection of cluster.go; whether the reply can be
--     written and whether smux starts are fields of the record Site.
--   Cluster/Dispatch: msgManager of cluster.go, onMessage and onRelayMessage of node.go, as the list of
--     what they do. Cluster/Send: SendBinMessage and SendPbMessage.
--   Rpc/Server: rpc/server.go. A method and an interceptor are what they do to the replyer.
--   Rpc/Client: rpc/client.go, sequence numbers and the 32 tables of pending calls; Rpc/Client/Async: one
--     AsyncCall, whose caller, timer and response take their atomic operations in any order, on a
--     context from a pool, which other calls get again and on whose mark their callers may swap.
--   Tests: the code and the theorems on concrete inputs.
--
-- Bytes are numbers; a word keeps its wrap-around as a remainder. A slice's capacity and Go's reuse of
-- buffers are not modelled, but for the bytes behind a ciphertext: an append gives a new list. A panic of the
-- code is a value of its own, so that a theorem with a result shows that there is none; an index and a
-- slice of rpc/bytes.go and rpc/client.go that is out of range gives it. Recursion is structural; getArraySize has the
-- 64 rounds of the code, and the decimal digits of n have n + 1 rounds, more than there are digits.
--
-- Not modelled: Send of the socket with its deadlines and the closing of its two loops, dialing, the
-- retry loop of a synchronous call, the goroutines and the smux streams of a node, the watch loop of the
-- redis and etcd memberships and their clients, the membership back end of NATS, the block cipher and
-- its modes, logging, the examples and the generated code. An operation that runs under a lock, and a
-- script of redis, is one step here; versions of redis are not bounded. Of a node's connection the cache
-- sees whether there is a socket and a stream session, which is what it changes.
pub mod Common
pub mod Addr
pub mod Endian
pub mod Buffer
pub mod Rpc
pub mod Pb
pub mod Ss
pub mod Socket
pub mod Crypto
pub mod Membership
pub mod Cluster
pub mod Tests
