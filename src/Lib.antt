-- ===== src/Lib.antt =====
-- libclub, a library for reliable group communication over UDP. This library models its transport,
-- and the encodings it stands on.
--
-- How the parts interact. A socket (include/club/socket.h) numbers each reliable message and puts
-- it as an OutMessage into a TransmitQueue. For each packet the queue walks over its entries,
-- erases those that the peer has acknowledged (an AckSet), and lets the others write a header and
-- as much of their payload as fits into a binary::encoder. The peer reads parts with a
-- binary::decoder, adds the numbers to its own AckSet, and puts the parts of one message together
-- in a PendingMessage, which remembers in a PartInfo what has arrived. The socket hands the
-- reliable messages to its user in the order of their numbers, and keeps those that are early. Two
-- sockets find each other by the rendezvous server (src/rendezvous), which tells clients of one
-- service each other's endpoints. Above the sockets the hub (src/club/hub.cpp) gives each message
-- of the group a MessageId and keeps in SeenMessages which of them it has seen. It puts the messages
-- into its Log, where acknowledgements gather, and commits them in the order of their ids once
-- their quorum acknowledged them. A fuse that is committed is a new configuration: its
-- acknowledgements make a Graph, of which the BroadcastRoutingTable says to whom a node forwards.
--
-- Files, and the code they model (paths from the root of the repository):
--   Binary/Encoder     include/binary/encoder.h: the written bytes, the room left, the error flag
--   Binary/Decoder     include/binary/decoder.h: the bytes left and the error flag
--   Binary/DynamicEncoder  include/binary/dynamic_encoder.h
--   Binary/Codec       what the two ask of a type: the interface of the serialized types
--   Binary/Serialize   include/binary/serialize: pair.h, optional.h, vector.h, with their roundtrip
--                      in Roundtrip; in Containers list.h, string.h, set.h, map.h, flat_set.h, flat_map.h, uuid.h, ip.h
--   Transport/Word     include/club/transport/sequence_number.h and the arithmetic of uint32_t
--   Transport/AckSet   include/club/transport/ack_set.h: try_add, can_add, is_in, the iterator;
--                      in Wire encode and decode
--   Transport/PartInfo include/club/transport/part_info.h: add_part, sanitize
--   Transport/Message  include/club/transport: message_type.h, out_message.h, in_message_part.h,
--                      in_message_full.h
--   Transport/PendingMessage  include/club/transport/pending_message.h
--   Transport/TransmitQueue   include/club/transport/transmit_queue.h
--   Transport/Transfer        the sender's encode and the receiver's update_payload, packet by packet
--   Transport/Socket   include/club/socket.h, the receiving side: in Honest what a peer sends, in Reach
--                      the states that a socket comes to, in Errors and Live what is left over
--   Rendezvous/Registry  src/rendezvous/handler.h: the clients that wait, and who is told of whom
--   Rendezvous/Wire    src/rendezvous/header.h, the messages of handler.h, and
--                      include/rendezvous/constants.h
--   Rendezvous/Client  include/rendezvous/client.h: the messages sent, and those received
--   Rendezvous/Server  src/rendezvous/server.h and the parsing in handler.h
--   Generic/CyclicQueue       include/club/generic/cyclic_queue.h
--   Generic/SortedSet, Generic/SortedMap  std::set and std::map over an order
--   Club/MessageId     src/club/message_id.h
--   Club/SeenMessages  src/club/seen_messages.h
--   Club/Message       src/club/message.h and src/club/serialize/message_id.h; in Wire the bytes
--   Club/Graph         include/club/graph.h: Edges for add_edge and remove_edge, Unreachable for
--                      remove_unreachable_nodes
--   Club/Routing       src/club/broadcast_routing_table.h: Walk and Resume for the search, Deliver for
--                      the tables of all nodes together
--   Club/LogEntry      src/club/log_entry.h
--   Club/Log           src/club/log.h: insert_entry, apply_ack and the searches
--   Club/Hub           src/club/hub.cpp: the commits, and in Receive the handling of messages
--   Prelude            names and lemmas on tests, lists and bits that the others share
--
-- How the code is read. Pointers into a buffer are the lists of bytes before and behind them. Bytes
-- are numbers; `|` of values that share no bit is `+`. Arithmetic of uint32_t, uint16_t and size_t
-- is written with its wrap-around where a value can leave the range; a TimeStamp is a uint32_t, so
-- that the clock of a hub starts again at 2 ^ 32. Asserts are not modelled, a
-- release build has none; only in the search of handler.h, where an iterator is used behind one,
-- the result is `none` where it fails. A map of handler.h is a function from its keys; the other
-- sets and maps are lists in the order of their keys. A container that was moved from is empty. A
-- hub's routing table is the graph that it was last calculated of. The 64-bit
-- reading assumes a little-endian host, as its source does. A time is a count of ticks. A callback
-- of the user is what it does to the socket; one of a hub does not call the hub. The order and the equality of endpoints are those of
-- boost::asio, parameters. An operation that mutates its object returns the new object.
--
-- Bounds. The loop of encode_payload is given one round more than the queue has entries; each round
-- but the last passes or erases an entry. The range-for over an AckSet is given 32 rounds, the
-- number of its bits. The searches of the graph and of the routing table are given one round more
-- than the graph has nodes: each round but the last visits a node that was not visited. All other loops go down a list or a number.
--
-- Not modelled: the calls of the network, timers and threads, the packet codec with the congestion
-- control (arithmetic of doubles) and with it the sending side of the socket, the nodes of the hub
-- with their sockets, the exchange of ids when two hubs meet, the connection graph, the reflector
-- of the rendezvous server, the STUN client, printing, and the demonstration programs.
pub mod Binary
pub mod Club
pub mod Generic
pub mod Prelude
pub mod Rendezvous
pub mod Transport
