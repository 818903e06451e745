-- ===== src/Lib.antt =====
-- TCP-Fuzz: a fuzzer for TCP stacks on top of packetdrill. It makes packets of fuzz input, injects them
-- into a stack, and parses and compares what the stack sends.
--
-- The parts and how they interact:
--   Packet      packet.c, packet.h, header.h: a packet in wire format, and the array of its headers.
--               A pointer into the buffer is an offset, NULL is `none`, and the array up to the first
--               HEADER_NONE is a list. `packet_append_header` is the one that the parser calls.
--               Packet/Copy holds packet_copy and its helpers.
--   Parser      packet_parser.c: from bytes to headers. Outcome has the results, the messages and the
--               reads, Layer4 parse_tcp, parse_udp, parse_icmpv4, parse_icmpv6 and parse_gre, Layer3
--               parse_ipv4, parse_ipv6, parse_mpls and the functions that choose between them, Entry
--               the recursion and parse_packet. A read outside the buffer and a failed assert are
--               faults. The recursion has fuel 7: each level appends a header, of which there are at
--               most six. The loop over MPLS labels has a round for each byte that is left.
--   Checksum    checksum.c in Sum, packet_checksum.c in Fill: what the generator does to a parsed packet.
--               The two loops of ip_checksum_fold take two rounds at most.
--   Fuzz        fuzz_test_helper.c in Input, fuzz_test_script.c in Script, the comparison of results
--               in Compare, and in Generate fuzz_to_packet of fuzz_test_packet.c, a state monad over
--               the input, the script, the sequence number and the length of the last contents; it
--               calls the parser and the checksums. A capacity past an int is `none`. The text that sprintf writes for an option is a parameter.
--   HashMap     hash_map.c, which maps TCP timestamps. MurmurHash3 is a parameter, on which nothing
--               depends; `& bucket_mask` is the remainder by the number of buckets, a power of two.
--               The loop for the number of buckets has 30 rounds, which reach MAX_BUCKETS.
--               HashMap/Refinement has the finite map that the code implements.
--   TcpOptions  tcp_options.c, and tcp_options_iterator.c in Iterator: wire bytes of options, and the
--               loop over them, with fuel of one round for each byte.
--   Addresses   ip_address.c: the IPv6 addresses that stand for IPv4 addresses.
--   Verify      run_packet.c: the comparison of a sniffed packet with the script's. Headers has the
--               fields of each header type, Gre the optional words of GRE, Equivalence what a
--               comparison of all headers amounts to, FlowLabel the map of IPv6 flow labels, and
--               Fragments the fragments of an IPv4 packet.
--   Wire        wire_conn.c and wire_protocol.h: messages between client and server, in Pieces over
--               what each read() returns, a list that is a parameter. A read is at least one byte,
--               so that as many rounds as there are reads are enough.
--   Mpls        mpls.h and mpls_packet.c: entries of an MPLS label stack.
--   Build       tcp_packet.c, udp_packet.c and ip_packet.c. Layer3 and Layer4 parse their headers,
--               Frames appends the two headers of a packet, Ipv4, Ipv6 and Udp follow the bytes,
--               and RoundTrip parses them with Parser.
--   Timing      run.c: which times of an event are accepted, in Tolerance the tolerance, in Loop the
--               loop over the events, with one turn more than there are events, in Turns its turns, in
--               Order which scripts it runs, and in Burst packets of one burst. The record Actions is a
--               parameter, which gives whether the functions that run an event return: one that does
--               not has ended the program. `s64` sums are taken not to overflow.
--   Socket      socket.h and run_packet.c: the offsets between sequence numbers of the script and of
--               the wire, and the remap of a header and its SACK blocks. Runner has the functions that
--               match packets of the script and of the wire with the socket under test, Find the
--               socket of an event, Inbound and Outbound run_packet_event, where the packets that the
--               network device returns are a list that is a parameter. Verification has
--               verify_outbound_live_packet over the headers of Verify. Diagram has the steps of the state
--               of a socket, Loop and Phases follow run_packet_event, Sniffing, Synack, Handshake and
--               Established have a passive connection, and Reset the numbers of the RST of reset_connection.
--               Addresses and ports are numbers, and a packet is seen as its tuple, its header fields and
--               its length. What needs more of a packet is a parameter, the record Outside: checksums,
--               options of TCP, flow labels, the bytes of the payload, the time of a packet, the aggregation
--               of fragments and the network device.
--   Tests       runs on concrete inputs, and each theorem applied.
--
-- Not modelled: the comparison of TCP options and of the payload, timestamps, aggregate_packets, and the
-- packet of reset_connection with set_packet_tuple (run_packet.c); waiting for
-- the time of an event and finding of the end of a run (run.c); the script language (parser.y, lexer.l,
-- script.c); system calls (run_system_call.c) and commands, which act through the operating
-- system; the scripts of TCP_INFO (code.c); client and server of the wire protocol beyond their messages;
-- network devices; prefixes and the sockaddr functions of addresses (ip_prefix.c, ip_address.c);
-- printing; and code of other projects (hash.c, fmemopen.c, open_memstream.c).
-- Allocation is taken to succeed, and freeing memory is left out. The host is little endian. The text
-- of messages is reduced to a constructor for each.
pub mod Prelude
pub mod Packet
pub mod Parser
pub mod Checksum
pub mod Fuzz
pub mod HashMap
pub mod TcpOptions
pub mod Addresses
pub mod Verify
pub mod Wire
pub mod Mpls
pub mod Build
pub mod Timing
pub mod Socket
pub mod Tests
