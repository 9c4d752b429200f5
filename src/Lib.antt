-- ===== src/Lib.antt =====
-- The programs of the networks course: a software router (stub_sr), a reliable transport protocol
-- (stcp) and an IRC server (src). They share no code but the linked list library simclist.
--
-- Router models stub_sr/sr_router.c with the tables of sr_rt.c and sr_if.c.
--   Router/Bytes, Router/Off: a frame is the list of its bytes, and a header field is read and
--     written at its offset in it (sr_protocol.h). The host is little-endian.
--   Router/Types: the structures. A linked list is a list; the frames given to sr_send_packet are a
--     list, `sent`. A call that faults, aborts or never returns is `none`.
--   Router/Routing: rt_match, get_interface, if_dst_check, sr_add_rt_entry and the sr_if.c setters.
--   Router/Checksum: compute_ip_checksum and compute_icmp_checksum.
--   Router/Frames: create_frame_t, encapsulate, ip_header_create, update_ip_hdr.
--   Router/Icmp: generate_icmp_echo, generate_icmp_error.
--   Router/Cache: the ARP cache. Router/Queue: the queue of packets that wait for a reply.
--   Router/Handle: sr_init and sr_handlepacket, one function for each branch of the source.
-- The only loop that needs fuel is that of arpq_packets_icmpsend: one round for each packet and one
-- more is enough where it returns at all. Time is an argument; sr_handlepacket has two, for
-- its time-outs and for what it does with the packet. malloc succeeds. What memory holds before it is
-- written is an argument (`junk`) where it is read.
--
-- Stcp models stcp/transport.c.
--   Stcp/Types: context_t, packet_t, the header, and a connection (Conn) as its peer and the
--     application see it. Sequence numbers are 32 bits wide.
--   Stcp/Window: the payload's part of recv_packet, and the hand-over and slide of control_loop.
--     Window/Arrays, Window/Stream, Window/Deliver: the window against the peer's bytes.
--   Stcp/Rto: update_rto and the time that control_loop waits until.
--   Stcp/Recv: make_stcp_packet, packet_t_create, packet_t_remove, recv_packet.
--   Stcp/Loop: control_loop, one function for each event.
--   Stcp/Open: transport_init, one function for a round of each of its loops.
-- The network layer (stcp_network_send, stcp_network_recv, stcp_app_recv, stcp_app_send) is the
-- argument and the result of these: a packet that arrives, what the application has written, the
-- packets that were sent, the bytes that were delivered. Sends succeed. The doubles of update_rto are
-- exact below 2^53, so they are whole numbers divided by 4 and 8. Its static `init` is that of a
-- process with one connection. The clock does not go back.
--
-- Irc models the IRC server: parser.c, handlers.c, utils.c, channel.c, and of server.c the client that
-- connects.
--   Irc/Parse: parse. Irc/Inbox: a round of parse_message, whose loop over a buffer has one round of
--     fuel for each character and one more.
--   Irc/Strings: the C functions on strings. A text is the list of its characters without the '\0';
--     a write outside of an array on the stack or in a structure, and a read of NULL, are `none`.
--   Irc/Types: the structures of ircstructs.h. A linked list is a list, a pointer into it a place in
--     it; the iterator that WHOIS leaves on a user's `my_chans`, after which simclist.c neither walks,
--     adds nor deletes, is the field `iterating`. What is given to send is a list, `sent`. Irc/Reply:
--     constr_reply.
--   Irc/Utils, Irc/Channel: utils.c and channel.c. Irc/Handlers: handlers.c, the handlers by what they
--     are about (Info, Register, Talk, Rooms, Modes, Queries), and Handlers/Dispatch, where a message
--     comes in from parse.
--   Irc/Members: who is on which channel, against the numbers that the channels keep. Members/Kept:
--     the handlers that leave a part of the state as it is, for any such part.
--   Irc/Known: the nicks and usernames, and numregistered. Irc/Rights: who may change modes.
--   Irc/Relay: to whom a message to a channel goes.
-- One message is handled after the other: the locks are not modelled. Sends succeed. The file motd.txt
-- is an argument. The places that malloc gives for a copy of a name take the name, though the source
-- asks for too few (channel.c:45, handlers.c:865 and 866). What stands in send_names' uninitialised
-- buffer depends on what was sent before, in any way.
--
-- Not modelled: printing, sr_vns_comm.c, sr_main.c, sr_dumper.c, sha1.c, the socket layer of stcp, the
-- threads and sockets of the IRC server (main.c, the rest of server.c).
pub mod Common
pub mod Router
pub mod Stcp
pub mod Irc
