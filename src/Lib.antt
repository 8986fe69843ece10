-- ===== src/Lib.antt =====
-- A user-space TCP/IP stack over a tap device (toy_src): Ethernet frames come from the
-- device, ip_input.c gives the segments to tcp.c, a segment is handled in the state of
-- its socket, and answers go out through ip_output.c. Programs reach the sockets over
-- IPC (ipc.c, socket.c, inet.c), timers run on one thread (timer.c).
--
-- Base and its children hold what the models share: tests on numbers, lists over the
-- native numbers, machine words and signed results.
--
-- Links is toy_src/list.h: the circular lists as pointers, with the operations in the
-- order of their writes. Links.Ring says which sequence of nodes a heap stands for,
-- Links.Operations what the operations do to it, Links.Walk what a walk sees; the other
-- parts use plain lists for the queues and the tables.
--
-- Checksum is toy_src/utils.c: sum_every_16bits, checksum and tcp_udp_checksum over
-- lists of bytes on a little-endian machine. Checksum.Fold and Checksum.Words hold the
-- arithmetic of the folding loop, Checksum.Verify and Checksum.Transport what a receiver sees. The folding loop
-- runs on fuel 3, which is enough because its argument is a word of 32 bits.
--
-- Timer is the table of toy_src/timer.c and what tcp_output.c, tcp_input.c and
-- tcp_data.c ask of it. Timer.Tick is the walk of timers_tick over it, in a state of which the table
-- is a part and whose handlers are an interface; Tcp.Timeouts fills it in. Timer.Order and
-- Timer.Evolves say how a table lies in memory and how it changes, Timer.Changes what the calls of a
-- handler do to it, Timer.Points and Timer.Handlers what is known at each step of the walk,
-- Timer.Rounds that the walk ends and Timer.Quiet what it frees.
--
-- Skb is the room in a buffer, toy_src/skbuff.c, with pointers as distances from its first byte.
-- Skb.Layers is how each protocol reserves and pushes, and Skb.Fit that it stays in the buffer.
-- Skb.Queue is the queues of toy_src/skbuff.h over Links, and Skb.Refine that they are lists.
--
-- Wait is toy_src/wait.h with the two threads that use it as sequences of actions; Wait.Order is
-- about which orders of them wake the reader.
--
-- Udp is toy_src/udp.c, Udp.Calls the calls of toy_src/udp_sock.c, both over the pointer
-- model of the table. Udp.Wire is a datagram in bytes. Udp.Table, Udp.Bind, Udp.Queue and
-- Udp.Delivered hold what is proved of them.
--
-- Arp is toy_src/arp.c, with netdev_get and netdev_transmit of toy_src/netdev.c. Arp.Cache
-- is about the table, Arp.Exchange about a request and its reply.
--
-- Route is toy_src/route.c, with the addresses of toy_src/netdev.c; Route.Lookup holds what
-- is proved of it.
--
-- Ip is toy_src/ip_input.c and the header of toy_src/ip_output.c, on the bytes of a datagram.
-- Ip.Icmp is toy_src/icmpv4.c, and Ip.Neighbour toy_src/dst.c with ip_output over it: what other
-- threads do to the ARP table in a sleep is a parameter. Ip.Output, Ip.Echo and Ip.Resolve hold
-- what is proved of them. The three attempts of dst_neigh_output run on fuel 3, one for each.
--
-- Ipc is the messages of toy_src/ipc.h, Ipc.Server toy_src/ipc.c, Ipc.Client the application
-- library toy_app/lib/liblevelip.c, and Ipc.Link one connection between the two, in which a read
-- takes what is there of the bytes written. Ipc.Calls sets a call of the library beside the same
-- call in the stack, and Ipc.Threads is the list of connections and the loop of one, on fuel for
-- each byte that is written and one more. Ipc.Wire and Ipc.Dispatch hold the lemmas on fields and
-- messages, Ipc.Remote, Ipc.Reads, Ipc.Overrun and Ipc.Ends what is proved.
--
-- Sockets is the data of toy_src/socket.c, toy_src/inet.c and toy_src/sock.c, Sockets.Inet the
-- functions of the last two and Sockets.Table those of the first. The protocols behind struct
-- net_ops are an interface, and the socks stand in a memory that can be freed. Sockets.Calls has
-- the calls as values, and Sockets.Stack puts them behind the messages of Ipc. Sockets.Fresh,
-- Sockets.Remove, Sockets.Invariant, Sockets.Isolation and Sockets.Close hold what is proved.
--
-- Ethernet is the frames of toy_src/ethernet.h as bytes, the dispatch of toy_src/netdev.c and
-- the bytes of toy_src/arp.h; Ethernet.Frames holds what is proved of them.
--
-- Receive puts the parts together: it is netdev_rx_loop of toy_src/netdev.c, which gives a frame to
-- Ethernet, and what that finds to Arp, Ip.Icmp, Tcp.Sock or Udp. A read is an input of the model.
-- Receive.Frames follows the frames that one machine sends into the loop of another, and
-- Receive.Exchange the bytes of a UDP socket to the reader of another one.
--
-- Tcp is the core:
--   Tcp.Types      toy_src/tcp.h, the socket, its control block and a buffer
--   Tcp.Core       toy_src/tcp.c, the shared helpers, and toy_src/skbuff.c
--   Tcp.Output     toy_src/tcp_output.c, building and queueing segments
--   Tcp.Send       toy_src/tcp_output.c, sending data, and its timers
--   Tcp.Data       toy_src/tcp_data.c
--   Tcp.Handshake  toy_src/tcp_input.c, the states LISTEN, SYN_SENT and CLOSED
--   Tcp.Input      toy_src/tcp_input.c, tcp_process
--   Tcp.Sock       toy_src/tcp_sock.c, the calls and the tables of sockets
--   Tcp.Receive    toy_src/tcp_input.c, tcp_receive, with the sleeps of its reader
--   Tcp.Timeouts   the handlers of the timers, in toy_src/tcp.c and toy_src/tcp_output.c
--   Tcp.Wire       the bytes of a segment, toy_src/tcp.h, tcp_transmit_skb and tcp_init_segment
-- The other files of Tcp hold proofs: Frame and Ends say what each step leaves alone
-- and how the steps of tcp_process compose, Transitions, Reach, Sequence and Deaf hold
-- what no segment can do to a socket, Passive and Active follow a connection that is
-- opened, Reassembly, Stream, Dequeue, Segments and Forgets say what the operations on data do,
-- Ticks is about a round of the timer thread, Wire.Sent, Wire.Delivered and Wire.Options about the
-- bytes.
--
-- A call on a socket is a function from a Conn, the socket with its environment, to a
-- Conn. The environment holds the timers, the segments handed to ip_output.c and the
-- notifications of the thread that waits. A use after free is the
-- outcome `fault`, `none` where a function answers with an Option, and `use_after_free` of a round
-- of the timer thread.
-- Sequence numbers wrap at 2 ^ 32 where the source adds to them, and are compared as
-- the source compares them. Loops run on fuel: the reading loop on the length of the
-- queue and 2 more, the loop of tcp_send on the length of the data and 1 more, a walk
-- over a list on the number of its nodes and 1 more. The walk over the timers, to which handlers
-- may add, has enough fuel by a measure: the due timers before the cursor, then the timers.
--
-- Not modelled: the locks but that of wait.h, the return codes of ip_output.c in TCP and UDP, the
-- thread that listens for IPC connections, which makes system calls, the calls on the device, and
-- the buffers that are freed when a frame is dropped before TCP or UDP has it.
pub mod Base
pub mod Checksum
pub mod Timer
pub mod Links
pub mod Skb
pub mod Wait
pub mod Tcp
pub mod Udp
pub mod Arp
pub mod Route
pub mod Ip
pub mod Ipc
pub mod Sockets
pub mod Ethernet
pub mod Receive
