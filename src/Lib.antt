-- ===== src/Lib.antt =====
-- flexplane: the arbiter's timeslot allocator and the control protocol of Fastpass, modelled from
-- the C sources and proved.
--
-- The program. Endpoints ask an arbiter for timeslots, and the arbiter gives each timeslot a
-- matching of sources and destinations. Requests and allocations travel in packets of the
-- Fastpass control protocol, which numbers, acknowledges and resets by itself.
--
-- Protocol (src/protocol):
--   Protocol.Platform, Protocol.BitArray: platform/generic.h, the bit operations and the time
--     comparisons that wrap.
--   Protocol.Checksum: the hash and checksum of platform/generic.h, fastpass_checksum.
--   Protocol.Window: window.h; `FpWindow` is struct fp_window, and functions keep their names.
--   Protocol.Conn: fpproto.h and fpproto.c; `Conn` is struct fpproto_conn with its counters, and
--     the calls of struct fpproto_ops are listed in its field `calls`. Its children are Inwnd
--     (update_inwnd, at_most_once_may_accept), Outwnd (outwnd.h and the packets that wait for an
--     ACK), Reset, Ack (ACKs, timeouts, sending), Payload (parsing), Receive
--     (fpproto_handle_rx_packet) and Encode (fpproto_encode_packet).
--   Protocol.Pacer: pacer.h.
-- Allocator (src/graph-algo):
--   GraphAlgo.Admitted, Bin, Backlog, Batch: admitted.h, bin.h, backlog.h, batch.h.
--   GraphAlgo.Ring: fp_ring.h without DPDK; its laws are for a ring of 2 ^ 16 elements.
--   GraphAlgo.Seq: the allocation of a batch by one core, of admissible_traffic.{c,h} and
--     admissible_structures.h; `Core` is struct seq_admission_core_state.
--   GraphAlgo.Seq.Demand: demand in, flows between cores, spent flows; `Status` is struct
--     seq_admissible_status.
-- Endpoint (src/kernel-mod/sch_fastpass.c):
--   Endpoint.Sched: `FpDst` is struct fp_dst, `FpSchedData` struct fp_sched_data; the queue of
--     flows with demand to request, flow_inc_used and flow_inc_demand.
--   Endpoint.Alloc: handle_reset and handle_alloc. Endpoint.Report: handle_areq (the arbiter's
--     reports), handle_ack and handle_neg_ack. Endpoint.Send: send_request and the tasklets.
--   Endpoint.Queue and Endpoint.Inv: the queue of flows as a list, and the invariant of all flows.
-- Arbiter (src/arbiter/comm_core.c):
--   Arbiter.Node: `EndNode` is struct end_node_state; its queue of reports, handle_areq (which
--     calls the allocator of GraphAlgo.Seq.Demand), handle_reset, handle_ack and handle_neg_ack.
--   Arbiter.Allocs: process_allocated_traffic_one_q, fill_packet_report, fill_packet_alloc and
--     tx_end_node. Arbiter.Reports, Pending, Demands and Packets: their proofs.
--   Arbiter.Exchange: a packet of requests of the endpoint, read by the arbiter.
-- Packet queues of an endpoint (src/kernel-mod/sch_timeslot.c):
--   Tsq.Packet: what is read of a packet, get_dst_mac, get_priority. Tsq.Tree: the search trees of
--     the hash table. Tsq.Sched: `TsqSchedData` is struct tsq_sched_data, `TsqDst` struct tsq_dst
--     and `TimeslotSkbQ` struct timeslot_skb_q; dst_lookup. A flow's fields stand in a table by
--     key, and a tree holds the keys.
--   Tsq.Enqueue: classify_hi_prio, classify_data, tsq_enqueue, enqueue_single_skb and its tasklet.
--     Tsq.Handle: tsq_handle_now, tsq_reset_ids, tsq_dequeue. Tsq.Resize: tsq_tc_resize. Tsq.Inv and
--     Tsq.Sent: their proofs.
-- An endpoint with its queues:
--   Host.Step: the handlers of Endpoint with the calls of Tsq that they make, and an incoming packet
--     with the call back of fpq_add_timeslot. Host.Calls: what both sides agree on. Host.Allocs,
--     Resets, Reports, Packets: the proofs for each handler. Host.Reach: sequences of handlers.
--     Host.Start: fpq_new_qdisc and tsq_tc_init without
--     options. A packet for which an allocation fails is in no sequence, as it leaves the table
--     locked.
-- Base has what they share: words, lists, bits, tables, rings and run-time
-- checks.
--
-- Conventions. A FASTPASS_BUG_ON or assert that fires is `bug` of `Checked`. Words are natural
-- numbers with the modulus written out, `unsigned long` has 64 bits, and memory is little-endian.
-- The allocator's rings are lists, oldest first; a loop that waits for room in a ring or a pool
-- is taken at the round that succeeds. A callback does not change the connection, and time is an
-- argument, read once for a handler. Endpoint and arbiter are built without emulation, and their
-- locks, logs and sockets are left out. The endpoint's `calls` lists its calls of the packet
-- queues. In Tsq, `bug` is also a spin on a lock that is held and the use of a NULL pointer. The
-- functions of the Linux kernel that the queues call are the record `Kernel`, and `IsKernel` has
-- what is relied on.
--
-- Fuel. The loop of free_unacked has 257 rounds: a window has at most 256 marks, and the last
-- round finds none. The loops of fpproto_handle_timeout and of the skipped ACKs have the same,
-- the loop over an ACK mask has its 64 bits, and the loop over payloads the packet's length. The
-- loop of send_request has 257 rounds: each but the last takes one of at most 256 queued flows.
-- The loop over reports has the 10 rounds that fit a packet, and that over allocations the 64.
--
-- Not modelled: wnd_mark_bulk, the emulation-only fields of packets, statistics of the protocol
-- and logs, the clock-driven loop of seq_get_admissible_traffic, the pools and the rings of DPDK,
-- the PIM and the shortest-job-first allocators, path selection, the timers and packet input and
-- output of the arbiter, the options, the reset and the garbage collection of the packet queues,
-- their files of /proc, the registration of the kernel module, the emulator in C++, and the
-- vendored CCAN library.
pub mod Base
pub mod Protocol
pub mod GraphAlgo
pub mod Endpoint
pub mod Arbiter
pub mod Tsq
pub mod Host
