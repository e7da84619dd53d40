-- ===== src/Lib.antt =====
-- A model of prp-sim, a user-space RedBox for the redundancy protocols PRP and HSR (IEC 62439-3),
-- with the theorems that make its core correct.
--
-- The program. A node (internal/prp) has two redundant ports, lan_a and lan_b, and an interlink. In
-- the role prp-san a frame from the interlink leaves on both LANs with a trailer behind it, and of
-- the two copies that come in from the LANs one is handed to the interlink. In the HSR roles the
-- redundant ports close a ring: frames carry a tag behind the addresses, a node hands what comes in
-- on one ring port on by the other, and the interlink leads to a SAN (hsr-san), to one LAN of a PRP
-- network (hsr-prp) or to another ring (hsr-hsr). The codecs are in internal/engine, the table of
-- seen frames in internal/nodetable, the frames by which nodes announce themselves in
-- internal/supervision. The node's goroutine processFrames takes one frame at a time from readLoop;
-- a timer cleans up, and the daemon's loop sends announcements. The daemon (cmd/prpd) starts a node
-- from what internal/config loads. The traffic generator (cmd/trafficgen) publishes GOOSE and Sampled
-- Values frames, whose payloads are in internal/iec, and counts what a subscriber takes in.
--
-- The files.
--   Base               names of the libraries, lists over the native numbers (Lists), the Boolean
--                      tests (Tests), 16-bit arithmetic (Bits), texts (Texts), maps as association
--                      lists and their laws (Maps, MapLaws), values and run-time panics (Outcomes).
--   Engine/Ether       engine.go: IsVLANFrame, GetVLANID, GetSrcMAC, GetDstMAC, GetEtherType.
--   Engine/Rct         engine.go: EncodeRCT, DecodeRCT, IsPRPFrame.
--   Engine/Sequence    engine.go: SequenceManager.
--   Engine/Hsr         hsr.go of engine: EncodeHSR, DecodeHSR, RewriteHSRPath, RewriteHSRPathLane,
--                      StripHSR, hsrTagOffset.
--   Nodetable          nodetable.go: Table, InsertWithExpiry, Find, FlushFor, Cleanup, Size.
--   Supervision        supervision.go: Build, BuildRCTed, BuildHSR, Parse.
--   Prp/Role           role.go: Role, ParseRole, infoFor.
--   Prp/Node           prp.go and hsr.go of prp: Node, Config, NewNode, the counters, the writes.
--   Prp/Multicast      prp.go: shouldForwardToInterlink, multicastAllowed, parseMulticastPattern.
--   Prp/Lan            prp.go: handleIncomingPRPFrame, handleInterlinkFrame.
--   Prp/Ring           hsr.go: handleIncomingHSRFrame; its child Inject: handleHSRInterlinkFrame.
--   Prp/Monitor        prp.go: handleSupervisionFrame, SendSupervisionFrame, periodicCleanup, nodeMAC.
--   Prp/Dispatch       prp.go: handleFrame, and runs of frames, clean-ups and announcements.
--   Prp/Threads        prp.go: readLoop, processFrames, the timer: any interleaving of their steps.
--   Prp/Ports          prp.go: the ports of Start, closePorts, Stop.
--   Iface              iface.go: CreateRawSocket, Close, SetMTU, SetInterfaceUp, SetInterfaceIP.
--   Iface/Receive      iface.go: RawSocket.Read.
--   Tui                ringbuf.go: RingBuffer, Write, Lines, Len.
--   Tui/Screen         tui/prpd.go: Draw, truncate.
--   Conf               config.go: validMulticastPattern.
--   Conf/Results       config.go: the errors of Load, and the chain of its steps.
--   Conf/Load          config.go: Load, validateCIDR.
--   Daemon             prpd/main.go: the node's configuration, applyStaticIPs, formatDrops.
--   Daemon/Console     prpd/main.go: what runTUILoop gives to the screen.
--   Iec                utc.go: EncodeUtcTime, DecodeUtcTime; sv.go: SVState.
--   Iec/Ber            ber.go: encodeLength, encodeTLV, parseTLV, Boolean, Integer16.
--   Iec/Walk           goose.go and sv.go: the header of a PDU and the walk over its fields.
--   Iec/Goose, Iec/Sv  goose.go: BuildGOOSEAPDU, ParseGOOSEAPDU; sv.go: BuildSVAPDU, ParseSVAPDU.
--   Trafficgen         trafficgen/main.go: buildFrame, buildFrameEt, assembleFrame, parseFrame.
--   Trafficgen/Stats   trafficgen/main.go: stats, noteFrame, noteTagged.
--   Trafficgen/Run     trafficgen/main.go: the frames of send, the loop of recv.
--   Trafficgen/Ping    trafficgen/main.go: pingMode.
--   Trafficgen/Tool    trafficgen/main.go: parseMAC, and the flags for the addresses and the type.
--   Prp/Effects        what the steps of the handlers leave alone.
--   Examples           runs on concrete frames.
-- The other children of these files hold proofs and are named for what they prove.
--
-- State and operations. A frame is a list of bytes, as natural numbers; where a byte must be below
-- 256 the theorems say so. A Go map is an association list, and a nil map an empty one. An operation
-- takes the state and returns it. What the node has written is the list `sent` of its state. The
-- world decides what the code cannot: Env holds the time in nanoseconds, which ports take a write,
-- and the order in which Go visits the duplicate table, of which the theorems assume no more than
-- that it lists the same map (IsOrder). An operation that may index a slice out of its range or call
-- a method of a nil interface returns an Outcome, a value or a panic; every other index was
-- tested by the code before. Numbers are unbounded naturals, with the wrap-around of the 16-bit
-- fields and of the 64-bit counters written out. The lengths of frames are those of Go's int.
--
-- The goroutines of a node are a step relation on the node and its buffer of frames. A system call is
-- a number in a sequence to which the kernel gives any answers, and a process is the list of its open
-- descriptors.
--
-- A subscriber slices a PDU out of its receive buffer, so a parser that does not test the length is
-- given what lies behind the frame as well (`spare`). What a load reads of its world, the file, the
-- environment, yaml, net.ParseCIDR, SHA-256 and the host's name, is the record System.
--
-- Loops. GetEtherType's loop runs on the frame's length, two bytes of which each round needs. The
-- digits of a key are printed with the number itself as fuel, which has no fewer digits. A BER length
-- has eight bytes at most. The walk over the fields of a PDU runs on the number of their bytes, two
-- of which each field takes at least. All other loops are over the lists that the code ranges over,
-- or count down.
--
-- Not modelled: the contents of the ioctl requests and Write (internal/iface), logging and traces, the
-- screen's session and the traffic generator's view (internal/tui), the other flags, the signals,
-- schedules and printed reports of the two commands and the traffic generator's sockets (cmd). A
-- failing write is seen by the counters only, as in the code. The locks are left out: each guards one
-- operation of the model. The times of the peers seen (supervisionSeen) have no lock in the code,
-- though the timer and the handlers share them; the model takes them as if they had.
pub mod Base
pub mod Engine
pub mod Nodetable
pub mod Supervision
pub mod Prp
pub mod Tui
pub mod Iface
pub mod Trafficgen
pub mod Conf
pub mod Daemon
pub mod Iec
pub mod Examples
