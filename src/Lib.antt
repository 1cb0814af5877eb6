-- ===== src/Lib.antt =====
-- NetHive is a VPN of peers on libp2p. A node reads IP packets from a TUN device, finds the peer
-- that owns the destination address, and sends the packet over a stream to that peer, which
-- writes it to its own device. This library models the program's own code as functions on its
-- states, a module for each part; Go's panics are `none`, its errors a `Result`, and its pools
-- lists or counts.
--
-- The parts, and the files that model them:
--
-- * core/protocol/ip.go is `Protocol`: `ParseIP` (`parse_ip`) reads the version and the
--   addresses of a packet into an `IPPacket` of a pool, whose old fields are stale; `ReleaseIP`
--   is `release_ip`. A slice out of range is a panic. `Netip` models `net/netip` of the standard
--   library, as far as the program uses it.
-- * core/stack/hash.go is `Stack`: `NetHash` (`net_hash`), `jHashMix` (`j_hash_mix`, by its
--   eighteen assignments) and `rol32`, on numbers below 2^32, with each wrap-around written out.
-- * core/config is `Config`: `defaultConfig` is `default_config`, `Load` and `Save` are in
--   `Config/Load`, and core/config/pk.go is `Config/Key`, over `encoding/hex` in
--   `Config/Key/Hex`. The disk with its JSON library is the record `Files`, which keeps a
--   `Document`, the settings with the text of the key, and libp2p's keys are the record
--   `Crypto`. The pointer to a key is an `Option`.
-- * core/engine is `Engine`: `Engine` itself has the state (engine.go, payload.go), `Engine/Conn`
--   has `addConnByDst`, `addConnByID` and the deferred deletions of their goroutines (conn.go),
--   `Engine/Routine` one iteration of each loop of routine.go, and `Engine/Stream` the loops of
--   `addConn` and `VPNHandler`. Nothing calls `addConnByID`, so that it is a function of the
--   model and no step. A channel is a number, and `Net` has what waits in each channel and
--   where its goroutine stands. `Engine/System` puts them together: a step is one iteration of
--   a loop, or one deferred call, of any goroutine, so that a run is a sequence of steps in any
--   order; a writing loop takes a packet only once `addConn` has opened its stream, or
--   `VPNHandler` serves one; the modules below it follow the queues, the buffers and the
--   packets of a run, and `Engine/System/Drain` has the runs that only empty the queues.
--   `Engine/Spec` says what the packet path promises: a queue of packets for each peer, and the
--   queues that were given up when its goroutine ended, with `view` as the queues that are seen
--   of a state, and events for what is seen of a step. `Engine/Dht` is dht.go:
--   `connectBootstraps` at every order in which its goroutines report, and the loop that calls
--   it again. `Engine/Search` is search.go and the part of `addConn` that opens a stream,
--   `Engine/Relay` is relay.go with the peer source of engine.go, `Engine/Mdns` is mdns.go, and
--   `Engine/Setup` has the method `Run`, and in `Engine/Setup/Make` the function `Run`; they
--   lead to the state in which the steps of `Engine/System` start. There the method `Run` takes
--   the answers of the device as they are; `Engine/Setup/OnDevice` has it on any device of the
--   interface, each call of which finds the world as the last has left it.
-- * cmd/main.go is `Program`, which composes `Load`, the function `Run` and the method `Run`;
--   `Program/OnLinux` has it on the device of Linux, and `Program/Writes` follows its packets.
-- * pkgs/log is `Log`: which cores `NewCore` makes of its configurations. zap and the files are
--   the record `Zap`.
-- * core/device is `Device`: `Device/Linux` is tun_linux.go, by the bytes of its requests and
--   the calls that it makes of a kernel (the record `Kernel`), and `Device/Windows` is
--   tun_windows.go. `Device/Contract` is the interface of device.go, all its methods with
--   `CreateTUN`, and what it promises; `Device/Linux/Methods/Interface` and
--   `Device/Windows/Methods/Interface` are the two implementations, each on a world made of the
--   parts of the system that it calls.
-- * core/route is `Route`: the entry that `Add` and `Del` hand to the kernel.
-- * pkgs/win is `Win`: the bytes of a socket address, and the interface's addresses over
--   iphlpapi.dll (the record `IpHelper`, of which nothing is supposed); `Win/Calls` has the words of
--   its calls.
-- * pkgs/command is `Command`: the texts of its shell commands, with the text of an address from
--   `Netip/Text`. pkgs/system is `System`, and pkgs/xpool is `XPool`.
-- * pkgs/xsync is a copy of the map of Go's library, and `XMap` states what the engine relies
--   on, as the documentation of `sync.Map` does; `XMap/Assoc` shows that a list of pairs does
--   it.
--
-- The engine's goroutines share the route table, the channels and the pools. `RoutineTUNReader`
-- fills `devReader`, `RoutineRouteTableWriter` moves each payload from it to a peer's channel
-- and opens a connection where there is none, the connection's goroutine empties the channel
-- into the stream, and the reading ends of the streams fill `devWriter`, which
-- `RoutineTUNWriter` empties.
--
-- Bounds: `BuffSize` and `ChanSize` are those of the source; numbers of 16 and 32 bits wrap
-- around. No definition runs on fuel: a loop is modelled by its iteration, or by recursion on
-- the events that it sees.
--
-- `Prelude` has the names that the modules share, with lemmas on lists, bits and results.
--
-- Not modelled: libp2p, the kernel, Wintun, iphlpapi.dll and zap themselves, which are parameters;
-- and the server for profiles of cmd/main.go. The method `Run` is that of Linux, since core/route has
-- no `Add` for Windows. pkgs/ringbuffer and pkgs/list are copies of other libraries that the program
-- does not use.
pub mod Command
pub mod Config
pub mod Device
pub mod Engine
pub mod Log
pub mod Netip
pub mod Prelude
pub mod Program
pub mod Protocol
pub mod Route
pub mod Stack
pub mod System
pub mod Win
pub mod XMap
pub mod XPool
