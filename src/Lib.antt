-- ===== src/Lib.antt =====
-- Verification of the data collector: a Go program that captures TCP packets, puts each stream
-- together again, and hands the streams to protocol decoders.
--
-- The program's parts. capturer/actor.go opens a capture and feeds its packets to an assembler.
-- capturer/extendedassembly.go is that assembler: a stream pool keeps a connection for each pair of
-- flows, a connection keeps the pages that came too early, and what is in order goes to the
-- connection's stream. capturer/capture.go makes the streams, capturer/MutiCoroutineAccessReader.go
-- reads them, decoder/http.go and capturer/decoder.go interpret what is read.
--
-- Which file models what:
--   Base: shared names; integers, lists, stores, and `Result`, whose errors are the faults of a run.
--   Assembly.Sequence: `Sequence.Difference`, `Sequence.Add`, `byteSpan`.
--   Assembly.Page, Assembly.PageCache: `page`, `pageCache` with `grow`, `next`, `replace`.
--   Assembly.Connection: `connection` with `reset`, `traverseConn`, `pushBetween`.
--   Assembly.Segment: `pagesFromTCP`.
--   Assembly.Work: what an assembler does to a locked connection: `insertIntoConn`,
--     `addNextFromConn`, `addContiguous`, `sendToConnection`, `skipFlush`, `closeConnection`.
--   Assembly.Pool: `StreamPool` with `grow`, `newConnection`, `getConnection`, `remove`.
--   Assembly.Assembler: `AssembleWithTimestamp`, `FlushOlderThan`, `FlushAll`.
--   Assembly.Content: the bytes that are delivered, as a stretch of those sent: Stretch, what `byteSpan`
--     cuts; Contiguous, what `addContiguous` adds; Delivered and Continues, a packet that goes on;
--     Ahead, one that comes too early; Handed and Packets, packets in any order.
--   Assembly.Steady: the assembler and its pool between two calls: Slots, the connections of the map;
--     Protocol, the order of the calls of streams; Invariant, Supply, Opening, Packets, Change, Moved,
--     Unlock, the invariant through a packet; Flushing, Looping, Sweeping, Emptying, Aging, through both
--     flushes; Calls, through any sequence of these.
--   Assembly.Tests, Assembly.Steady.Tests: runs at concrete packets.
--   Streams.Reader: `StreamReader` of capturer/MutiCoroutineAccessReader.go; in Steps and Run, its calls in
--     any order, `Close` included.
--   Streams.Concurrent: `ConcurrentReader` of the same file, its reads, and in Status its status word.
--   Common.Filter, Common.Address: common/util.go. Common.Goroutine: `GoID` of common/common.go.
--   Capture.Actor, Capture.Manager: `capture` and `captureManager` of capturer/actor.go.
--   Capture.Loop: the goroutine of `ensureRunning` that hands packets to an assembler.
--   Capture.Program, Capture.Launch: the dispatch of the manager, and the messages that main.go sends
--     to it.
--   Endpoint: capturer/tcp.go, `addStream`, `distinguishStreamDrc` and `getInfo` of capturer/capture.go.
--   Endpoint.Factory, Endpoint.Kept: `startParseStream` there. Endpoint.Validation: the goroutines of
--     `newServerEndpoint`, which choose a decoder.
--   Decoder.Http: the search for a valid start of decoder/http.go; Decoder.Http.Parsing: its `Parse`.
--   Decoder.Wrapper: `StreamWrapper` of decoder/util.go. Decoder.Registry, Decoder.Default:
--     capturer/decoder.go.
--   Streams.Tests, Common.Tests, Capture.Tests, Endpoint.Tests, Decoder.Tests: runs of these.
--
-- State. A pointer is a number in a store: the pages of a cache, the connections of a pool. `Work`
-- is an assembler with the connection that it has locked; `lock` and `unlock` read and write the
-- pool's store. The calls of streams are a list of events. A panic, a nil dereference and an index
-- out of range are the errors of `Result`.
--
-- Loops. Each recurs on fuel and errs with `out_of_fuel`. The loops over a connection's list take the
-- connection's page count, which is the list's length as long as the list is in order; the loop of
-- `pagesFromTCP` takes one more than the payload's bytes. The loop of `AssembleWithTimestamp` that
-- waits for an open connection takes its fuel as an argument.
--
-- `Read` takes one round for each slice in the channel and for an interrupt, and two more. The loops of
-- the status word recur on the list of what other goroutines do to it meanwhile.
--
-- Channels. A channel is a queue and a flag for closed. A call that has to wait ends in the state that
-- it waits in, and is made again from there. A slice that is sent is a value: what is said of streams is
-- said of a writer that leaves a slice alone once it is sent.
--
-- Numbers. An int and an int64 are unbounded here; sequence numbers are proved to stay below 2^32.
-- Counters are natural numbers, and the books of the cache show that none is counted down at 0.
--
-- Goroutines. The assembler and the loops of actors are sequences of calls. The goroutines that choose a
-- decoder are a schedule: a list that names the goroutine of each step, where a step is one call; a
-- search is one call, though in the program searches of several goroutines can take turns, read by read.
--
-- Not modelled: logging and its counters (`memLog` and `debugLog` are false), the mutexes of the pool
-- other than by what runs under them, two assemblers on one pool, the trial readers that the factory's
-- `New` starts. What `net.ParseIP`, `strconv.Atoi`, pcap, the actor system, the regular expressions,
-- `http.ReadRequest` and `http.ReadResponse` answer is a parameter.
pub mod Base
pub mod Assembly
pub mod Common
pub mod Streams
pub mod Endpoint
pub mod Capture
pub mod Decoder
