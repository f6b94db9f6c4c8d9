-- ===== src/Lib.antt =====
-- The native protocol client of the FerricStore Go SDK: how values become bytes and come back, how
-- frames carry them and chunked responses are put together, how a connection hands out credits for requests
-- in flight, how each request gets its answer and when it is sent again, how commands are
-- batched, and how keys find the nodes of a cluster.
--
-- Parts and files
-- - Base: Boolean tests, lists measured by native numbers, results, two's complement integers, bytes and
--   big-endian numbers, and Go maps as association lists (Base/Dict).
-- - Wire: the codec of dynamic values. Wire/Value has the values that `writeNativeValue` of
--   native_codec_wire.go switches on; Wire/Encode follows that file, writer by writer, with the output
--   limit, the container budget and the depth limit as state; Wire/Decode follows
--   `decodeNativeValueBudget` of native_codec_decode.go. Wire/Encoding says what the bytes of a value
--   are, with no state and no limits, and Wire/Normal what a value comes back as. The other files
--   of Wire prove that the writers implement the encoding and that the reader inverts it.
-- - Frame: Frame/Header has the 24-byte header of `writeRequest` (native_connection.go) and
--   `readNativeFrameWithLimit` (native_frame.go); Frame/Response and Frame/ServerInitiated the responses
--   (native_response.go); Frame/Assembler `nativeResponseAssembler` (native_frame.go). A complete body is
--   decoded by Wire/Decode.
-- - Wire/Payloads: the request payloads that native_codec_wire.go and native_codec_kv_wire.go write without
--   a map in between.
-- - Flow: `nativeFlowController` of native_limits.go. Flow/Controller has its operations, the other files
--   their theorems; Flow/Invariant is what holds between two critical sections.
-- - Request: the requests in flight of `NativeExecutor`. Request/Executor has the operations of native_pending.go,
--   native_reader.go and native_request.go on the map of pending requests, Request/Identifiers the numbering
--   of requests, and Request/System the interleaving of callers, the reader, the heartbeat and the owner as a step
--   relation. Request/Ledger counts what requests are owed and what was sent or released;
--   Request/Settling and Request/Closing say what each operation does to the map and to the counts,
--   Request/Invariant, Request/Registering, Request/Leaving and Request/Interleaving that every step keeps the
--   invariant, and Request/Promises, Request/Steps and Request/Credits what follows for callers. A flow controller
--   is a number there: its credits are those of Flow.
-- - Retry: when a request is sent again. Retry/Errors has the chains of errors and the disposition of a server's
--   error (native_retry.go, request_delivery.go), Retry/Loop the ends of one attempt and the loop around it
--   (native_request.go) on a given list of rounds; Retry/Safety, Retry/Replays and Retry/Ending are its theorems.
-- - Buffered: the batching that a caller flushes. Buffered/Capacity has the memory that a snapshot would retain
--   (buffered_capacity.go) on the finite tree that reflection shows of a value, Buffered/Executor the sections of
--   `Do` and `Flush` (buffered.go), Buffered/Flushing their interleavings; Buffered/Sizes, Buffered/Order and
--   Buffered/Promises are their theorems.
-- - Route: Route/Slot has the slot of a key (topology_routing.go), with the table of the IEEE polynomial of
--   Go's hash/crc32 written out; Route/Plan the plan of a command on many keys (topology_kv_route.go) on one
--   snapshot of the topology, with its theorems in Route/Grouping and Route/Partition; Route/Shard the slot that
--   the keys of one command share. Route/Build builds the topology from the fields of a SHARDS response
--   (topology_build.go); Route/Build/Reads, Covers, Consistent and Routing are its theorems.
--   Route/Scatter runs an MGET over the groups of a plan (topology_scatter.go), its tasks in any order and with the
--   shards' answers as an argument; Route/Scatter/Placing, Planned, Gather and Merged are its theorems.
-- - Stream: the identifiers of stores_stream_id.go.
--
-- How the code is read
-- Every method is a function from the state before to the state after and the result. What runs under a
-- mutex is one step. An integer of the wire keeps its width: `be w n` writes n modulo 256^w, and
-- `to_word` is two's complement on 64 bits. Slices are lists, so sharing and capacities do not show. A Go
-- map is an association list, and where the code ranges over one, either it sorts the keys first, as the model does, or the
-- order is an argument of the theorem.
--
-- Bounds and fuel
-- The decoder recurses on the levels that are left below its depth limit, and its loops on the number of
-- items announced, which the item budget bounds. The pump of the flow controller has two loops: a round
-- visits each lane of the ready list once at most, and there are at most as many rounds that grant as there
-- are waiters, and one more. The search for a request identifier passes 0 and every pending identifier once at most,
-- so two rounds more than requests are pending find one.
--
-- Not modelled
-- Values that only reflection reaches, cycles between pointers, text marshalers and the payload of
-- FLOW.QUERY; the compact response codecs, which are an argument of Frame/Response; sockets, TLS, timers and
-- goroutines; the names of endpoints and the endpoint policy, which are arguments of Route/Plan, and the
-- refresh of the topology; the scattered counts and pipelines; automatic batching, transactions and publish
-- and subscribe; whether a command can be copied, which is an argument in Buffered; the typed command builders of the stores and of the workflow client.
pub mod Base
pub mod Wire
pub mod Frame
pub mod Flow
pub mod Request
pub mod Retry
pub mod Buffered
pub mod Stream
pub mod Route
