-- ===== src/Lib.antt =====
-- The Go SDK of the Agent Client Protocol: the JSON-RPC connection of the package acp and what it
-- stands on.
--
-- A connection reads one JSON-RPC value per line (frame.go), tells requests, responses,
-- notifications and batches apart, and names each request by a canonical text of its id
-- (request_id.go). Responses go to the requests that wait for them, notifications to a queue that
-- one worker empties, and a response is handed over only after the notifications that came before
-- it (connection.go). A connection of the second protocol version (experimental/v2) stands on such
-- a connection: its handler pins a version by the initialize request and calls the methods of an
-- agent or client, and a router of both versions chooses between two handlers. A prepared request
-- (prepared_request.go) splits an outbound request into a registration, a dispatch and a wait, and
-- says of each failure whether the transport may have seen the request.
--
-- Files:
--   Base, Bytes, Result, Json, Error, Message: numbers, byte strings with Go's bytes.TrimSpace,
--     errors as values, what the code relies on of encoding/json, errors.go (RequestError and its
--     constructors), and anyMessage of connection.go with its UnmarshalJSON.
--   RequestId: request_id.go. Scan is parseJSONRPCNumericID and parseBoundedInt, Render is
--     formatCanonicalJSONRPCNumericID, RequestId itself canonicalJSONRPCIDKey. Digits, Grammar,
--     Denotation, ReadBack, Canonical, SameNumber, Key, Bounds and NoPanic hold what is shown.
--   Frame: frame.go, ParseTransportFrame, Encode, EntryCount and the replies of batch entries.
--   Connection.Options: ConnectionOptions and normalizeConnectionOptions of connection.go.
--   Connection.Notifications: enqueueNotification, processNotification, markNotificationComplete,
--     notificationAlreadyProcessed, waitNotificationsUpTo and waitNotificationsReentrant of
--     connection.go. Ordering has the steps and the invariant.
--   Connection.Requests: addPending, admitPending, handleResponse, abandonPending, detachPending,
--     finishPending, shutdown and the chain of response deliveries of connection.go; State has the
--     state, Lifetime the steps, Responses and Claimed which responses are taken.
--   Connection.Batch: the slots that dispatchBatch gives to the entries of a batch, and
--     batchReply.complete of connection.go.
--   Connection.Callbacks: batchCallbackSlots and batchCallbackQueue of connection.go, with
--     reserveBatchCallback and the operations of handleInbound, batchReply.complete and the worker.
--   Connection.Handling: handleInbound of connection.go, as the list of what it does.
--   Connection.Inbound: dispatchFrame, dispatchMessage's choice, enqueueRequest, removeInflight and
--     handleCancelRequest of connection.go.
--   Connection.AfterResponse: afterResponseState of connection.go.
--   Prepared: prepared_request.go, with the part of processWrites (connection.go) that serves its
--     write. Errors has RequestLifecycleError and what reads it, Dispatch has Dispatch and what it
--     calls, Steps the steps of callers, writer and connection, Response completeResponse and
--     CancelRequest.
--   V2: experimental/v2, how a connection of the second protocol version is opened.
--     Initialization is the type initialization of initialization.go and validateRequestID; its
--     Handshake describes it as the documentation does. Fields is normalizeInitialize,
--     ProtocolVersionFromInitialize and v1InitializeFields; Router is ProtocolRouter.Handle of
--     negotiate.go up to the call of a handler. Dispatch is decodeParams, requireInboundKind,
--     toRequestError and the switches of AgentSideConnection.handle and ClientSideConnection.handle
--     in conn.go, its Surfaces the tables of their cases. Agent is initialize on both sides. Pinned,
--     Negotiation, Rewriting, Fallback, Admission, Agreement and Attempts hold what is shown of them.
--   Versions: cmd/upstreamdrift/version.go, the tags of releases of the schema. Compare is Compare
--     and what it calls, Latest latestTag; Order, Preorder, AtMost and Maximum hold their laws.
--   Schema: cmd/generate/internal/load, Definition of load.go and the references between definitions
--     in merge.go. Duplicates is buildUnstableDuplicateSet, Copies the copies that
--     MergeStableAndUnstable makes; Names, Loop, Fixpoint, Closure, DuplicateSet and Separation hold
--     what is shown of them.
--   Tests: runs, and the theorems at concrete inputs.
--
-- State and interleaving: a critical section of a mutex is one function from the state to the
-- state, and the steps of a component are the sections that goroutines may run in any order. What
-- another goroutine decides, such as the error of a context, is an argument of the step. In
-- Prepared, the release after Abandon and changes of the connection's requests may happen at any
-- time, which is more than the code does. A pending request is an index into the list of all that
-- were ever made, so that two names of one object stay the same object.
--
-- Bounds and fuel: the loop of markNotificationComplete runs on as much fuel as there are numbers
-- in the set it takes from, each round takes one. The loop of waitNotificationsReentrant is given
-- the numbers left up to its target. The loop over references in buildUnstableDuplicateSet is given
-- a step for each root and each key of the schema, as a name is queued once; its last loop is given
-- a round for each name that was reached and one more, as each round but the last adds a name. Go's
-- int and uint64 counters are unbounded numbers here: no sequence number, length or exponent of the
-- code comes near 2^63, exponents being bounded by 4096 when they are read. A version that a peer
-- asks for is an unsigned 16-bit number that the code only compares, and the numbers of a version
-- tag are below 2^63 or refused.
--
-- Not modelled: encoding/json, whose answers are the fields of Json, IdCodec and InitializeCodec
-- and may be any functions, the package unicode and reflect.DeepEqual, which are parameters too;
-- the handlers, what they return being an argument; contexts, timers and the transport; how the
-- workers pick inbound requests, and the values that Wait returns; the generated types of the
-- protocol and their dispatch tables; the emitter of the code generator and the rest of its merge
-- of schemas; the standard streams transport; the methods of the second protocol version that only
-- send a request; the network and file access of the drift checker under cmd.
pub mod Base
pub mod Bytes
pub mod Json
pub mod Result
pub mod RequestId
pub mod Connection
pub mod Error
pub mod Message
pub mod Prepared
pub mod Frame
pub mod V2
pub mod Versions
pub mod Schema
mod Tests
