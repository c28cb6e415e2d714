-- ===== src/Lib.antt =====
-- cloudrig: a local emulator of Google Cloud services, in Go.
--
-- The emulator's parts share a few core packages, which this library models first.
--
-- Store.antt: store/store.go and store/memory.go, the versioned compare-and-swap map that every
--   service keeps its records in. Memory.Get, Put, Delete, List, Reset, Snapshot and Restore are
--   `get`, `put`, `delete`, `list`, `reset`, `snapshot` and `restore`; each holds the lock for its
--   whole run, so each is one step, and concurrent clients are a list of requests. Versions wrap at
--   2 ^ 64. Base64.antt is the encoding that page tokens go by.
-- Clock.antt: core/clock/fake.go, the clock that a test moves: AfterFunc, Stop, Advance, AdvanceTo,
--   SetNow and Pending are `after_func`, `stop`, `advance`, `advance_to`, `set_now` and `pending`,
--   and runTo is `run_to` over the loop `fire_due`. A callback is a script of calls into the clock.
--   The loop takes fuel, a unit for each firing; Clock/Termination.antt says how much is enough.
-- Gerr.antt: core/gerr/code.go, detail.go, gerr.go and json.go, the errors that services answer
--   with: With and its sisters build one, HTTPStatus is `http_status`, Envelope is `envelope`.
-- Faults.antt: core/faults/faults.go, the rules that make requests fail. Match is `match`, a walk
--   over the armed rules that gives them back with their counts moved on. The floating-point rate
--   is a parameter, `Rates`. The rearming of rules by ReadSnapshot of cloudrig.go is here too.
-- Resource.antt: core/resource/key.go, the keys that storage puts into the store, as bytes.
--   Prelude/Decimal.antt is the printing and reading of numbers that they go by.
-- Logring.antt: core/logring/logring.go, the last lines of a child process and the channels of its
--   followers. Write is `write`, its loop takes the length of the partial line, and one more, as
--   fuel.
-- Logging.antt: services/cloudlogging/filter.go, the query language of Cloud Logging. Tokens and
--   Parser below it are the code; a filter is bytes, an entry is the fields that a filter reads.
--   Recursion goes down the levels that MaxFilterDepth leaves, and loops take the length of what is
--   left, and one more, as fuel. The parser of RFC 3339 times is a parameter.
-- Resumable.antt: services/storage/resumable.go, uploads in chunks: parseContentRange, resumableChunk
--   and finalizeResumable. What a copy of a request's body moves, and whether it fails, is an
--   argument.
-- Preconditions.antt: services/storage/object.go, the conditions on generations that gate an
--   operation on an object: checkPreconditions is `check_preconditions`.
-- Storage.antt: services/storage, buckets and objects over the store. The service holds no lock, so a
--   request is a `Program`, a tree of single calls of the store, the clock, the content files and
--   the bus (Storage/Program.antt), and `run` performs it with what other clients do before each
--   call; where they do nothing the request runs alone. Storage/Buckets.antt is bucket.go,
--   Storage/Publishing.antt the writing of object.go with blobref.go, Storage/Objects.antt the other
--   requests on objects and copy.go, Storage/Listing.antt list.go, Storage/Policies.antt iam.go.
--   The source's bounds are kept: 64 attempts of a write and of a count, 1024 generations, 8 reads of
--   a pointer. ListObjects takes fuel, one for each page of the store, and
--   Storage/Listing/Ending.antt says how much is enough. JSON is a parameter, `Codec`, and so is what
--   blobs.Put makes of a body. Generations are numbers without the bound of an int64, and metadata is
--   opaque, with a nil map apart from an empty one, which the JSON does not keep apart.
-- Secrets.antt: services/secretmanager, over the store: Secrets/Reading.antt has the requests that
--   read, Secrets/Writing.antt those that write. The encodings, the descriptor and the checksum are
--   a parameter, `Codec`.
-- Tasks.antt: services/cloudtasks, over the store and the fake clock: Tasks/Dispatch.antt is
--   dispatch.go, Tasks/Requests.antt task.go, Tasks/Queues.antt rpc.go. A dispatch is two steps,
--   `dispatch_begin` and `dispatch_end`, one for each time that it takes the lock; how the HTTP
--   request between them ended is an argument, and `Codec` is the protobuf JSON. A dispatch that is
--   due at once runs in a goroutine: the service's `launched` names it.
-- Pubsub.antt: services/pubsub, over the store and the fake clock. Pubsub/Leases.antt has the life of
--   a message that is taken (`take` is `take_messages`, handleAcks is `handle_acks`),
--   Pubsub/Requests.antt the topics, the subscriptions and publishing, Pubsub/Pending.antt what a
--   snapshot carries. The map of leases is one list for all subscriptions; the goroutine of a
--   stream is not modelled, its channel of one token is.
-- Fields.antt: services/firestore/path.go, the dotted paths of a document: lookup, setPath and
--   deletePath are `lookup`, `set_path` and `delete_path`.
-- Router.antt: transport/router.go, the routes of the HTTP surface: Handle is `handle`, match is
--   `match_route` and ServeHTTP, up to the call of the handler, is `serve`.
-- Rpc.antt: what the gRPC services share, in particular their replies.
-- Prelude.antt: what the modules share: tests on numbers, lists, integers, strings of bytes.
--
-- Not modelled: HTTP and gRPC plumbing, the REST surfaces, processes, the file system, and what other
--   packages do; and of the services the documents of firestore, cloudscheduler, the log store of
--   cloudlogging, gke, cloudrun, cloudfunctions and serviceusage, and the Reset of storage.
pub mod Base64
pub mod Clock
pub mod Faults
pub mod Fields
pub mod Gerr
pub mod Logging
pub mod Logring
pub mod Preconditions
pub mod Prelude
pub mod Pubsub
pub mod Resource
pub mod Resumable
pub mod Router
pub mod Rpc
pub mod Secrets
pub mod Storage
pub mod Store
pub mod Tasks
