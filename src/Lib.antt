-- ===== src/Lib.antt =====
-- ts1p: a secrets server with setec's API and version semantics, over a storage backend.
--
-- A request passes from server (server/server.go) to store (store/store.go), which keeps setec's
-- version rules over a backend (backend/backend.go): the in-memory one (backend/mem/mem.go), or
-- 1Password (backend/onepassword/onepassword.go) behind the read cache (backend/cache/cache.go). A
-- warmer (backend/cache/warmer.go) refreshes the cache in the background, a debug handler
-- (server/debug.go) flushes it, and cmd/ts1p/main.go opens, wires and closes the parts.
--
-- Modules:
--   Prelude        tests, lists, equality, maps as association lists, sorting
--   Errors         Go's errors: sentinels, wrapping, errors.Is
--   Exec           methods on a shared state that may fail
--   Backend        backend/backend.go: Records has Record, IsClaimed, Clone and the context hints, Equality has Equal;
--                  Contract has the interface Backend, as a record of operations over a state, and
--                  IsLawful, what its comments promise: reads that are current return what is held, a
--                  write that succeeds replaces one name, a write that fails may have taken effect; a storage may
--                  keep another form of a record (SameRecord)
--   Mem            backend/mem/mem.go, as an instance of the contract
--   Store          store/store.go: one function for each method, over any backend; below it Guards (the
--                  name checks), Model (one secret with no maps and no storage), Abstraction (a record
--                  as such a secret), Access and Refinement (each write against Model), History and
--                  Ageing (Model over time), Runs (sequences of calls), Reads, Listing, Refusals,
--                  Overflow, Examples
--   Cache          backend/cache/cache.go: one function for each method, over any inner backend and any
--                  LRU; below it Eviction (the LRU's interface), Timing (clock, jitter, expiry), Entries
--                  (when what is resident is right), Reading, Loading and Listing (the ways that a read
--                  goes), Coherence (reads), Writes, Passing (what a method passes on), Lawful and Forced (the
--                  contract, over an inner backend of its own and over any), Expiry, Examples.
--                  Interleaving has fetches and one writer at a time as steps of one system; below it
--                  Invariant, Safety (the steps of fetches), Writing (those of writes), Steps, Examples.
--                  Warmer is backend/cache/warmer.go: one pass of the loop after the other; below it
--                  Reconcile, Tracking (what a step keeps), Passes, Asking, Ranging and Sweeping (whom a pass
--                  asks for what is due), Timing (deadlines), Examples
--   Server         server/server.go: check_and_log and log_access, a body for each handler, serve_json,
--                  admin_gate; below it Wire (requests and replies), Identity (getIdentity), Access and
--                  Requests (what a request must show), Replies, Gate (the debug handlers'), Routes
--                  (registerDebug of cmd/ts1p/main.go), Examples.
--                  Debug is server/debug.go: FlushCacheHandler; below it Spacing, Examples
--   OnePassword    backend/onepassword/onepassword.go: Load, Save, List and Delete over the SDK's items
--                  API; below it Titles (rememberIDs and the count of resolveID), Fields (a record as
--                  fields of an item), Validity, Roundtrip, Faults (what an error is taken for), Client (call),
--                  Connected (the items API behind call), Spending (requests that a method makes),
--                  Vault (what is relied on in a vault that nothing else writes to), Listings, Lawful (the
--                  contract over such a vault), Start (New, start, connectVault; below it Trying, Opening), Sample (a
--                  vault in memory), Examples. Below Client: Retry
--                  (how often), Outcomes (how it ends), Examples. Below Lawful: Silence (reads), Finding
--                  (resolveID, findID), Loading (Load), Listing (List), Placing (a vault after a write), Rendering
--                  (fields), Writing, Making and Updating (what Save does), Saving, Removing, Contract
--   Deployed       the store over the cache over 1Password, as buildBackend wires them; below it Examples
--   Serving        cmd/ts1p/main.go: serve, with what it opens and closes as a trace of events; below it
--                  Teardown, Examples
--   VendorHash     cmd/vendorhash/main.go: check and update; below it Restoring, Examples
--
-- Strings and byte slices are lists of bytes. A Go map is an association list in which a write to a key
-- that is there replaces its entry; its iteration order shows nowhere, since names and versions are
-- sorted, but in the warmer, whose ranges take their order as an argument. A method under a mutex is one step. api.SecretVersion is setec's, an unsigned integer whose
-- modulus is a parameter of Put. Log lines are not modelled, and neither are the texts of error
-- messages, except the name that an error quotes.
--
-- The cache's methods are one step each, and Interleaving takes them apart: a fetch takes a sequence
-- number, is answered, and lands, each a step; Save and Delete are two and three. There callers that
-- share a flight through singleflight are one, one writer is at work at a time, as the store's mutex
-- makes it, and writes end before the sequence number, a uint64, is full. The clock and the random draws
-- are functions that tell their k-th value; a negative TTL is 0. The cache's coherence is over an inner
-- backend that nothing else writes to, that keeps records as they are given and whose failed writes change
-- nothing; Forced needs none of this.
--
-- The warmer's loop is a list of passes: each tells what is decided outside (whether the context is done
-- at each look, the orders of the ranges over the map, which case of the select is taken). The time that
-- it sleeps shows only in the clock. A pass has the cache to itself. Its lead of 3/4 of the TTL is exact
-- below 2^51 ns, where the product of the floating-point numbers is. The loop and the passes recurse on
-- lists, so none needs fuel. FlushCacheHandler serves one request at a time, though the code
-- holds no lock over its load, test and store of the last flush.
--
-- The server's rules, WhoIs, audit writer and JSON are arguments, and a request carries the answer of
-- WhoIs and whether its caller is gone at each moment when the code looks. The SDK's items API and the
-- backoff library are arguments, the latter with the law that its documentation gives: it repeats an
-- operation up to its number of tries while the errors are not permanent, or at the start until its time is
-- up or the context is done. Which request outlives the
-- deadline of a call, and when the caller leaves, are functions of the environment; a caller that leaves
-- has a canceled context. os.Exit notes its code and goes on, as the function that tests put in its place.
--
-- The vault of Lawful has one item for each title and each ID, gives a new item an ID that was never used,
-- and lists and returns what it holds; a request that fails may have taken effect. That this holds of the
-- items API behind call as well is not shown. JSON reads back what it wrote, up to the order of maps.
--
-- Not modelled: the log lines and metrics, the label of Save's Get in a call (it is Load's), the WebAssembly frame of a fault, the rate limit of the error log, the registration of the API's handlers on the mux, the parsing of flags, tsnet itself, and the
-- dashboard generator, which calls a library's builders. In Serving what the outside answers at each step
-- is an argument, an event is noted when its call has succeeded, and in VendorHash so are the file system,
-- the build, the regular expression and JSON.
pub mod Prelude
pub mod Errors
pub mod Exec
pub mod Backend
pub mod Mem
pub mod Store
pub mod Cache
pub mod Server
pub mod OnePassword
pub mod Serving
pub mod VendorHash
pub mod Deployed
