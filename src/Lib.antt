-- ===== src/Lib.antt =====
-- Fibratus watches the kernel events of a Windows host, decorates them, and matches them against
-- rules. This library models the parts where its decisions are made, in Go under pkg/.
--
-- An event comes from a source into the queue (pkg/event/queue.go). If its type can have a callstack,
-- the decorator (pkg/event/stackwalk.go) holds it back until the stack walk of the same thread comes,
-- or until a flush finds it stale; then the listeners see it, the rule engine among them. The engine
-- evaluates the filters of its rules (pkg/filter/ql). A sequence rule (pkg/rules/sequence.go) is a list
-- of filters, one to a slot: a state machine says which slot has to match next, the events that matched
-- wait in their slots as partials, and timers and the ends of processes cancel what was gathered.
--
-- The files:
--   Event, Event.Types: an event, its type with the GUID and the operation code that make it up
--     (pkg/event/event.go, types_windows.go). An event is known by its pointer; metadata and callstacks
--     that change later stand in stores by pointer. Event.Values: the values that link the events of a
--     sequence (compareSeqLink in pkg/filter/util.go), with proofs in Symmetry.
--     Event.Bitsets: the sets of wanted events (pkg/event/bitset.go, pkg/util/bitmask), with proofs in
--     Bitsets.Mask and Bitsets.Wanted.
--   Queue.Decorator, Queue.Push: `State` is the decorator's buckets and process cache, the callstack
--     parameters, and what was sent on the channel. `hold` is StackwalkDecorator.Push, `pop` is Pop,
--     `push` is Queue.push, `push_event` is Queue.Push, `flush` is flush. A call that waits for a mutex
--     which its own goroutine holds is `blocked`. Queue.Frames, Fifo, Popping, Blocking, Flush and
--     Deadlock hold the proofs.
--   Sequence: `SequenceState` is sequenceState. Sequence.Machine is initFSM, configureFSM and the
--     transitions, Sequence.Partials is addPartial, gc and expire, Sequence.Run is runSequence. The
--     proofs are in Sequence.Permits (the configuration), Slots (a match), Resets (deadline, expiry,
--     terminal state), Progress (a run), Reachable (all that can happen, in any order), and
--     Sequence.Partials.Sorting, Adding, Placing, Collecting, Owners and Expiring.
--   Ql.Token, Ql.Value, Ql.Expr: tokens, values and expressions (pkg/filter/ql/token.go, ast.go,
--     literal.go, expr.go). Ql.Numbers and Ql.Texts are the cases of evalBinaryExpr by the type on the
--     left, Ql.Eval is Eval. The proofs are in Ql.Numbers.Order, Ql.Texts.Intersection and
--     Ql.Eval.Logic.
--   Wildcard: Match of pkg/util/wildcard/wildcard.go, with the decoding of UTF-8. The proofs are in
--     Wildcard.Pattern, Decision and Total.
--   Rules: the index of the compiled filters (Compile and collect in pkg/rules/engine.go), with
--     Event.Types.Names for the names in rules (pkg/event/metainfo_windows.go). Rules.Engine is
--     ProcessEvent, appendMatch and processActions; it runs the sequences of Sequence, each in its own
--     `Tracked` state, over metadata that all share. Rules.Compiler is pkg/rules/compiler.go. Proofs are
--     in Keys, Index, Dispatch, Simple and under Compiler.
--   Capture: what a capture file holds of an event and is read back. Capture.Bytes is the readers and
--     writers of pkg/util/bytes, a buffer from a position on, and its slices and strings; a `Decoded`
--     is a value, an error, or a panic. Capture.Sections is pkg/cap/section, Capture.Times the texts of
--     times, Capture.Maps Go's maps. Capture.Handles is pkg/handle/types/marshaller.go,
--     Capture.Processes pkg/ps/types/marshaller_windows.go, Capture.Executables pkg/pe/marshaller.go
--     with the certificate of pkg/sys/trust.go, and Capture.Events pkg/event/marshaller_windows.go; of
--     each, the file writes and its Reading reads, for the values of an event its Restoring.
--     Capture.ParamTypes is pkg/event/params/types_windows.go. The proofs are in Bytes.Placed (what
--     stands at a position of a buffer), and under each part in the other files, from the loops and the
--     parts of the format to its RoundTrip.
--   Prelude: what the other modules share. Examples: concrete runs.
--
-- Machine integers are native numbers with the wrap-around written out (`wrap`, `% u32_mod`). Times
-- are nanoseconds. The only loop on fuel is the wildcard search, whose bound on the rounds is proved to
-- be enough for every input; all other loops are structural.
--
-- What the code takes from elsewhere is a parameter: the state machine library (`Env.fire`, with
-- `FollowsPermits` for what it documents), the filter of a sequence and the process snapshotter (`Env`),
-- the listeners of the queue (`Listener`), the fields and functions of a filter (`Valuer`), floats
-- (`Floats`), the bit sets of a library (`BitSetLibrary`, with `IsBitSet`), case folding, fuzzy search
-- and the text of addresses (`Strings`), the texts of times (`TimeFormat`, with `ParsesBack`), the order
-- of a machine's bytes (`ByteOrder`), the metadata of an executable for a process (`PeCodec`, with
-- `KeepsPe`, which the metadata of Capture.Executables fills), the text of an IPv6 address (`to_ipv6`, with
-- `ReadsIpv6`), the actions of rules (`Actions`), and the
-- compiler of their filters (`Tools`). Go's maps are ranged over in an order that is a parameter too.
--
-- Not modelled: the lexer and parser of the filter language, the accessors and functions, the
-- snapshotters, the JSON of an event, the files around captures, outputs and alert senders, and all that
-- is a call of Windows or of a library. Counters, log lines, the capacity of the channel, and listeners
-- that push events themselves are left out.
pub mod Prelude
pub mod Capture
pub mod Event
pub mod Queue
pub mod Wildcard
pub mod Ql
pub mod Sequence
pub mod Rules
pub mod Examples
