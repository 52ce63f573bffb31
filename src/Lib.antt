-- ===== src/Lib.antt =====
-- larri rents a GPU host, serves a model on it and destroys it again. This library models the parts
-- that decide about money and about what exists: the state directory, the cost, the sizing of a model,
-- the choice of its file, of an offer and of the next after a failure, the bring-up around the paid
-- call, the supervisor, the teardown and the search for orphans.
--
-- The parts, and where they are:
-- - Core: internal/core/{state,types,termination}.go. Lifecycle states and what they say about money
--   (State), what is asked for and offered (Criteria), instances and rigs (Rig), endings (Termination).
--   Label is label.go (EncodeLabel, DecodeLabelWith and what they call).
-- - State: internal/state. Id is id.go (newID, encodeULID, ValidID, IDTime); Journal is journal.go
--   (Append, ReadJournal, EntriesFor); Store is store.go (Load, Save, Transition, RecordIntent, List,
--   Billable); Cost is cost.go (the replay behind Cost, CostFor and CostForRig).
-- - Sizing: internal/sizing. Facts, Shards and Quant are facts.go, shards.go and quant.go; Plan is Plan
--   of sizing.go with all that it calls; Variants is variants.go (FindQuantised, NormaliseQuantMethod);
--   Shortfall is Analyse of shortfall.go.
-- - Gguf: internal/gguf/gguf.go (Parse and the readers of keys; Bytes is the parser's primitives, and
--   Written a writer that stands for the format).
-- - Runtime: the hardware requirements of internal/runtime/runtime.go. Llamacpp:
--   internal/runtime/llamacpp/gguf.go; Shards is ShardFiles with what reads it, Quants is ResolveGGUF
--   from the listing, with SplitRef of internal/sizing/huggingface.go.
-- - Rank: internal/rank/rank.go (classify, classMedians, sessionCost, Select).
-- - Daemon: internal/daemon. Supervise is supervise.go, one poll at a time; Down and World are Down of
--   up.go, with adoptEnding, recordEnd, confirmAbsent, instanceForRig and holdsRig; Provision is the end
--   of Up, from the minted id to the instance, with resolveFailedCreate, closeNeverCreated and
--   teardownAfterFailure; Orphans is orphans.go; Absence is absence.go. Survey is survey, Disk is
--   sizeDisk with DiskNeedGB, Market is the exclusion of hosts that failed, Fallback is UpAndServe, all
--   of up.go. Boot is waitForSSH and Ready is waitReady, of live.go.
-- - Prelude: tests on numbers, lists, strings as bytes and the search in them, integers and their
--   numerals, float64 as a parameter, the stable sort. Examples: runs at concrete inputs.
--
-- How they interact: the daemon changes a rig only through the store, which journals each move
-- before it writes the snapshot; the supervisor, the teardown and the record of absence read what a
-- rig cost from the journal. UpAndServe surveys anew at each attempt, with the hosts that failed
-- left out, and a survey plans, searches and ranks by Sizing and Rank. The store's calls are
-- functions from a disk and the caller's copy of a rig to a new disk, a new copy and an error. Other
-- processes are lists of such calls (State.Store.Destroyed.Call) that run between two steps, each
-- with its own, possibly stale, copy; one call is atomic, since it holds the rig's lock. What the
-- file system, the clock and the provider answer are arguments.
--
-- Conventions. Times are nanoseconds, with 0 for Go's zero time; an int that Go tests with `<= 0` is a
-- number tested for 0. Money in the journal is an exact count of (micro-dollars an hour) × nanoseconds,
-- where Go adds float64; a legacy storage rate is divided in whole micro-dollars. In Sizing and Rank
-- float64 is the parameter `Float`, of which nothing is assumed but where a theorem says so; uint64
-- wraps. A map is an association list or a function, and a missing key reads as Go's zero value.
--
-- Fuel: largestPowerOfTwo is given n turns and reduceContext as many as the length it halves, which
-- is enough, since each turn doubles or halves; itoa is given 20 turns, and an int64 has 19 digits
-- at most. All other loops are structural; those of Parse and of UpAndServe recurse on the count
-- that bounds them in the code, and those of Supervise, waitForSSH and waitReady on the turns that
-- there are. sort.Slice, in pickQuant and Analyse, promises no order among equals; the stable one is
-- taken.
--
-- A label's sealer, and the text of a float64, are parameters of which nothing is assumed.
--
-- Not modelled: the bytes of the JSON files, of which it is assumed that a whole line or file reads
-- back as what was written; printed texts with figures in them; what the network answers about a
-- model; SSH, the proxy, the clients of the providers, the runtimes, the settings and the command
-- line.
pub mod Prelude
pub mod Core
pub mod State
pub mod Sizing
pub mod Rank
pub mod Runtime
pub mod Gguf
pub mod Llamacpp
pub mod Daemon
pub mod Examples
