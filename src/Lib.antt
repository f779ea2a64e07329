-- ===== src/Lib.antt =====
-- Lightning Stream (PowerDNS) keeps LMDB databases in sync between instances: every instance writes
-- snapshots of its database to an object store, and merges the snapshots of the others into its own.
--
-- The parts of the program and the files that model them:
--
-- Header, lmdbenv/header/header.go: the header in front of a stored value (`Bytes`, `PutBasic`,
-- `Parse`, `Skip`, `ParseTimestamp`). Header/RoundTrip and Header/Skipping are its proofs.
--
-- Snapshot, snapshot/kv.go and flags.go: an entry of a snapshot. Snapshot/Name, snapshot/name.go: the
-- file names (`BuildName`, `ParseName`). Snapshot/Dbi, snapshot/dbi.go: `DBI.Map` on the entries.
--
-- Iterators, syncer/iterators.go: how `NativeIterator` merges an entry of a snapshot with a stored
-- value, and cleans a value that the snapshot does not have. Iterators/Lww is the specification as
-- a map on versions in which the last writer wins; Iterators/Writing and Iterators/Merging relate
-- the code to it, Iterators/Convergence shows what follows for the order of arrival.
--
-- Lmdb is the interface of the LMDB bindings, which are not part of the repository: the calls that
-- the code uses, and their documented behaviour as a sorted map. Lmdb/Entries has the operations on
-- sorted lists, Memory an instance of the interface.
--
-- Strategy, lmdbenv/strategy: the walk over an iterator and a DBI (`iterBoth` of utils.go), and the
-- strategies that write an iterator to a DBI (Strategy/Strategies). Strategy/Join is the
-- specification of the walk. Its proof is in Strategy/Rounds (one round of the loop), Strategy/Follows
-- (what is asked of a callback), Strategy/Cases and Strategy/Walk; Strategy/Update and Strategy/Put
-- apply it to `IterUpdate` and `IterPut` with the writes of Strategy/Writes. Strategy/Source makes the
-- two iterators of the syncer iterators of this package. Strategy/Merged is about `Update`, by what
-- Lmdb/Lookup says of single keys; Strategy/Native is about what `mainToShadow` makes of a shadow
-- with `IterUpdate`, Strategy/Loaded about the load of a snapshot with `Update`.
--
-- Dupsort, syncer/dupsorthack.go: keys that are made unique for DBIs with duplicate keys.
--
-- Cleaner, syncer/cleaner/cleaner.go: which snapshots `RunOnce` deletes. Cleaner/Instances and
-- Cleaner/Runs describe the deletions per instance, Cleaner/Survivors says what is left.
--
-- Receiver, syncer/receiver/receiver.go: the last snapshot of every instance in a listing.
--
-- Receiver/Downloader, syncer/receiver/downloader.go with `Next`: the downloaders, the receiver and the
-- syncer as steps in any order on what they share. Downloader/Tokens has the sums over tokens,
-- Downloader/Ownership says who has which token, Downloader/Advancing that a step of a downloader
-- keeps it so, Downloader/Memory what follows for the snapshots in memory, and Downloader/Progress
-- that tokens come back.
--
-- Climit, utils/climit/climit.go: the limit on concurrency, as steps on the tokens.
--
-- Health, status/healthtracker/healthtracker.go, and Startup, status/starttracker/starttracker.go:
-- what the checks of the instance's health and of its startup report. A call of a health tracker is
-- one step; the calls of the tracker that all downloaders share interleave, so Receiver/Downloader
-- lets it hold anything.
--
-- Instances, syncer/instanceset.go: the instances that the sync loop waits for.
--
-- Sweeper, syncer/sweeper/sweeper.go with lmdbenv/limitscanner/scanner.go: the removal of stale deleted
-- entries in short transactions. Sweeper/Slices says where a scan stands, Sweeper/Removal what one
-- record makes of it, Sweeper/Sweeps puts the transactions together.
--
-- Snapshot/Wire and Snapshot/Encoding, snapshot/kv.go with utils.go and dbi.go: the protobuf encoding
-- of an entry, over the varints of csproto, which is a parameter. Encoding/Fields and
-- Encoding/Messages are about what is read at a place, Encoding/RoundTrip about an entry. The loop of
-- `Unmarshal` runs on fuel, one more than there are bytes: every field that `Append` writes has a
-- byte.
--
-- Snapshot/Message, snapshot/dbi.go: a DBI as its message, with `Append`, `Next` and `indexData`. The
-- loops run on fuel, one more than there are bytes: every step reads a tag. Message/Reading is about
-- one `Next`, Message/Listing about all entries, Message/Indexing about `indexData`, Message/Flushing
-- about the fields of a DBI and Message/Skipping about passing over them; Message/RoundTrip relates a
-- message to a DBI of Snapshot/Dbi. Snapshot/Chain has what the proofs on messages share.
--
-- Snapshot/Decoder is the decoder of csproto, a parameter, with the getters of utils.go.
-- Snapshot/Meta, snapshot/meta.go, and Snapshot/Root, snapshot/snapshot.go with load.go: a whole
-- snapshot. Root/Writing says what `WriteTo` writes, Root/Reading what `Unmarshal` reads, and
-- Root/RoundTrip is about a file. The loop of an `Unmarshal` runs on fuel, one more than there are
-- bytes, since every tag has a byte. Snapshot/Groups and Snapshot/GroupDecoder are instances of the
-- varints and of the decoder.
--
-- Flags, lmdbenv/dbiflags/flags.go: the flags of a DBI as text. Flags/RoundTrip is about reading what
-- has been printed. Texts are ASCII.
--
-- Config, config/config.go, and Config/Logger, config/logger/config.go: the configuration, its
-- defaults, `Check` and the masking in `String`. Config/Checks is about what is accepted,
-- Config/Secrets about what is masked. The parsers of log levels and addresses are parameters.
--
-- Snapshot/Transform, snapshot/transforms.go: which transforms of a DBI are accepted.
--
-- Syncer, the package syncer. Syncer/Env is the interface of an LMDB environment with more than one
-- DBI, with the configuration and the small functions of utils.go. Syncer/Read is `readDBI`,
-- Syncer/Shadow is shadow.go, Syncer/Load is `LoadOnce` of sync.go, Syncer/Send is send.go; they call
-- the strategies and the iterators above. Syncer/Touched and Syncer/Frame say what a load leaves as it
-- was, Syncer/Loading what it promises, Syncer/Retry is about the retries of a store. Syncer/MemoryEnv
-- is an instance of the environment. Syncer/Loop is `syncLoop`, over an interface of the calls that it
-- makes; Syncer/Waiting and Syncer/Sending are about when it may send a snapshot, Syncer/Loads and
-- Syncer/Echo about what the loads of a pass lead to, Syncer/CaughtUp about what a pass leaves to be
-- sent. Syncer/Program fills the interface with `LoadOnce`, `SendOnce` and the receiver:
-- Program/Numbering shows what the loop relies on, Program/Synced what follows, and Program/Ready is
-- about the loop over the snapshots that are ready. Syncer/Replication is
-- about a DBI that is read on one instance and loaded on another.
--
-- Base has what the modules share: Boolean tests, lists over the native numbers, byte strings with
-- the order of `bytes.Compare`, maps as association lists, and results with an error.
--
-- A transaction is a DBI or an environment that is passed on; an error is a value of Base/Result. The
-- loop of `iterBoth` runs on fuel: every round takes an item of the iterator or an entry of the DBI,
-- so its fuel is one more than there are of both, and the theorem on `IterUpdate` shows that this is
-- enough. The sync loop does not end; it is modelled for a number of passes, and the loop over the
-- updates that are ready for a number of rounds, since the receiver may always have another one; a
-- theorem on it shows when 11 rounds are enough. The fuel of a sweep is given by the caller; one more
-- than the entries of the DBI is enough by the theorem on it. Times are nanoseconds since the epoch.
--
-- Not modelled are the YAML of the configuration, the topics (utils/topics), to which the syncer only
-- publishes, the command line, metrics, logs and status pages.
pub mod Base
pub mod Flags
pub mod Header
pub mod Lmdb
pub mod Memory
pub mod Snapshot
pub mod Iterators
pub mod Strategy
pub mod Sweeper
pub mod Syncer
pub mod Cleaner
pub mod Receiver
pub mod Dupsort
pub mod Health
pub mod Instances
pub mod Startup
pub mod Climit
pub mod Config
