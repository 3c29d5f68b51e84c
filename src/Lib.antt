-- ===== src/Lib.antt =====
-- gookv: a model of the transaction layer and the placement driver of the gookv key-value store.
--
-- gookv keeps every version of a key. A transaction writes in two phases: prewrite locks each key,
-- commit turns the locks into versions. Both, and all readers, work on three column families of a
-- sorted store: CF_LOCK holds the locks, CF_WRITE the commit and rollback records, and CF_DEFAULT the
-- values that are too long for a record.
--
-- The parts, from the bottom up, and the files that model them:
--
--   pkg/codec/bytes.go, number.go          Codec/Bytes, Codec/Number, Codec/Varint
--     The encodings of keys and numbers. A byte string is a list of numbers below 256, a uint64 a
--     number below 2^64 with its wrap-around written out, an int64 a signed number and its two's
--     complement, a float64 its bit pattern. The library calls of encoding/binary are written out.
--   pkg/txntypes                           TxnTypes/Timestamp, TxnTypes/Wire, TxnTypes/Write,
--                                          TxnTypes/Lock
--     Timestamps, and the records with their binary forms. The two decoders loop over tagged fields;
--     TxnTypes/Wire/Fields is that loop, on fuel as long as the input, since every field takes a byte.
--   internal/storage/mvcc/key.go           Mvcc/Key
--     EncodeKey, DecodeKey and the keys of CF_LOCK.
--   internal/engine/traits                 Mvcc/Snapshot, Mvcc/Txn/Apply
--     The part of the engine that the transaction layer uses: lookups, seeks, and the atomic batch, on
--     sorted lists of entries. The engine's own errors are not modelled.
--   internal/storage/mvcc/txn.go           Mvcc/Txn
--     MvccTxn, the batch that an action fills: PutLock, UnlockKey, PutValue, DeleteValue, PutWrite,
--     DeleteWrite.
--   internal/storage/mvcc/reader.go        Mvcc/Reader
--     LoadLock, SeekWrite, GetWrite, GetTxnCommitRecord, GetValue. An iterator is the list of entries
--     from its position on. GetWrite can jump back by the last change of a record, so it runs on fuel;
--     the fuel is the number of entries, and the results on GetWrite are about stores
--     whose records name no last change, as those that the actions write.
--   internal/storage/mvcc/point_getter.go  Mvcc/PointGetter
--     Get, in both isolation levels.
--   internal/storage/mvcc/scanner.go       Mvcc/Iterator, Mvcc/Scanner, Mvcc/Scanning
--     The iterators of internal/engine/traits with their bounds, and the scanner on them: NewScanner,
--     Next in both directions, TakeStatistics. Loops run on fuel, one more than the entries of the
--     cursors that are left: every round but the last moves a cursor. Mvcc/Scanning has the proofs,
--     which are about forward scans.
--   internal/server/storage.go             Server/Scan
--     Scan and ScanLock; the loop over Next has one more round than the entries of the two families.
--   internal/storage/gc/gc.go              Gc
--     GC of one key up to a safe point. Its loop has one more round than there are records, since each
--     record that it finds is behind the one before.
--   internal/storage/txn/actions.go        Txn/Actions, Txn/Status
--     Prewrite, Commit, Rollback; CheckTxnStatus, CheckTxnStatusWithCleanup, TxnHeartBeat and
--     ResolveLock. An action takes the batch so far and the snapshot and gives the batch or an error
--     (Txn/Outcome). Prewrite reads at most 64 newer records, as in the source.
--   internal/storage/txn/async_commit.go   Txn/AsyncCommit
--     PrewriteAsyncCommit, CheckAsyncCommitStatus, PrewriteAndCommit1PC and the eligibility tests.
--   internal/storage/txn/pessimistic.go    Txn/Pessimistic
--     AcquirePessimisticLock, PrewritePessimistic, PessimisticRollback.
--   pkg/keys/keys.go                       Keys
--     The internal keys of user data and of the Raft state of regions.
--   internal/storage/txn/latch/latch.go    Latch
--     New, GenLock, Acquire, Release. Latch/Steps has the calls as steps between states.
--   internal/storage/txn/concurrency       Txn/Concurrency
--     The concurrency manager: the lock table, and UpdateMaxTS as atomic steps that interleave.
--   internal/pd/server.go, tso_buffer.go   Pd/Tso
--     Allocate of the timestamp allocator, and the buffer in front of it. What becomes of a proposal
--     is an argument of GetTS. Pd/Tso/Runs has the calls as events, and
--     Pd/Tso/Runs/Values the numbers that the timestamps stand for.
--   internal/pd/id_buffer.go, apply.go     Pd/Ids
--     The allocator of ids with its replicated command, and the buffer in front of it.
--   internal/pd/server.go (MetadataStore)  Pd/Metadata
--     The states of stores and the regions with their epochs; Pd/Metadata/Runs has its events.
--   internal/pd/move_tracker.go            Pd/Moves
--     The state machine that moves a peer from one store to another; Pd/Moves/Runs has runs of the
--     heartbeats that drive it.
--   internal/pd/scheduler.go               Pd/Scheduler
--     The commands for excess replicas, lost replicas and the balance of leaders.
--
-- The abstract view is a list of versions (Mvcc/Versions): sorted by user key, newest first. A store
-- holds such a list (Mvcc/Holds) where CF_WRITE is the list of its encoded entries, every record can
-- be read back, names no last change, and was committed at or after its start. The results describe
-- readers by functions of that list (visible_versions, latest_put, own_record), writes by insertion
-- into it (insert_version, and Written as its description), and the actions by what they do to the
-- list and to the locks.
--
-- The placement driver stands apart: it hands out timestamps and ids, knows the stores and regions, and
-- moves peers between stores. Its maps are association lists (Pd/Maps), and the clock and what becomes of
-- a proposal through Raft are arguments.
--
-- Examples holds small stores and other concrete states, and a run of every result on them.
--
-- Not modelled: the scheduler around the actions, the sleeping in AcquireBlocking, the worker of garbage
-- collection, the Raft store, the balance of regions and the services of the placement driver with its
-- Raft group and snapshots, the coprocessor, the other services, the clients and the tools;
-- tracing, allocation, and the errors of the engine. The overlapped rollback and the fence of a record are
-- stored and read back, but no action here sets them.
pub mod Prelude
pub mod Codec
pub mod TxnTypes
pub mod Mvcc
pub mod Keys
pub mod Gc
pub mod Pd
pub mod Server
pub mod Latch
pub mod Txn
pub mod Examples
