-- ===== src/Lib.antt =====
-- Observe Agent, an agent that collects metrics and logs on a host and ships them. A policy
-- says which capabilities run; the manager starts and stops the collectors of
-- internal/collectors by it; a collector puts what it gathers into a queue of internal/queue,
-- from which the exporter delivers it.
--
-- - Base: shared names, tests on numbers, lists.
-- - Policy: internal/policy/policy.go. A document has a version and a map of capabilities.
-- - Config: internal/config. `runtime` and `logs_runtime` fill in the defaults,
--   `validate_config` is Config.Validate. The tests of net/url, regexp and path are
--   parameters. The parsing of JSON and YAML is not modelled.
-- - Security: internal/security. The authorization header from the environment or a
--   credential; the reading of a private file is a parameter.
-- - Sender: internal/exporter. `send` is Sender.Send with its loop of attempts, `judge` reads
--   a response, `delay_for` is the delay before a retry, `request` is Request. The transport,
--   the contexts, the clock and encoding/json are parameters, by the number of the attempt.
--   The loop is a recursion on the attempts that are left.
-- - Manager: internal/app/app.go. `apply` is Manager.Apply, `close` is Manager.Close,
--   `restore` and `fail` are the rollback. The collectors, the store and the contexts are a
--   function from the calls made so far to the answer.
-- - Queue.Memory: internal/queue/memory.go, with its use by one consumer and any number of
--   callers of Push and Close as steps; Close is two, the part under the lock and the send of
--   the token.
-- - Queue.Files: the file operations of internal/queue on one directory. Each operation may
--   pass, fail, or end in a crash, which a parameter decides by the number of the operation; a
--   crash cuts the files that were not synced.
-- - Queue.Codec: what the queues take from encoding/json and crypto/sha256, as a parameter
--   with its laws.
-- - Queue.Disk: internal/queue/disk_linux.go. `put`, `next`, `ack` and `close` are the methods
--   of Disk, `write` is the write through the pending file. `open_disk` of Queue.Disk.Open is
--   openDisk with its scan.
-- - Queue.Migration: internal/queue/migration_linux.go. `load_manifest` is loadManifest, which
--   migrates a spool of version 1 or resumes a migration that was cut; the hooks of the tests
--   are left out. The two copies of the manifest and the journal are read through a parameter
--   for encoding/json and encoding/hex.
-- - Queue.Logs: internal/queue/logs_disk_linux.go. `put_admission`, `activate`, `next`, `ack`
--   and `close` are the methods of LogDisk. `open_log_disk` is OpenLogDisk with its recovery.
--   Queue.Logs.Rows is the abstract spool: a list of rows, of which some are ready.
--   Queue.Logs.Record is what the spool takes from encoding/json and crypto/sha256, with its
--   laws.
-- - Queue.Scope: internal/queue/scope.go. `hash` and `logs_hash` are the two hashes of a
--   scope; sha256 is a parameter.
-- - Fleet: internal/fleet/fleet.go. `accept` is Gate.Accept, in front of the manager; the
--   verifier is a parameter. Fleet.Store is LocalStore on one state file.
-- - Collector: internal/collectors/metrics.go. `deliver` is a pass of the delivery loop, from
--   the spool through the sender to the acknowledgement; `enqueue` is the end of a scrape.
-- - Batches: internal/pipeline/metrics.go. `batches` is Batches; the serialization by pdata is
--   a parameter. The loop and the halving are on fuel, which one more than the points is
--   enough for; without fuel both give an error of their own.
-- - Logtail: internal/logtail/tailer_linux.go, for one open file. `consume` is Tailer.consume;
--   its loop is on fuel, for which the length of the file is enough. The results of the
--   admission, the checkpoint and the activation are parameters by the number of the call.
-- - Journal: internal/journaltail/reader_linux.go. `consume` is Reader.consume over the lines
--   that journalctl has written, `save_checkpoint` and `load_checkpoint` are the checkpoint
--   file, on the files of Queue.Files, and Journal.Run has `start` and `run`. The run of
--   journalctl, encoding/json and the calls of the collector are parameters.
-- - Identity: internal/identity/identity.go. `resolve` is Resolve.
--
-- Numbers are natural numbers. The counts and the bytes of a spool stay below the limits it is
-- opened with, so that the 64-bit integers of the source do not wrap; the sequence number is
-- tested against the greatest 64-bit number as the source does.
--
-- An operation that a crash cuts returns a result of its own. Mutual exclusion is not
-- modelled: the methods hold a lock, so that they are run one after the other. A directory's
-- fsync is modelled as an operation that may fail; renames and removals are taken to survive a
-- crash, as on a journalled file system.
--
-- Not modelled: the scan of a log directory, the logs collector, the start and the sampling of
-- the metrics collector, the building of log batches with pdata, the instance metadata, the
-- wiring in internal/app/runtime.go; a name of 25 bytes in the logs spool that ends in .lrec
-- and is not one of the spool's own numbers, which OpenLogDisk reads as a record; and the
-- reads of the host in internal/platform, which are input and output.
pub mod Base
pub mod Policy
pub mod Config
pub mod Security
pub mod Sender
pub mod Manager
pub mod Queue
pub mod Fleet
pub mod Collector
pub mod Batches
pub mod Logtail
pub mod Identity
pub mod Journal
