-- ===== src/Lib.antt =====
-- A model of achgateway: ACH files and cancellations come in as messages, wait in the storage of
-- their shard, and are merged and uploaded at the shard's cutoffs.
--
-- How the parts interact:
--   - Receiver (internal/pipeline/file_receiver.go) takes the bytes of a message, finds the
--     aggregator of its shard key, records the file ID, and hands the message on. Receiver/Process is
--     processMessage, Receiver.antt the methods below it, Receiver/Services the calls it makes, and
--     Receiver/Wired fills these with Files and Shards. Receiver/Loop is the loop of Start, and
--     Receiver/Admin the routes that trigger cutoffs and show pending files
--     (internal/pipeline/manual_cutoff_times.go, pending_files_api.go).
--   - Files (internal/files/repo_files.go) is the table of accepted files, Shards
--     (internal/shards/inmemory_repository.go) the mapping of shard keys to shard names, which
--     Shards/Sql (internal/shards/repository.go) keeps in a database.
--   - Aggregate (internal/pipeline/aggregate.go) is the aggregator of one shard: acceptFile and
--     cancelFile for messages, withEachFile and manualCutoff for cutoffs, uploadFile for one file.
--     Aggregate/Dispatch is what its loop does with a cutoff time, and Schedule
--     (internal/schedule/cutoff.go) where these times come from.
--   - Merging (internal/pipeline/merging.go) keeps the pending files: HandleXfer, HandleCancel and
--     the listings in Merging.antt, fileAcceptor in Merging/Accept, buildDirMapping and
--     findInputFilepaths in Merging/Mapping, WithEachMerged and saveMergedFile in Merging/Cutoff,
--     the runes that makeKey counts in Merging/Runes. Where the code panics, the result is `none`.
--   - Upload (internal/upload/agent.go) is the interface of upload agents, Upload/Retry
--     (internal/upload/retry.go) the agent that retries.
--     Upload/Registry is New, which keeps the agents that it made (internal/upload/agent.go), and
--     Upload/Network the list of allowed addresses (internal/upload/network_security.go).
--   - Config (internal/service) is the configuration with its Validate methods.
--   - Compliance (pkg/compliance) protects messages before they are sent and reveals them.
--   - Cleanup (internal/pipeline/cleanup.go) removes old directories of earlier cutoffs.
--   - Odfi (internal/incoming/odfi) takes in what the bank has for the gateway: Odfi/Scheduler is a
--     round over all shards (scheduler.go), Odfi/Download the copies of the remote files
--     (download.go), Odfi/Process what is done with each (processor.go, audit.go), Odfi/Events the
--     processors that send events (corrections.go, incoming.go, prenotes.go, reconciliation.go,
--     returns.go) and Odfi/Cleanup the deletion of remote files (cleanup.go).
--   - Web (internal/incoming/web/api_files.go) takes files and cancellations over HTTP and publishes
--     them; Web/Waiting has the maps of the requests that wait for a response, in which the steps of
--     other requests and of the goroutines that hand out responses are interleaved.
--   - Notify (internal/notify/multi.go) sends a notification to all notifiers, with retries.
--   - Storage (internal/storage/storage.go) is the interface Chest with its laws, and a storage in
--     memory; Storage/Filesystem (internal/storage/filesystem.go) is the storage on disk, and
--     Storage/Encrypted (internal/storage/encryption.go) the one that encrypts. Transform (internal/transform/preupload.go), Incoming
--     (internal/incoming/models.go) and Models (pkg/models/events.go) have the shared data.
--   - Ach and Retry are what the repository calls from other libraries: moov-io/ach, treemap and
--     go-retry. They are records of operations, with documented behaviour as laws.
--   - Base has texts as lists of bytes, paths as in path/filepath, and errors with what they wrap.
--
-- A method that changes something is a function of the state that gives its results and the next
-- state; a Go error is an Option Error. The state is a parameter wherever the code works through an
-- interface. Loops are structural recursion on the slice, so no fuel is needed. The time, SHA-256,
-- host names and configuration that was read are fields of the model's records. Logging, metrics
-- and tracing are left out.
--
-- Not modelled: what goroutines do at the same time (a loop is given what its rounds meet, one after
-- the other, and only Web interleaves requests; a message that the file receiver handles beside its
-- loop is a step between two rounds), FTP and SFTP, mail and chat notifiers, audit storage and Kafka,
-- which are I/O behind the interfaces above, and the databases themselves.
pub mod Ach
pub mod Aggregate
pub mod Base
pub mod Cleanup
pub mod Compliance
pub mod Config
pub mod Files
pub mod Incoming
pub mod Merging
pub mod Models
pub mod Notify
pub mod Odfi
pub mod Receiver
pub mod Retry
pub mod Schedule
pub mod Shards
pub mod Storage
pub mod Transform
pub mod Upload
pub mod Web
