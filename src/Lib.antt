-- ===== src/Lib.antt =====
-- A model of backup-tool, a disaster recovery tool for Kubernetes applications, with its theorems.
--
-- The program runs disaster recovery events: a stage (pkg/disasterrecovery/actions/remote) runs the
-- actions of an event, which capture or restore databases, volumes and buckets through composite
-- operations on the cluster (pkg/kubecluster/composite) and through runtimes in a tool instance
-- (pkg/s3, pkg/postgres, pkg/files). Deferred clean-ups (pkg/cleanup) release what was created.
--
-- Which file models which part:
--   Stage      pkg/disasterrecovery/actions/remote/remotestage.go: RemoteStage.validate, setup,
--              execute, cleanupFunc and Run are validate, setup, execute, cleanup_all and run of
--              Stage/Model. An action is a record of its methods over a world; the interfaces found by
--              type assertions are optional fields. The stage's calls are recorded in its state.
--   Cleanup    pkg/cleanup/cleanup.go: Cleanup, its options, buildContext and RunError.
--   S3         pkg/s3: parseS3Path (Location), the listings (Objects), selectObjectsAsOf (Select),
--              removeExtraneousLocalFiles (Disk), downloadObject and download (Download), uploadObject
--              and upload (Upload), LocalRuntime.Sync (Sync).
--   Kube       pkg/kubecluster/composite: createcrpforcertificate (Policies), clusterusercert
--              (UserCert), clonedcluster (Recovery, Clone), clonepvc (Volumes, VolumeGroups). The
--              clients of pkg/kubecluster/primatives are parameters (Certs, Databases), whose answers
--              may depend on all calls before.
--   Filters    pkg/files/filter.go: FilePattern and FileFilter.
--   Files      pkg/files/transfer.go: SyncFiles, copyFiles and deleteMissingFiles, on trees. Pruning,
--              Survivors and Agreement are lemmas on the walk; Mirror is the sync, Success
--              when it succeeds, RoundTrip a capture and its restore.
--   DrVolumes  pkg/kubecluster/composite/drvolume: NewDRVolume and SnapshotAndWaitReady.
--   Disaster   pkg/disasterrecovery/generic.go and drevent.go: the names of slots (Slots), the
--              configurations (Config) and their Validate (Validation), GenericApp (Apps) with Backup
--              (Backup) and Restore (Restore). The injected constructors of actions, each with its
--              Configure, are fields of the application.
--   Actions    pkg/disasterrecovery/actions/remote: cnpg/backup (CnpgBackup), files/backup
--              (FilesBackup), files/restore (FilesRestore), files/groupbackup (GroupBackup),
--              files/grouprestore (GroupRestore),
--              s3sync (Bucket). A method acts on the action's fields and on the history of calls to
--              the cluster; of the groups, Execute acts on the world of the tool's client.
--   Wal        pkg/postgres/walarchive.go: ForceWALArchive, waitForWALArchive and queryArchiverStatus.
--              The runner of statements is a parameter.
--   Durations  pkg/postgres/duration.go: ParseDuration, on int64 with its wrap-around.
--   Dump       pkg/postgres/dump.go: DumpAll. The process and the output file are parameters; what the
--              process prints is a list of lines with its end.
--   Helpers    pkg/kubecluster/helpers/helpers.go: names and waiting times.
--   Errors     what is used of github.com/gravitational/trace and errors.Is, a parameter.
--   Exec       functions with a state and an error; Base, lists, texts, equality and dictionaries.
--   Tests      the theorems at concrete inputs.
--
-- How the code is rendered: an error is an optional value of an unknown type, and its format arguments
-- are left out; a time is a number, zero for Go's zero time; a string is a list of character codes,
-- ASCII where lengths matter; a map is an association list; a pager is the list of its pages. Every
-- loop runs over a list, but for the poll of Wal, which runs for the rounds that its deadline leaves
-- and ends with the error of the deadline after the last. The concurrent transfers of a sync run one
-- after the other; a download is given the calls of the S3 client that read, and an upload those that
-- list, put and delete. Contexts, logging and cancellation are left out.
--
-- Not modelled: tool instances; the action that restores databases; the procedures of
-- single applications; the restore of a database; GRPC, the command line and generated code.
pub mod Base
pub mod Errors
pub mod Helpers
pub mod Exec
pub mod Cleanup
pub mod Stage
pub mod S3
pub mod Kube
pub mod Filters
pub mod DrVolumes
pub mod Disaster
pub mod Actions
pub mod Wal
pub mod Durations
pub mod Dump
pub mod Files
mod Tests
