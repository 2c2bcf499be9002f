-- ===== src/Lib.antt =====
-- aiops-execd, the daemon of this repository: it accepts authenticated requests to run a command,
-- runs each as a job in a child process, and keeps the jobs' outputs and results on disk. Every
-- part below is in package internal/execd.
--
-- The parts and the files that model them:
--   Types: the records of internal/execd/types.go and of the configuration
--     (internal/execd/config.go), with AuthInfo.
--   Capped: internal/execd/capped.go. write_buffer is the Write of cappedBuffer (output kept for
--     the reply), write_tee that of cappedTeeWriter (output logged to a file); copy_tee is io.Copy
--     into it.
--   Limiter: internal/execd/auth_limiter.go, one function per method. Limiter/Window and
--     Limiter/History have the lemmas for any history of calls, Limiter/Overflow the window that
--     wraps.
--   Validation: internal/execd/validation.go. normalize_request is normalizeRequest, in stages
--     that follow its text; Validation/Cwd, Validation/Accepted and Validation/Request have the
--     proofs for the working directory, for the stages, and for a whole request.
--   Auth: internal/execd/auth.go.
--   Settings: Validate and DefaultConfig of internal/execd/config.go; Settings/Load has
--     LoadConfig.
--   Store: internal/execd/jobstore.go. Store.antt has the files of a job and Store/Confined where
--     they lie (Path and Path/Below have package path/filepath); Store/Cleanup.antt has Cleanup
--     and listJobDirs, the closure markDelete and each loop being a function.
--   Job and Lifecycle: internal/execd/job_lifecycle.go. Job.antt has the methods of a job,
--     Lifecycle.antt prepareJob, releaseJob, cancelJob and what they call, Lifecycle/Prune.antt
--     the parts of cleanupJobs.
--   Http and Server: the handlers of internal/execd/server.go. Http.antt has the requests and
--     replies and what the handlers share, Server.antt NewServer and handleRun: handle_run is
--     handleRun up to its select, respond_run what follows it. Server/Jobs.antt has handle_job,
--     which is handleJob, handleCancel and handleOutput, which share their guards. The other
--     children have the proofs: Access, Run and Refusals for who gets what, Throttle for the
--     failures of a client, Tail for the output, Stored for jobs that only the disk remembers, and
--     Timeouts.
--   Child: internal/execd/child.go, the helper process. run_payload is runPayload, child_main
--     ChildMain; Child/Payload and Child/Exit have the proofs.
--   Runner: internal/execd/runner.go, the daemon's side of the helper. Runner/Refinement joins it
--     with Child; Runner/Deadlines, Runner/Privilege, Runner/Helper and Runner/JobId have the
--     other proofs.
--   Audit, EventLog and Doctor: internal/execd/audit.go, internal/execd/event_log.go and
--     internal/execd/doctor.go. A log line is a value; the report of the doctor is the list of its
--     checks.
--   System: (*Server).runJob of internal/execd/server.go, for all jobs at once. What runViaChild
--     gives is part of the action that is the job's step. Its step function interleaves submitted
--     requests, cancellations, single steps of job goroutines and cleanups in any order that a
--     list of actions gives. System/Reach has what holds in every reachable state, System/Cancel
--     and System/Sticky show what lasts through all that happens to a job, System/Acknowledged and
--     System/LateCancel use it for cancellations and System/Named and System/Idempotent for
--     idempotency keys; System/Progress is about the end of a job.
--
-- How the parts interact: handleRun calls prepareJob, which takes a slot and a lock, writes the
-- job's directory through the store and enters the job in three maps; for a new job it starts
-- runJob. authenticate and normalizeRequest come before it. runJob marks the job as running, sets
-- its cancel function, runs the child, overwrites the result of a job whose cancellation was
-- requested, saves and publishes the result and releases the job; cleanupJobs then deletes old
-- jobs from disk and memory. A method that holds a mutex is one step; a pointer to a job is an
-- index of the lifecycle's heap, and the maps hold these indices.
--
-- A job runs in three processes: runViaChild of the daemon starts sudo, which starts the helper as
-- another user; the helper's ChildMain reads a specification from its input, runs the payload,
-- passes its output on and writes a result to file descriptor 3; runViaChild copies the output to
-- the job's files and a capped buffer and decodes the result.
--
-- Conventions: a Go int or int64 is an integer of Base/Int, with wrap64 where the code's sums and
-- products can wrap; a string is its list of bytes; a time is a number of nanoseconds, and the
-- clock's reading is an argument; a map is an association list; a nil pointer and a panic are
-- none. Every loop is a structural recursion, so nothing takes fuel.
--
-- Parameters: the file system and package sort (Os), package encoding/json (Json), an io.Writer
-- (Sink), filepath.EvalSymlinks and SHA-256 in hex (arguments of normalize_request and
-- authenticate), the test of hex text (an argument of validate), and sort.Slice and sort.Strings
-- in Cleanup (Sort). What the handlers use of packages net, net/http, strconv, encoding/json and
-- crypto/sha256 is the record Packages; os/exec with the payload is Exec, with sudo and the helper
-- Sudo, and the messages between daemon and helper are ChildJson. What LoadConfig, the doctor and
-- the audit log use of the system is in ConfigFile, DoctorSystem and AuditPackages. Which case of
-- a select comes first is part of what Exec gives. package path/filepath, a few functions of
-- package strings and the regular expressions are written out (but for the redacting ones of
-- audit.go, which are parameters), on ASCII text.
--
-- Not modelled: cmd/aiops-execd, which reads the command line, calls ChildMain, RunDoctor or
-- NewServer, and waits for a signal, and the Python and shell programs. The handlers and runJob
-- are modelled without their log lines, which change no state; the audit line of runJob is
-- modelled apart from it. A nil slice is not told apart from an empty one.
pub mod Base
pub mod Types
pub mod Path
pub mod Os
pub mod Capped
pub mod Limiter
pub mod Auth
pub mod Settings
pub mod Validation
pub mod Http
pub mod Store
pub mod Job
pub mod Lifecycle
pub mod Server
pub mod Child
pub mod Runner
pub mod Audit
pub mod EventLog
pub mod Doctor
pub mod System
