-- ===== src/Lib.antt =====
-- zkIE compiles a neural network to circuits, proves the shards of the computation as jobs, and
-- verifies and links the proofs. Jobs run as worker processes on one host: the runtime crate keeps
-- their durable state in SQLite, decides which jobs start, watches their memory and recovers them
-- after a restart. The parts and their files:
--
--   Resource        crates/zkie-types/src/resource.rs: requests and capacities, `fits`,
--                   `checked_reserve`.
--   Estimate        crates/zkie-runtime/src/estimate.rs: the memory reserved for a job.
--   Monitor         crates/zkie-runtime/src/monitor.rs: limits, the admission policy, the choice of
--                   an attempt to end and its termination. The operating system is the parameter
--                   `ProcessControl`: a world that signals and polls may change.
--   State           crates/zkie-runtime/src/state.rs: identifiers, kinds, states, failures and
--                   events of a job, the texts that they are stored as (State.Names and
--                   State.FailureNames), and `JobState::transition`.
--   Db              crates/zkie-runtime/src/db.rs, db/core.rs, db/engine.rs and db/artifacts.rs. The
--                   tables are lists of rows and an SQL statement is a function on them (Db.Tables);
--                   the operations are Db.Jobs (`insert_job`, `add_dependency`), Db.Apply
--                   (`apply_event_tx`), Db.Attempts (`begin_attempt`, `apply_attempt_event`),
--                   Db.Failures (`handle_attempt_failure`, `fail_verification`,
--                   `complete_verification`), Db.Blocking (`block_descendants_tx`), Db.Peaks
--                   (`record_resource_peak`), Db.Readiness (`refresh_readiness`,
--                   `recover_interrupted`) and Db.Commits (`commit_verified_artifact`,
--                   `commit_verified_key`). Db.Steps joins them in one relation.
--   Scheduler       crates/zkie-runtime/src/scheduler.rs: `decide`, `decide_with_memory` and
--                   `spec_for`, on the database after `refresh_readiness`.
--   Dag             crates/zkie-compiler/src/dag/: the shards of a program. Dag.Partition has the
--                   ranges and their budget (partition.rs, the cost model a parameter),
--                   Dag.Planner the whole of `PartitionPlanner::plan` (partition.rs), Dag.Build
--                   `build_dag` (model.rs) and Dag.Linker `link` (linker.rs).
--   Worker          crates/zkie-runtime/src/worker.rs: jobs, specifications and results of workers,
--                   their texts and the readers of them (Worker.Wire, with
--                   Worker.Wire.SpecText and Worker.Wire.ResultText), and the launcher
--                   (Worker.Launch). The file system and the process are the parameter `Host`.
--   Queue           crates/zkie-runtime/src/queue.rs: `run_queue`, which joins the database, the
--                   scheduler and the workers. What it calls outside of them is the parameter
--                   `Runtime`, whose answers may depend on the run. Queue.Plans has the jobs of a
--                   plan in the database, Queue.Rounds their attempts.
--   Identity        crates/zkie-types/src/identity.rs: digests and their texts, names, and the bytes
--                   that are hashed for the identity of a run. BLAKE3 is a parameter.
--   Executor        crates/zkie-core/src/isa.rs and crates/zkie-prover/src/witness_cpu.rs: the
--                   instructions of a program, `execute_instruction` of the CPU backend, and the
--                   loop of its `execute` over the instructions of a shard (Executor.Shards).
--   Fixed           crates/zkie-core/src/fixed_point.rs, field_convert.rs and tensor.rs: rescaling,
--                   the shift of signed numbers, and shaped data.
--   Witnesses       concrete runs at which the theorems are applied.
--
-- An operation takes the database and returns a `Result`: an error rolls its transaction back, so it
-- leaves no database. The reading of a clock is an argument, and a clock before the epoch is not
-- modelled. A `RunDb` holds one run; rows of other runs, the run's column and times that no
-- statement reads are left out. A column that stores an enumeration holds the value: State.Names
-- and State.FailureNames hold the stored texts. A foreign key, a unique index or a check of the
-- schema that a statement can violate is a test before the insertion. Machine integers are numbers
-- with the bounds written where the source checks them. Identifiers are compared by code point,
-- which is the order of their ASCII bytes.
--
-- The engine's functions give the database that they leave also where they fail: each of their
-- transactions lands or not, and those before a failure stay. Texts that are taken apart are lists
-- of code points.
--
-- `block_descendants_tx` has a round for the failed job and one for each waiting job, and
-- `Scheduler.fill` one turn for each candidate and one to find none; that this is enough is proved,
-- so no result rests on fuel. `Dag.Partition.plan_ranges` has a round for each instruction, which
-- is enough since no shard is empty; its plans reach the last instruction. `Queue.Rounds.drive` runs
-- on the rounds that `max_rounds` leaves, as the program does, which reports where they run out.
--
-- Not modelled: SQLite itself, migration and settings; the artifact store, with the staging and
-- the publication of objects; `reopen_*`; the environment and the group of a worker process; the
-- samplers of /proc and cgroup files; the digests of a plan; floats; the analysis of a program,
-- and the checks of `execute` before and behind its loop; the chips and the embedding into the
-- field; the front end for ONNX, the circuits and the provers, which stand on halo2.
pub mod Common
pub mod Identity
pub mod Resource
pub mod Estimate
pub mod Monitor
pub mod State
pub mod Db
pub mod Worker
pub mod Scheduler
pub mod Queue
pub mod Executor
pub mod Fixed
pub mod Dag
pub mod Witnesses
