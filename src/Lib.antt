-- ===== src/Lib.antt =====
-- A model of COMET-L, a program in which agents improve the tests of a Java project by mutation
-- analysis, and of the server that queues and runs it. The parts that are modelled:
--
-- * Runs (comet/web/run_service.py, class RunLifecycleService, with the queries of
--   comet/web/storage.py on the table of runs). The service's tables are the record `Service`; each
--   method is a function on it. Runs/Types, Store, Queue, Scheduler and Lifecycle hold the data and
--   the operations (create_run, start_run, cancel_run, dispatch_pending_runs, mark_running,
--   mark_completed, mark_failed); Runs/Steps makes them a transition system, in which a step is a
--   request or a report of a run's background thread. A method of the source takes the service's
--   lock part by part (the change, the snapshot, each claim of the dispatch); a step is a whole
--   method, and interleavings of the parts of two methods are not modelled. Runs/Records has the
--   queries on the table of runs and what a restart does to it. Runs/Lookup, Limits, Claims,
--   Dispatching, Keeps, Reached, Exhausted, StaysEnded and Ended hold the proofs.
-- * LogRouter (comet/web/log_router.py): the log records of each task; the service keeps one router
--   for each run and reports the state of the main stream to it.
-- * EventBus (comet/web/runtime_protocol.py, class RuntimeEventBus): numbered events for the clients
--   that watch a run.
-- * AgentState (comet/agent/state.py): the targets that parallel workers take and give back, the
--   blacklist, the current target, and the counts of batches. A trace is a list of calls, each
--   made after the one before it has returned.
-- * Targets (comet/agent/target_selector.py, and the queries of comet/store/database.py that it
--   reads): the strategies that choose the method to test next from what AgentState leaves.
-- * MethodKeys (comet/utils/method_keys.py): the keys by which AgentState and Targets name methods.
-- * Accounts (comet/web/storage.py, class WebDatabase: users, sessions and uploads): the tables are the
--   record `Database`, each method a function on it that returns a value or raises. Accounts/Tables
--   has the sequences of operations; Admins, Users, Tokens, Uploads and UsedOnce hold the proofs.
-- * Evaluation (comet/executor/mutation_evaluator.py, KillMatrix of comet/models.py, and the failed
--   tests of comet/executor/surefire_parser.py): Verdict says what a run of the tests tells of each
--   test class, Sandboxed is `evaluate_mutant` over the operations of a sandbox manager and an
--   executor, Builders builds the kill matrix from an evaluation, one mutant after the other or in the
--   order in which the threads take the lock. Killed, Executed, Orders and Survivors hold the proofs.
-- * Policy (comet/config/policy.py): the limits of the deployment on the form of a run (Limits) and on
--   an uploaded configuration (Values, Uploads), and the redaction of a configuration that is shown
--   (Redaction). The settings are a record of the fields that the policy reads or writes; their schema,
--   and `str` and `int` on values, are arguments. Bounds, Repeated, Untouched, Submitted and Masked hold
--   the proofs.
-- * StaticGuard (comet/generators/static_guard.py): Source is the mutated text of a file, Classpath the
--   class path and its cache, Validation the validation of a mutant over the operations of a file
--   system and of compilers, and the filter; Filtering holds the proofs on them.
-- * Sampling (comet/web/study_sampling.py): Discovery finds the methods of a study, Queue orders them
--   at random, the preferred ones first, and takes the sample; the random generator is an argument.
--   Parts and Once hold the proofs.
-- * MutantStore (comet/store/database.py, the table of mutants): a method is a function on the list of
--   rows. Stored has all columns of a row as they are written and read, over the JSON and date routines
--   as a parameter; KillInfo takes a deleted test out of the killers. Written, Cleared and Batches hold the proofs.
-- * Jvm (comet/executor/jvm_descriptors.py): the signatures of methods from JVM descriptors. Types has
--   a grammar of descriptors of its own; Names, Complete and Sound hold the proofs.
-- * Prelude holds Boolean tests, lists over native numbers, texts as lists of code points,
--   dictionaries as association lists in insertion order, and Python's stable sort.
--
-- Times, and rates in a common unit, are natural numbers; the clock's reading, a random draw and the
-- digest of a text are arguments. A KeyError is `none`. Three loops run on fuel: the dispatch loop,
-- with one round more than there are pending runs, the loop over a descriptor's parameters, with one
-- round more than there are characters, and the draws of a queue of candidates, with as many rounds
-- as there are methods; that this is enough is proved.
--
-- Not modelled: files, child processes, the network, the language model, the knowledge base, the web
-- routes, the planners, the study's runner and analysis, metrics, the loading of configurations; and,
-- within the parts above, the dictionaries for saving and loading, log lines, and numbers that are only
-- displayed.
pub mod Accounts
pub mod AgentState
pub mod Evaluation
pub mod EventBus
pub mod Jvm
pub mod LogRouter
pub mod MethodKeys
pub mod MutantStore
pub mod Policy
pub mod Prelude
pub mod Runs
pub mod Sampling
pub mod StaticGuard
pub mod Targets
