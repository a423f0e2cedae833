-- ===== src/Lib.antt =====
-- Verification of gin-bear: the durable task store and the agent runtime of extensions/agent, and parts
-- of the web framework pkg/bear.
--
-- Tasks.* models extensions/agent/tasks/tasks.go. Tasks/Types holds the rows (`Task`, `Approval`, the
-- audit row) and the errors; Tasks/Sql the statements, `updateWhere`, `transact` and its retries;
-- Tasks/Submit, Approve, Claim, Complete (with Cancel), Sweep (with Recover), Intent (Reserve,
-- RecordIntent, RenewLease) and Reconcile (ConfirmUnknownAs, RequeueUnknownAs) one exported operation
-- of `Store` each, and Tasks/Worker `RunOnce`. Tasks/Calls makes a value of every call, so that a run of
-- any number of instances is a list. The other modules of Tasks hold proofs: Keeps and Blind the
-- invariant of a recorded intent, Approve/Binding what an approval binds, Atomic transactions, Fencing
-- and Race lost writes, Alike and Accounts tokens.
--
-- Agent.* models extensions/agent: Agent/Schema/Check the argument check of schema.go, Agent/Budget the
-- budget, the ledger and the admission gate of tools.go, Agent/Runner the loop of runner.go (Turn for
-- the calls to the vendor, Invoke for the proposed calls, Loop for `Run`). Agent/Runner/Bounds,
-- Proposals, Effects and Rounds, Agent/Budget/Admission and Agent/Schema/Laws, with Names and Valid beside it, hold the proofs. A run
-- uses the argument check on every proposed call, the ledger for its spending and the gate for admission.
--
-- Agent/Audit models the retention of extensions/agent/audit.go, with its proof in Agent/Audit/Window; its
-- times are numbers.
--
-- Web/Fairing models pkg/bear/fairing.go and the pipeline of pkg/bear/bear.go that runs the fairings
-- around a handler; Chain and Onion hold the proofs. A fairing, a handler and gin's writer are functions on
-- a world of any type; `strictFairingState` and the mark of a completed response are the context's own
-- and change only where the code sets them. A panic of a response is an error; one of a request or of
-- a handler is not modelled.
--
-- Web/Tracker models pkg/bear/handler_tracker.go, with its proofs in Web/Tracker/Drain; channels are
-- numbers, and closing a closed one is the panic `none`. Web/Limiter models pkg/bear/limiter.go, with its
-- proofs in Web/Limiter/Window; what Redis answers is a parameter. Windows and delays are nanoseconds.
-- The limiter's ticker is a function of its own, and the stopping of its goroutine is not modelled.
--
-- Web/Migration models pkg/bear/migration.go: Names the texts that it reads, Lock the lock, the checks
-- before a run, `ForceUnlock` and `ForceMigrationState`, Up and Down the two operations; Honest,
-- Complete, Exclusion, Ready and Undo hold proofs, History the lemmas on rows. The database is a history, one
-- lock row and a schema of any type, on which a migration's text runs as the parameter `exec` says, a
-- failed one half-way. A refused statement and a refused commit have no effect, a transaction that ends
-- in an error leaves nothing, `RowsAffected` answers, and between taking the lock and giving it back no
-- other runner writes. The order of versions is the database's (`less`). The runner's two tables have
-- forms, which `ensureTable` and `ensureLockTable` change before the lock is taken: a missing table is
-- an empty one, and a row of an older table stands with the default value of the column that it lacks
-- (not dirty; the lock's owner is `legacyMigrationLockOwner`), so that adding the column changes the
-- form alone.
--
-- Web/Plugin models the dispatcher of pkg/bear/plugin.go: Paths the functions of paths, Table
-- `RegisterE`, `Unregister` and `match`; Shapes and Histories hold the invariant of the tables, Order,
-- Best, Ties and Winner the choice of a route, Params the parameters. Barrier models the barrier that
-- closes the registration of plugins, one step for each time that a call holds its mutex, and Closed
-- its histories. A Go map is a function that is `none` where it has no entry, and a handler is a value
-- of any type that is not nil once registered. `strings.ToUpper` is a parameter.
--
-- Web/Lifecycle models pkg/bear/lifecycle.go: the entries and the strict stop of one of them, Start
-- the strict `Start` and `Stop`, the rollback and registration, Legacy both calls outside strict mode;
-- Order, Gone, Settled, Live, Begun, Retry and Once hold proofs. A component is a number with what it
-- implements. The answers of contexts, of `Init` and of waits for a shutdown are parameters of a call,
-- by component. A joined error is the list of its parts. A call that finds another one under way
-- answers `waits`, and does in a later call what it does once the other has ended; a panic counts as
-- the error it becomes.
--
-- A call of the store is a function of the database that returns the database and a result. What a
-- call takes from outside is its environment (`Env`): the policy version, one reading of the clock,
-- SHA-256, fresh identifiers, the statements that the database refuses, the hooks, and what other
-- instances commit wherever the call is outside a transaction (`between`, at named pauses). The text of
-- a unique violation is the driver's. Within a transaction the database shows no foreign commits, and a
-- statement is atomic; an UPDATE is a function of each row, a SELECT of one row takes the first that
-- fits, and of rows created in one second the first stands. Hooks do not change the task that they are
-- handed. `RunOnce` takes three environments, for its claim, its checks and its last store. The
-- heartbeat is other steps that renew the lease. Versions count modulo 2 ^ 64 and are compared for
-- equality only; token amounts are 64-bit integers with their wrap-around.
--
-- `Claim` runs its eight rounds and `transact` its ten attempts by structural recursion on their
-- number, which is enough as the source has the same bounds. The loop of `Cancel` has no bound in the
-- source; it takes a number of rounds, and a run that they do not end returns `none`.
--
-- In the runner the vendor's model, the tools' `Authorize` and `Execute`, the JSON decoder, the quoting
-- of texts and the texts of the argument check's errors are parameters (`Setup`, `Tool`). A Go map of
-- counters is a function that is 0 where the map has no entry. The rounds of a run are counted down
-- from `MaxRounds`. Contexts are cancelled between rounds; a deadline that ends a call of the vendor or
-- of a tool shows as the error of that call. A number in JSON is a mantissa and a binary exponent. The
-- order in which Go walks a map of parameters is the order of the model's list.
--
-- Not modelled: the rest of extensions/agent (HTTP and SSE, the vendor's protocol, the counters of its
-- metrics), the reading of migration files, the loading of plugins, the registration of beans with a
-- lifecycle, the rest of pkg/bear, internal, cmd and tools, which are separate parts; and of the task
-- store the opening of its database and the rebinding of placeholders, which carry no state.
pub mod Base
pub mod Tasks
pub mod Agent
pub mod Web
