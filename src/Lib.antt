-- ===== src/Lib.antt =====
-- oracle-qa: the quality oracle of the x402 SLA escrow. It learns from the chain that a seller has
-- submitted a delivery, downloads the agreement and the evidence of the delivery by their on-chain
-- hashes, evaluates the one against the other, and settles the payment with a transaction.
--
-- Parts and files (paths from the repository's root):
--   Types, Error, State    src/types.rs, src/error.rs, and the records of src/config.rs and
--                          src/server.rs: documents, jobs, health, errors with their texts, settings,
--                          counters.
--   Config/Parse, FromEnv  src/config.rs, `OracleConfig::from_env`, over an environment that is a function
--                          from names to texts.
--   External               what the program calls and does not implement, as one record of functions:
--                          JSON, JSON Schema, HTTP status codes, the digest, base 58 and base 64, the
--                          account and event layouts and the reason codes of the escrow's crate.
--   Monitor/Instructions,  src/chain.rs, from the logs and instructions of a transaction to its job:
--   Monitor/Delivery       `parse_delivery_events_from_logs` to `fetch_delivery_job`.
--   Monitor/Backfill       src/chain.rs, `backfill_missed_deliveries`, `persist_slot_watermark`.
--   Monitor/Subscription   src/chain.rs, `monitor_deliveries`, as steps between the states of its loop.
--   Service/Steps          src/main.rs, the tasks side by side: the monitor, the backfill, the worker and
--                          the requests of operators over one bounded channel, as steps in any order.
--   Worker/Startup         src/main.rs, from the environment to the worker's first state; src/db.rs,
--                          `from_url`.
--   Worker/Turns           src/main.rs, the worker's loop over the jobs of its channel.
--   Worker/Process         src/main.rs, one turn of the evaluation worker: deduplication, the number of
--                          the attempt, the run under its timeout, and what is recorded of it.
--   Pipeline/Exec, Run     src/pipeline.rs, `run_pipeline`, as a do block of actions whose effects stay
--                          when a later action fails.
--   Settler/Chain          src/settler.rs, `is_eligible`, and src/chain.rs, `read_payment`.
--   Fetch/Loop             src/pipeline.rs, `fetch_evidence`: mirrors, attempts, pauses, digest test.
--   Evaluator/Checks       src/evaluator.rs, `evaluate_impl`.
--   Evaluator/Oracle       src/evaluator.rs, the trait `QualityOracle` and its implementation.
--   Settler/Confirm        src/settler.rs, `settle` and the resolution hash.
--   Server/Access, Manual  src/server.rs, `authorize_manual_evaluate` and `manual_evaluate`.
--   Server/Health          src/server.rs, `health`, `registry_probe` and `stats`.
--   Server/Metrics, Router src/server.rs, `metrics`, `create_router`, `cors_layer` and `root`.
--   Ledger/Tables, Calls   src/db.rs over migrations/init.sql: what each statement makes of the tables,
--                          and the methods as calls that may fail.
-- The list of the URLs that a download has asked stands in its model only, so that theorems can speak of
-- them. The other files of each folder hold the proofs; Samples has concrete libraries and documents, and
-- Tests runs the theorems on them. Tests/Unit has the unit tests of the repository as functions on the
-- model.
--
-- The backfill and the live monitor hand jobs to the worker; the worker asks the ledger whether a job is
-- finished, runs the pipeline, and records how it ended; an operator's request runs the pipeline too.
-- The pipeline asks the chain whether the payment is still open, downloads both documents, evaluates and
-- settles.
--
-- What stands outside: the environment is a function from names to texts, the keypair file and the
-- connection to the database are functions from a path and an address to a result, and what the builder of
-- the HTTP client answers is a parameter; the chain, the RPC node and the registries are functions from the
-- number of the request, or the account that is asked, and its arguments to a reply, so that any behaviour
-- in time is one such function. Each
-- ledger call has a fate: it works, gets no connection, is refused, or times out with its statement done
-- or not. A run that the timeout cuts off leaves a state that is a parameter, which stands for
-- whatever it had done by then. Where transactions are counted or justified, it is one that had handed
-- over nothing yet, or what the whole run hands over. Among the tasks of the service, a turn of the worker and a request of an
-- operator are one step each.
--
-- Numbers are natural numbers; where a machine integer can wrap around, the release build's wrap-around
-- is written out (the counters, the pauses, the bound of a backfill page, the in-memory attempts). The
-- ledger's INTEGER column of attempts is unbounded here. Byte strings are lists of numbers.
--
-- Loops are by recursion on what they run over: mirrors, attempts left, entries of a page. The backfill's
-- outer loop alone runs on fuel; without fuel it yields no result, so that a result is a scan that
-- ended, and one turn more than the lookback is fuel enough.
--
-- Times of the rate limit are nanoseconds; the ledger tells the time by the number of its calls.
--
-- Not modelled: what the web framework does with the router and its CORS layer, the start of the tasks in
-- src/main.rs, the connection pool of src/db.rs, logging, and the building and signing of the
-- transaction, which is the arguments of its instruction.
mod Prelude
pub mod Error
pub mod Types
pub mod External
pub mod Config
pub mod Evaluator
pub mod State
pub mod Fetch
pub mod Settler
pub mod Pipeline
mod Samples
mod Tests
pub mod Monitor
pub mod Ledger
pub mod Worker
pub mod Server
pub mod Service
