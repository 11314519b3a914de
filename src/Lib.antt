-- ===== src/Lib.antt =====
-- IncidentBench drives a benchmark of an observability backend: an operator in Kubernetes starts
-- the parts of a run, a phase controller leads the workers through the phases of a scenario, the
-- workers ingest events and send queries at the rates of the phase, an aggregator gathers what
-- they measure, and a reporter judges the run. This library models the part of it that decides
-- what a run does, in the crates under crates/.
--
-- Base: the shared helpers. Booleans and conditionals (Base/Tests), lists (Base/Lists), machine
-- integers with their wrap-around (Base/Word), hash maps as association lists (Base/Maps), and f64
-- as an interface, F64, with the operations that the source calls; what the proofs use of IEEE 754
-- is the records IsOrdered, IsRounded and IsExact (Base/Float). Examples/Milli has an instance
-- with all three.
--
-- Scenario (crates/incidentbench-common/src/scenario.rs): the types; Scenario/Validate is
-- Scenario::validate; Scenario/Rates is compute_ingest_rate_table and compute_query_rate_table;
-- Scenario/Scaling is with_scaling and resolve_group_query_mix; Scenario/Session is
-- derive_query_session of crates/incidentbench-operator/src/resources.rs and SessionCategory of
-- crates/incidentbench-worker/src/query.rs.
--
-- RateLimiter (crates/incidentbench-common/src/ratelimit.rs): the token bucket; a method takes the
-- clock's readings and returns the new bucket.
--
-- PhaseController (crates/incidentbench-worker/src/phase_controller.rs): the service's state, its
-- message handlers and status; a run of the service is a list of events, messages and ends of
-- streams, in any interleaving. PhaseController/Timeline is the timeline of `run`, from the first
-- phase on, as the list of the actions it takes; the workers that it finds registered and the
-- clock are arguments. PhaseController/Timeline/Launch is what `run` does before, with the
-- checkpoint.
--
-- Barrier (crates/incidentbench-worker/src/barrier.rs): the worker's end of the stream: the events
-- and acknowledgements made of the controller's messages, the wait for a transition, the retries
-- of connect.
--
-- Metrics (crates/incidentbench-common/src/metrics.rs): the merge of latency distributions and
-- their compression; Metrics/Derived is compute_derived. sort_by is the stable sort by
-- partial_cmp, written as an insertion sort.
--
-- Aggregator (crates/incidentbench-worker/src/aggregator.rs): the state and the handlers of the
-- service, one step on the state for each section under its lock; Aggregator/Bucket is
-- try_aggregate_bucket, Aggregator/Results the messages that go out, Aggregator/Service the
-- requests. What it writes to disk is the Persisted record that complete_aggregation returns. A
-- run is a list of calls in any order (Aggregator/Runs). The stream to live subscribers and the
-- calls of Kafka are left out.
--
-- Validity (crates/incidentbench-reporter/src/json_report.rs): evaluate_validity and
-- evaluate_criteria_rule; the split of a condition at white space and the parse of a number are
-- arguments.
--
-- Crd (crates/incidentbench-common/src/crd.rs): the specification of a run and its status, with
-- the merge patches of the status (Crd/Status). A message of a condition is the value of its
-- format.
--
-- Resources (crates/incidentbench-operator/src/resources.rs): the builders of config maps,
-- services, deployments and the reporter's job, on the records of Cluster/Objects, which have the
-- parts of the Kubernetes types that the builders fill.
--
-- Operator (crates/incidentbench-operator/src/controller.rs): reconcile and its handlers. A
-- handler is a program (Cluster): it makes a request, to the API server, to Kafka, to the adapter,
-- to a gRPC service or to the clock, and goes on with the reply, which is arbitrary; `?` ends it
-- with the error. Operator/Steps has the helpers, Operator/Targets the adapter and its warehouses,
-- Operator/Health the check of the deployments, Operator/Preparation handle_pending and
-- handle_preparing, Operator/Deploying handle_initializing, Operator/Watching handle_running,
-- Operator/Aggregation, Operator/Reporting and Operator/Cleaning the other handlers. What a
-- program does is followed on all its paths (Cluster/Paths, Cluster/Requests), or against a server
-- that stores the run and applies merge patches as documented (Cluster/Server). Operator/Lifecycle
-- has the moves of the phase.
--
-- Worker (crates/incidentbench-worker/src/ingest.rs and query.rs): the loops of the workers behind
-- their first transition, each a step on the record of the loop's variables, with all that the
-- turn meets as its argument. Worker/Ingest is the loop of ingest.rs; Worker/Query has the
-- counters of query.rs and Worker/Query/Errors the records of its errors, Worker/Rated is its
-- rate-controlled loop and Worker/Session its session loop. A panic is an outcome of its own.
-- Worker/Phases follows the moves of a worker from phase to phase against the timeline (with
-- Barrier/Transitions), for the loop of ingest.rs in Worker/Ingest/Phases and for the rate-
-- controlled loop in Worker/Rated/Phases. Worker/Fleet has workers of all kinds with what they do,
-- report and hold, and Worker/Delivery sets them against the aggregator that gets their snapshots;
-- that the stream between them neither drops nor repeats a snapshot is a hypothesis there.
--
-- Examples has concrete inputs at which the theorems apply.
--
-- Loops are structural recursion, with fuel in one place: in the compression of Metrics the number
-- of values bounds the number of chunks (the counts of the chunks add up to it, so no value is
-- left out). Not modelled: gRPC, HTTP, Kafka and Kubernetes clients beyond their replies, logging,
-- the generator of events, the requests of the adapter to its backend, the writers of HTML, JSON
-- and terminal reports, and the command line.
pub mod Base
pub mod Scenario
pub mod RateLimiter
pub mod PhaseController
pub mod Barrier
pub mod Metrics
pub mod Aggregator
pub mod Validity
pub mod Worker
pub mod Crd
pub mod Cluster
pub mod Resources
pub mod Operator
pub mod Examples
