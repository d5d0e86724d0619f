-- ===== src/Lib.antt =====
-- dizzy is a load and consistency tester for OpenStack control planes: a scenario expands into a
-- plan, and a run applies the plan once or churns through it for hours. This library models the
-- parts that carry that logic and proves what makes them correct.
--
-- Which file models which part:
-- * Churn/* : the churn engine, internal/chaos/engine.go. Churn/Graph is `Node` and the indices
--   of `newEngine`; Churn/State the scheduler's state (`op`, `nodeState`, `retired`, the counters);
--   Churn/Choice the candidate lists, the controller and the draws of `step`; Churn/Dispatch the
--   three dispatch functions and `record`; Churn/Task the tasks they start and the assembled
--   result; Churn/Step `step`, `roll` and the loop of `run`. The proofs stand in Churn/Population,
--   Rolling, Allowed, Permitted, Invariant, Pinned, Schedule and Record. Churn/Results is the
--   time-bucketed report, `results`, with its proofs in Churn/Results/*.
-- * Metrics/* : internal/metrics. Metrics/Latency is `ComputeLatency` and `percentile`, which the
--   churn report calls; Metrics/Histogram the log-bucket histogram; Metrics/Collector the
--   collectors that the runs record into and their children. The proofs stand in
--   Latency/Percentile, Histogram/Rank, Collector/Family and Collector/Balance.
-- * Pressure/* : the pressure engine, internal/pressure/engine.go. Pressure/Config is
--   `Config.Validate`; Pressure/Picker `ValidateOperations` and the weighted picker;
--   Pressure/Buckets the time buckets, children of the run's collector; Pressure/Stages the staged
--   run, whose workers and controller are a step relation. The proofs stand in Config/Runnable and
--   Accepted, Picker/Draws, Buckets/Sliced, and Stages/Invariant, Quiet, Progress and Deadlock.
-- * Run/* : the comparison of two pressure records, internal/run/compare.go. Run/Load is what
--   identifies a load and `loadMismatches`; Run/Compare `Compare` and its rows. The proofs stand in
--   Compare/Loads and Compare/Rows.
-- * Builder/* : the churn graph that internal/chaos/neutrongraph/graph.go makes of a Neutron
--   plan, and which the churn engine runs on. The proofs stand in Builder/Ordering and Shape,
--   Builder/Neutron/* and, for any node list, in Churn/Layered.
-- * Plan : the Neutron plan and its `Validate`, internal/plan/plan.go.
-- * Nova/* : the Nova plan and its `Validate`, internal/nova/plan/plan.go; the three churn graphs
--   that internal/chaos/novagraph/graph.go makes of it (Nova/Graph), and what their nodes' closures
--   do: Nova/Cloud is the interface `Nova` with `WithRetry` of internal/nova/executor/executor.go,
--   Nova/Operations the creates, deletes and lifecycle operations, Nova/Mutations the repeatable
--   mutations with the state that their closures keep. The proofs stand in Plan/WellFormed,
--   Graph/Ordered, Rolled, LongLived and Kept, Operations/Deletes, and Mutations/Flavor and
--   Attached; Cloud/Triple and Cloud/Runs are their rules, Churn/Parented and Churn/Lasting what
--   they use of the engine.
-- * Octavia/* : the Octavia plan and its `Validate`, internal/octavia/plan/plan.go, with the
--   names of members in Octavia/Names; and the churn graph that
--   internal/chaos/octaviagraph/graph.go makes of it. The proofs stand in Names/RoundTrip,
--   Plan/Fits, Lookup, Entries, Members and Servable, and Graph/Ordered and Gated.
-- * Scenario : the Neutron scenario and its `Validate`, internal/scenario/scenario.go.
-- * Executor/* : `WithRetry`, the stages and `Apply` of internal/executor/executor.go, and
--   `Cleanup` of internal/executor/cleanup.go. The proofs stand in Executor/Retry/Outcome,
--   Stage/Complete, Apply/Sound, Apply/Resolved, Apply/Ordered, Apply/Whole and Cleanup/Scope.
-- * Prelude/* : shared tests, lists, integers, checks and name sets. Tests/* : concrete inputs.
--
-- How the state corresponds: a slice indexed by node is a function of the index; a pointer to an
-- operation is its number in the order of allocation, and nil is `none`; the closures that a dispatch
-- starts are its `Work`; math/rand, net/netip, strconv.Atoi, the floating-point numbers and the clock are parameters. The
-- scheduler is one goroutine, so its steps are functions of its state; what the concurrent tasks do
-- to that state between two steps is any function that leaves the inventory alone.
--
-- The executor's answers from the cloud, the cancellations of the run, and how many items its pool of
-- workers hands out are parameters; the cloud that a cleanup tears down is a state that its calls
-- pass on. The calls of Nova's operations pass on the cloud's state in the same way, and a log of the
-- calls made.
--
-- In a staged run a step is what one goroutine does between two blocking calls: under the lock, after a
-- channel or the clock woke it, or when the cloud answered. An operation's Do and a stage's Enter are
-- taken to return at some time, which the operation's timeout and the documentation of Enter ask for,
-- and offsets of the monotonic clock never decrease. Of the channels only what is closed is kept: a
-- counter of the generations of `resume`, and whether the present `allParked` is.
--
-- Fuel: `visit` of a roll goes down the children at most as often as there are nodes, which is enough
-- in an acyclic graph, and the theorems on rolls prove it; `raise_open` makes at most as many rounds
-- as the loop that it models; the retries count down the five attempts; a record climbs from a
-- collector to its parents, which have smaller numbers; a bucket list grows up to the index looked for.
--
-- Not modelled: the service clients, which call gophercloud and turn some of its errors into
-- success, such as a 409 of a resize that shows the server resized already: what they answer is the
-- cloud's answer here; the rendering of reports, telemetry and command-line code, which format and
-- print; the builders, plans and executors of the other services, which have the shape of
-- Neutron's, Nova's and Octavia's, and the generators of the plans; the checkpoints of the two
-- engines; the recovery from a panic. How the workers of a stage of `Apply` are scheduled is a
-- parameter, a record on a collector is one step with those on its parents, and the ends of the
-- stages of a pressure run are added without wrap-around. Of Nova's operations, the bound of each
-- call by `opTimeout`, which is a part of what the cloud answers, and the labels of `Classify` are
-- left out; of Octavia's graph, what the nodes' closures do.
pub mod Prelude
pub mod Metrics
pub mod Nova
pub mod Octavia
pub mod Builder
pub mod Churn
pub mod Plan
pub mod Scenario
pub mod Executor
pub mod Pressure
pub mod Run
pub mod Tests
