-- ===== src/Lib.antt =====
-- roder, a Kubernetes dashboard: a server that drains nodes and streams the progress to browsers.
--
-- A request to drain a node is registered as a job (src/server/drain_jobs.rs), a worker runs the drain
-- against the API server (crates/k8s/src/backend/drain.rs) and emits events into the job's buffer, and
-- each browser follows the job over a stream that replays the buffer and then reads a broadcast
-- channel (src/server/api/drain.rs). A user may cancel the job until the worker closes cancellation.
--
-- Files:
--   Prelude: lists over native numbers, results, association maps, sorting, texts.
--   Core/Drain: crates/core/src/drain.rs, the options and their validation, and the events.
--   Server/DrainJobs: `DrainJobs` and `JobHandle`. Each operation takes the lock once and is one
--     function on the registry: `create_for`, `active`, `subscribe`, `replay_after`, `cancel`,
--     `cancel_flag`, `begin_non_cancellable`, `emit`, `finish`, and `expire` for the task that `finish`
--     spawns. Cancel flags are addresses in a store, since a worker shares its flag with the entry.
--     Steps has the step relation of all callers together, with the renewal of a lease, which sets the
--     flag of a job whose lease is lost; Changes, Invariant, Uniqueness,
--     Cancellation, History, Ids and Owners have what follows.
--   Server/Broadcast: the interface of tokio's broadcast channel.
--   Server/DrainProgress: `live_events` and the subscription of `drain_progress`. Session has every
--     interleaving of a stream with the registry, up to the event `eof`; Buffers, Prefix and Lossless the proof about it.
--   Core/Actions, Core/Permissions, Core/Conditions: crates/core/src/resource.rs and permissions.rs. JSON
--     values are seen through the fields that are read.
--   Core/Row and App/SearchState: crates/core/src/row.rs and src/app/search_state.rs, the merged rows of
--     a search; the timers that an event starts are part of the state.
--   App/Ansi: src/app/util/format/ansi.rs, the readers of terminal colours, over the codes of the
--     characters; Content, Spans and Safety what they push.
--   App/TableLogic: src/app/table_logic.rs and src/app/components/table.rs, the cursor, the action targets
--     and the order of the rows; Orderings has what a sort asks of a comparison, Natural `nat_cmp`,
--     Compare `compare_rows` and the rows that are shown.
--   K8s/Sanitize: crates/k8s/src/backend/sanitize.rs and crates/core/src/sweep.rs.
--   Server/DrainWorker: what the worker of `spawn_drain_job` does after the drain; Endings observes the
--     requests to the power API in the world.
--   K8s/Coordination: crates/k8s/src/coordination.rs, the lease of a node. An operation is a machine
--     that is resumed with the answer to the call it awaits; Server has the interface of the API server,
--     its optimistic concurrency as laws; Tasks every interleaving of the tasks of all replicas, and
--     Effects, Invariant and Exclusion the proof about it; Acquire the uninterrupted `acquire`, in
--     twelve calls at most (four rounds of three); Renewals the renewals over time;
--     Naming the name of the lease.
--   K8s/Promql: the escaping of crates/k8s/src/promql.rs, read back by a reader of PromQL's literals.
--   Server/Forwarding: the choice of a replica in src/server/ha.rs, over the pods of K8s/Coordination.
--   Server/Session: src/server/session.rs over an interface of the cipher, base64 and JSON.
--   K8s/Errors: `classify_status` and `classify_kube_error` of crates/k8s/src/backend/mod.rs.
--   K8s/Drain: the classification of pods and the blockers; Cluster the interface of the API server,
--     the clock, the timer and the cancel flag; Removal the loop that removes one pod; Run the whole
--     of `DrainSession::drain`, and Run/Outcomes what it counts; Reboot `wait_for_node_reboot`.
--
-- Bounds: a job id wraps at 2^64 as in the source, and the step relation has no creation at the last
-- id. Lengths and counts are unbounded. The two loops of a drain take fuel, since a drain without a
-- timeout may wait for ever; with a timeout, on a clock that does not go back, one round more than the
-- timeout has milliseconds is enough.
--
-- The positions of a word of capabilities are the 32 of the source's u32.
--
-- The lease of a node is to keep two replicas from working on it: the worker of a drain and the actions on
-- Talos nodes hold it while they work; an action on the node of the replica that receives it is forwarded.
--
-- The comparison of cells takes floating-point numbers as a parameter, and sealing takes the cipher, base64
-- and JSON as parameters, each with what is relied on as named laws.
--
-- Not modelled: HTTP, the OIDC login, rendering in the browser, informers, metrics, Talos and the other
-- operations on the cluster, which call other systems or display what they return; and the resource tree,
-- the overview, the recommendations and the parser of log lines.
mod Prelude
pub mod App
pub mod Core
pub mod K8s
pub mod Server
