-- ===== src/Lib.antt =====
-- crane-oss runs Kubernetes worker capacity: an autoscaler asks for a target of a node group, the
-- control plane admits it in a PostgreSQL transaction, and zone controllers carry out the durable
-- operations that the admission has left, under leases with fencing. Beside it stands an older queue
-- of actions on single hosts, which a problem detector fills.
--
-- The database is a record of tables, and a table is the list of its rows. A transaction is a function
-- from a database to a result: an error, which rolls it back, or the new database. A statement's guard
-- is a Boolean test of its WHERE clause, on the row and on the tables it joins.
--
--   Base        tests, results, tables and relations between two states of a table
--   Api         pkg/api: the types that the packages exchange
--   Capacity    internal/capacity
--     Db          schema.sql: the tables
--     Policy      store.go: loadPolicy and checkReservations
--     Intents     store.go: provisionIntent and cancelPending
--     Admission   store.go: SetTarget and Target
--     Leases      store.go and provision_lease.go: claim, Renew, BeginLaunch and the lease's tests
--     Launch      store.go: RecordLaunchWithAddress and LoadProvisioningTarget
--     Provision   store.go: SetProvisionState, SetProvisionDesiredVersion and CompleteProvision
--     Binding     provision_handoff.go: BindProvisionNode and PinProvisionExpectedState
--     Handoff     provision_handoff.go: PrepareProvisionRelease and FinalizeProvision
--     Removals    removals.go: CreateAutoscalerRemovals
--     Worker      provision_worker.go: RunOnce and the stages of advance
--     Catalog     scheduling.go: UpdateNodeGroupScheduling; catalog.go: UpdateClusterZone
--     Steps       the committed calls of SetTarget, CreateAutoscalerRemovals, the provisioning workers,
--                 the bootstrap controller and the two of Catalog, as a step relation
--     Inversion, Operations, Unchanged, Groups, Administration, Evolution, Frame, Targets, Retries,
--     Fencing: the proofs
--   Hosts       internal/hostcatalog: the life cycle, the service's guards and writes
--   Execute     internal/execute: the action queue, the executor and its worker
--   Activity    internal/activitymanager: the problem cache and the manager's round
--   Agent       internal/subd: the agent of a host
--     Request     kubernetes.go of pkg/api and host.go: Normalize and validateExpected
--     State       state.go, status and NewServer
--     Server      server.go: the handler of PUT /v1/expected-state
--     Registration, Join   worker.go and scheduling.go of pkg/api, cluster_join.go: clusterJoin
--     History     requests, restarts and deaths of the process as a step relation
--     Startup     server.go: NewServer on both files
--     Normal, Invariant, Restart, Handling, Register, Replay, JoinOrder: the proofs
--   HostOperations   internal/hostoperations: loadTarget (Store) and Execute (Controller)
--     Revisions, Enforcement: the proofs, the second over the agent of Agent
--   Autoscaler  internal/adapter/autoscaler: discoveredGroups (Groups), retry, changeTarget,
--               NodeGroupTargetSize and NodeGroupDeleteNodes (Server)
--     Retry, Delivery, Removal: the proofs, the latter two over the store of Capacity
--   Bootstrap   internal/capacity: the building of a cluster's first zone
--     Store       catalog.go and bootstrap_worker.go: BootstrapPhase, ReleaseBootstrapLease
--     Records     bootstrap_discovery, bootstrap_host, bootstrap_dominator and bootstrap_target.go
--     Controller  bootstrap.go: RunOnce, without the renewals of the lease during a step
--     Calls       the statements as calls of the store
--     Statements, Frame, Phases, Rounds, Queue: the proofs
--   Each Scenarios module runs the theorems on concrete stores.
--
-- An operation that a worker holds carries the owner and the fence that its claim returned. Each fenced
-- statement's guard asks that both still match and that the lease has not run out. The step relation of
-- Capacity.Steps takes any interleaving of calls, each with its own clock and UUIDs: it makes no
-- assumption on time. CreateRemoval, CreateBootstrap, the insertion of topology rows, Observe and the
-- writes of the host catalog are no steps of it.
--
-- Numbers of the schema are never negative, by its CHECKs, and are the native natural numbers; numbers
-- of requests are signed. The products of checkReservations keep the wrap of int64. The loop of the
-- adapter's retry runs on fuel, three rounds, which Autoscaler.Retry shows to be enough; all other loops
-- are structural recursion.
--
-- The agent's file may be written although the write reports an error, as where the sync of the directory
-- fails after the rename. What the host has enforced is kept in a list that is no field of the server. A
-- dead process starts again from its files, at any step.
--
-- Parameters of the model are the collation of texts, a JSON key's lookup, the clock and UUIDs (Policy),
-- package net (Launch), the JSON codec and hash lengths (Binding), the external work of a provisioning
-- worker (Worker), the cloud provider of the executor (Execute.Executor), regular expressions, Kubernetes'
-- validation, hashes and the commands of the host (Agent), go-spiffe and the wire (HostOperations), and
-- the context of a call (Autoscaler), and package net with the external steps of a bootstrap (Bootstrap).
--
-- Not modelled: CreateRemoval, CreateBootstrap, Observe, HTTP and gRPC transport, the AWS SDK, the Kubernetes client, the collectors and commands of
-- the agent, the admission of a bootstrap, registration of topology, telemetry, and the goroutine that renews a lease
-- during a step.
pub mod Base
pub mod Api
pub mod Hosts
pub mod Execute
pub mod Agent
pub mod HostOperations
pub mod Activity
pub mod Capacity
pub mod Bootstrap
pub mod Autoscaler
