-- ===== src/Lib.antt =====
-- The vibe guide: a local tool that plans a task graph and drives its authorized execution.
--
-- The program (package vibe_guide) publishes a plan as a graph of nodes, has it authorized by a
-- card that is bound to digests, and then a monitor ticks over a run: it starts the nodes that are
-- ready in worktrees of their own, each held by a writer lease, reviews what they deliver, watches
-- for nodes that make no progress, shows each node's state to the user in a few words, and at the
-- end delivers the integrated branch to the remote repository, step by step and behind a review
-- gate.
--
-- What is modelled, and where:
-- Common: tests, lists, texts and dictionaries that the parts share; Json: JSON values with
-- Python's truth test.
-- Dag: vibe_guide/dag.py. Dag/Contract is `_contract_error`; Dag/Graph is the depth-first search of
-- `_structural_errors` with its marks; Dag/Node is `_structural_errors` and `validate_dag`;
-- Dag/Ready is `ready_nodes`; Dag/Closure is `dependency_closure`; Dag/Scoped is
-- `node_scoped_ready`. Dag/Samples has a plan at which the theorems are used, as each Samples does.
-- Decisions: vibe_guide/decisions.py. Decisions is what a request has to be; Decisions/Mailbox the
-- requests, the results and the superseded results as dictionaries, with the digest and the size of
-- a record as parameters. A call that raises gives no mailbox.
-- Delivery: vibe_guide/remote_delivery.py. Delivery is its data; Delivery/Binding the digests;
-- Delivery/Engine what one step's answer does to the evidence and the node; Delivery/Engine/Drive
-- the loop over the steps and the guards of `drive_remote_delivery`; Delivery/Validate is
-- `validate_remote_delivery_evidence`. The executor (git and gh) is a function of the outside
-- world, which answers facts, nothing or a failure. Of its facts the fields that the engine reads
-- are kept, with a flag that is tested for truth as a Boolean. The nodes beside the ring and the
-- review are one list, in the order of their ids, which also stands for the order of the dictionary
-- where evidence.py walks it. A failure names one of the six steps or none; the names git and gh,
-- which the process helpers give, are not told from none. An exception other than
-- RemoteDeliveryFailed leaves the call and is not modelled.
-- Lease: the writer leases of vibe_guide/state.py. The directory is a dictionary; SHA-256 of the
-- joined keys is a parameter; Lease/Read is the reader. The interprocess lock makes each operation
-- one step, and Lease/Reach takes any sequence of claims, quarantines, releases and rebindings. The
-- operations that archive a run's leases and restore them (`archive_run_leases`, `unarchive_run`)
-- are not modelled; a restored lease is not checked against the leases of other runs. A lease file
-- that is not UTF-8 counts as unreadable, also where acquire raises.
-- Registry: vibe_guide/task_registry.py. Registry is the rows and `save_task_binding`;
-- Registry/Load the readers; Registry/Verify is `validate_binding`, and Registry/Policy
-- `verify_binding` of vibe_guide/binding_lifecycle.py. The files are a dictionary from run ids;
-- whether a run is complete, what `expected_binding` asks and the id of a lease are parameters.
-- Review: the integration review of vibe_guide/evidence.py, over JSON values. Review is the count
-- of the findings and `validate_integration_review_evidence`; Review/Closeout the claim, the
-- package, its record in the run and `evaluate_v41_closeout`; Review/Delivered
-- `evaluate_delivery_evidence`, with Unicode's NFKC as a parameter. The integration review is the
-- node of that name, as in Delivery. A status that is neither a text nor a plain value is refused
-- with the checks, where Python raises a TypeError. Whether some node's workspace waits to be
-- reconciled is given to the closeout as a Boolean.
-- Status: `map_user_status` of vibe_guide/state.py and what it calls.
-- Stall: vibe_guide/stall.py. `assess_stalls` at one beat, and Stall/Beats one node over a sequence
-- of beats; Stall/Each is every node of one beat. The digest is a parameter, and an active task's
-- role is a text.
--
-- How they meet: a snapshot's node that Dag finds ready is claimed by Lease, its task registered
-- and its binding verified by Registry, watched by Stall, shown by Status; what only the user can
-- decide is asked through Decisions; and when all are accepted Review records the integration
-- review, Delivery drives the last ring, and Review closes the run.
--
-- Loops: the search for a cycle runs on fuel, one more than there are nodes, since the nodes on the
-- stack are distinct; the closure runs for one round more than there are nodes, since every round
-- but the last adds one. The walk over a task's ancestry runs for one step more than there are task
-- ids, which is shown to be enough. The results that stand against an independent description would
-- fail if either ran out. All other loops are over lists.
--
-- What is not modelled: the command line, the adapters, runners and servers, which launch processes
-- and read their output; file system writes and locks; the monitor's own tick. In
-- `node_scoped_ready` the result of `_parallel_group_errors`, path heuristics over a parallel
-- group, is a parameter. `redact_provider_text` is a parameter of Lease.
pub mod Common
pub mod Dag
pub mod Decisions
pub mod Delivery
pub mod Json
pub mod Lease
pub mod Registry
pub mod Review
pub mod Stall
pub mod Status
