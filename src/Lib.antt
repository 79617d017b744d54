-- ===== src/Lib.antt =====
-- Unetic core: the program that keeps a router's Wi-Fi and WAN at a desired configuration.
--
-- The parts of the program, and where they are modelled
--
-- Domain: the types of src/domain, and in Domain/Roaming the compilation of a roaming profile into
-- the policies of the router (src/domain/network/roaming.rs). Texts are Unicode strings, lengths
-- are those of their UTF-8 bytes (Prelude/Text), maps are lists sorted by their keys
-- (Prelude/Maps), derived equality is a decision (Prelude/Tests).
-- Wan: the validators and the normal form of a WAN configuration (src/application/wan/validation.rs,
-- validation/qos.rs, normalization.rs). Addresses and masks are numbers below 2^32; `!raw` and
-- `wrapping_add` are written out. The reading of an IPv4 address is the standard library's.
-- Platform: what the core stands on, as three interfaces over one state of the world. RouterBackend
-- and DeviceBackend have the methods of src/infrastructure/backend.rs that the modelled operations
-- call; Host is the clock, the files, the sleep and the start of threads. A write says whether it
-- failed before or after the new file took the place of the old one.
-- App: the state behind the locks of src/application/app/mod.rs (App/State), the methods as actions
-- over it that return, fail or hang (App/Monad), the files of src/infrastructure/storage.rs
-- (App/Store), the snapshot and the buffer of events of src/application/state/mod.rs
-- (App/Publisher), its refresh_observed (App/Observation), the marks that a change leaves in the
-- state, from src/application/app/operations/wifi.rs (App/WifiOperations) and wan.rs beside it
-- (App/WanOperations), and maintenance.rs (App/Maintenance, with the lock of App/Mutex).
-- Rules for actions: App/Quiet (an action leaves the desired state alone), App/Ends and App/Leaves
-- (what holds where it ends), App/Timely (it ends), App/Still (it only looks at the router, or
-- tells of the state).
-- Transaction: the Wi-Fi change of src/application/transaction.rs (Transaction/Wifi) and the loop
-- of src/application/transaction/sync.rs that waits for the router (Transaction/Verify), and the
-- WAN change of src/application/wan.rs with its own loop (Transaction/Wan). What both promise is
-- stated once, in Transaction/Outcome. The theorem on the Wi-Fi change is put together in
-- Transaction/Quiet, Conclusion, Persistence, Atomicity, Termination, Marks and Completion, the one
-- on the WAN change in the modules of these names below Transaction/Wan.
-- Transaction/Sync has the syncs outside a change, of both files, with their proofs in
-- Transaction/SyncQuiet and SyncTermination.
-- Recovery: recover_from_journal of src/application/app/recovery.rs and the marks that it leaves
-- (Recovery/Journal); the theorem is put together in Recovery/Closing, Decision, Completion,
-- Termination and Restart.
-- Reconcile: a round of src/application/app/reconcile.rs up to its decision (Reconcile/Round), the
-- repairs and their workers (Reconcile/Repair), and the worker that ends the maintenance
-- (Reconcile/MaintenanceExit), with their proofs in Reconcile/Drift, Decision, Rest, Start,
-- RuntimeRepair, Completion and MaintenanceEnd.
-- Requests: set_wifi_config of src/application/app/handlers.rs: the validators
-- (Requests/WifiValidation), the decision under the lock (Requests/Admission) and its execution
-- (Requests/Wifi); and set_wan of src/application/app/wan.rs (Requests/WanAdmission and
-- Requests/Wan).
-- Services: ddns_set of src/application/app/operations/ddns.rs (Services/Ddns), and the manager
-- of src/application/subscription/mod.rs (Services/Subscription), with instants in milliseconds.
-- Devices: src/domain/mesh/device_inventory.rs: the ids of devices (Devices/Identity, with their
-- round trip in Devices/Names) and the inventory (Devices/Inventory, with what it holds after a
-- snapshot in Devices/Lookup, Retention, Observed and Snapshot); and
-- src/application/app/operations/devices.rs: its validators (Devices/Validation), what it does to
-- the list of the registered devices (Devices/Registration) and its operations (Devices/Operations,
-- with devices_list and refresh_devices of app/mod.rs and sync_registered_devices of
-- app/reconcile.rs). That the list stays well-formed is put together in Devices/Registry, Rules,
-- Quiet, Keeping and Consistency.
-- Mesh: src/application/app/mesh_state.rs and src/application/app/operations/mesh.rs: pairing and
-- reports (Mesh/Pairing) and the configuration of a master (Mesh/Master), with the tokens in
-- Mesh/Tokens and the extenders that wait in Mesh/Queue. A token is what a generator outside the
-- core yields.
-- Memory: the router in memory of src/infrastructure/backend/memory, as an instance of the router
-- interface: its state (Memory/State), its methods (Memory/Router and Memory/Apply), what a router
-- promises to one session (Memory/Contract), and that the one in memory keeps it (Memory/Shows and
-- Memory/Refinement for one call, Memory/Traces for a sequence of calls).
-- Traffic: the rates of src/domain/network/traffic.rs (Domain/Traffic) and the sampler of
-- src/application/traffic_sampler.rs (Traffic/Sampler), with what its charts hold (Traffic/Charts).
-- Tests: a small router and the theorems at concrete inputs.
--
-- How a method is read. One call of a method is one step: it takes the locks that it needs one
-- after another, and no other thread changes the desired state while an operation is active. A
-- worker that a request starts runs `run_change` or `run_wan_change` as a later action over the
-- state that the request leaves. Where a method of maintenance.rs takes the lock of the state is
-- written out (App/Mutex); a method hangs if it takes this lock while its own thread holds it.
--
-- Bounds and fuel. A round of a verification loop sleeps for a millisecond at least if the delay
-- between samples is not zero (it is 400 ms by default), so the loop has one round more than the
-- timeout has milliseconds; a loop out of rounds hangs, and the modules Termination show that none
-- gets there. The loop that repairs the wireless runtime (repair_loop) has its rounds counted the
-- same way. The counter of operations and the revision of a change wrap at 2^64; the number of
-- events, and the revision under a DDNS request, stop at 2^64 - 1; failed repairs are counted up to
-- 255.
--
-- Not modelled: the loop around the rounds of the reconciliation, the start of the process, DNS,
-- the DDNS watcher, the sockets of the mesh, the diff of states, the file of the traffic history,
-- the methods of the router in memory that return constants or do nothing, the OpenWrt backend,
-- which calls ubus, UCI and netlink, and the presentation, which is glue around ubus calls. Fields
-- of the state that only these read are left out, and so are the logs.
pub mod Prelude
pub mod Domain
pub mod Wan
pub mod Platform
pub mod App
pub mod Transaction
pub mod Requests
pub mod Recovery
pub mod Reconcile
pub mod Services
pub mod Devices
pub mod Mesh
pub mod Memory
pub mod Traffic
pub mod Tests
