-- ===== src/Lib.antt =====
-- Verification of mm1, an Erlang-style actor runtime in Rust.
--
-- Which file models which part of the repository:
--
-- - Address (children Value, Spans, RoundTrip): libs/mm1-address/src/address.rs, the text form of
--   addresses (`digits`, `from_str`, `to_chars`).
-- - Sup.Intensity, Sup.Child, Sup.Scan: components/mm1-sup/src/common/restart_intensity.rs, and the types
--   that the deciders of the mixed supervisor share (mixed.rs, mixed/decider.rs).
-- - Sup.OneForOne and Sup.AllForOne: components/mm1-sup/src/mixed/strategy/one_for_one.rs and
--   all_for_one.rs, one function to a method of the trait `Decider`. The supervisor's actor asks the
--   decider for its next action before each message that it receives, and reports starts, exits and
--   failures of its children to it. `Sup.OneForOne.Run` has any sequence of such calls.
-- - Timer: components/mm1-timer/src/v1.rs, the state of the timer server and its three events. A send that
--   fails while it fires messages ends the server; so does a reply, after which there is no event.
-- - NameService: components/mm1-name-service/src/server.rs, the state of the name server and its three
--   requests.
-- - TaskRegistry: core/mm1-node/src/runtime/task_registry.rs; Permits has the registry among its users, as
--   a step relation, and Closing what happens once it is closing.
-- - Sup.Mixed: components/mm1-sup/src/mixed/sup_actor.rs and sup_child.rs, the loop of the mixed supervisor
--   around the one-for-one decider: `act` before it receives a message, and `receive` after.
-- - Sup.Uniform: components/mm1-sup/src/uniform.rs (Kind, the types of children) and uniform/sup_actor.rs
--   (Model, its types; Reports, what the forks report and the clean-up; the handlers in the file itself),
--   one function to a handler, each with the calls of the context that it makes. Lifecycle has the
--   supervisor among the forks that start its children, as a step relation: each fork reports once.
-- - Pool: libs/mm1-address/src/pool.rs, the pool that leases networks, and Pool.Trie: pool/trie.rs, the
--   trie of free blocks that it keeps twice. Pool.Trie.Covers says which addresses a trie stands for, and
--   Pool.Ownership has a pool and the leases that are out, as a step relation.
-- - NodeRegistry: core/mm1-node/src/registry.rs. Lookup has the ordered map of the subnets, and Inbox the
--   mailbox of an actor with its own node and those of the subnets that it binds (`bind` of
--   core/mm1-node/src/runtime/context/impl_context_api.rs), each with its semaphore, as a step relation.
-- - Container: core/mm1-node/src/runtime/container.rs with sys_msg.rs and sys_call.rs, the loop that serves
--   an actor and its forks: Turns has one function to a call or a system message, Teardown what follows the
--   loop, Sets the sets that an entry holds. Runs has any sequence of turns; Rounds and Linking have two
--   containers that exchange their messages.
-- - Config: core/mm1-node/src/config.rs and its modules. The file itself has the test of the local networks
--   for overlaps, Config.Actor the tree of the actors' configuration (actor_config.rs, with the keys of
--   actor_key.rs), Config.Runtimes rt_config.rs, and Config.Validation the whole validation, `Rt::create`
--   (runtime/rt.rs) and `choose_executor` (runtime/rt_api.rs), whose `expect` relies on it. The walk over
--   the tree has one turn of fuel for each node and one more, which Config.Actor.Walk shows to be enough.
-- - LogFilter: libs/mm1-logger/src/level_filter_trie.rs.
-- - Subnet: libs/mm1-address/src/subnet.rs and address_range.rs, with the text form
--   in Subnet.Text. A range is a key of an ordered map, and overlapping ranges are equal keys.
-- - Multinode.Codec, Multinode.Registry and Multinode.Route: components/mm1-multinode/src/codec.rs,
--   protocol_registry.rs and route_registry.rs. A route belongs to a message type, by the key that the
--   protocol registry gives out, a network and a gateway.
-- - Multinode.Waitlist and Multinode.Manager: components/mm1-multinode/src/actors/multinode_manager.rs, one
--   function to a request or message (`on_register_protocol`, `on_set_route`, `connect_tcp`), by the parts of
--   the state that belong together: Protocols with the waitlist, Ifaces, Routes. Waitlist has the requests
--   that wait for a protocol, an entry for each and an ordered set by the name.
-- - Shared has the library names, Boolean tests, lists, association lists for hash maps, ordered lists
--   for `BTreeMap`s, and the crate `slotmap` as an interface. Examples holds concrete inputs and tests.
--
-- Conventions. A struct is a record, an enum a data type, a method a function that returns the new state;
-- a panic (`assert!`, `expect`, `unreachable!`) is a result of its own. The clock reading is an argument.
-- Instants count from the earliest one that the platform represents. Keys are of any type with decidable
-- equality. The order of an association list stands for the iteration order of a hash map, which the
-- program does not fix. Loops run over a list or a fixed count, but for the search for a vacant watch
-- reference, whose fuel is one more than the references that are taken (Container.Refs says why it is enough).
--
-- Not modelled: the container's events of a channel whose senders are all gone (`EndOfCallRx` and
-- `EndOfSysMsgRx`), on which `run` returns a `ContainerError` at once; sockets, the tokio
-- scheduler, serde, logging, code generation by macros, the test runtime, and the rest of the multinode
-- and runtime crates that are asynchronous glue.
pub mod Shared
pub mod Address
pub mod Subnet
pub mod Sup
pub mod Timer
pub mod NameService
pub mod TaskRegistry
pub mod LogFilter
pub mod Pool
pub mod NodeRegistry
pub mod Config
pub mod Container
pub mod Multinode
mod Examples
