-- ===== src/Lib.antt =====
-- Verification of the I/O automata library: the model of a running system of automata, the executors
-- of their actions, the schedulers that run them, the protocol by which an automaton asks for creations
-- and bindings, two automata with sockets, and the helpers these stand on.
--
-- The parts and their files:
-- * SequentialSet models lib/sequential_set.hpp, the ids of automata (aid_t, a signed 64-bit integer).
--   The loop of `take` has one round of fuel more than there are ids in use, since each round that
--   goes on passes another of them.
-- * Event holds the enumerations of include/ioa/automaton.hpp, the action that an executor is made
--   for, and the calls of include/ioa/system_scheduler_interface.hpp, which the model makes of its
--   scheduler; the model keeps them as a log.
-- * Executor models the executors of include/ioa/action_executor.hpp and
--   include/ioa/executor_interface.hpp: an output with the map of the inputs bound to it. Executor/Run is what running one does, in
--   order, Executor/Locks the locks that it takes, Executor/Bindings the counting of bindings.
-- * AutomatonRecord models lib/automaton_record.cpp; a pointer to a record is the record's aid.
-- * Model models lib/model.cpp and lib/model.hpp: create in Model, bind and unbind in Model/Bind,
--   destroy and clear in Model/Destroy, execute in Model/Execute. The other children hold proofs:
--   Model/Invariant states the invariant, and Model/Reachable which models the methods lead to.
--   `inner_destroy` has fuel for one call more than there are records, since each nested call and
--   each further round has fewer records at its depth or below, and `clear` for as many rounds,
--   since each removes a record. The end of the fuel is a `fault`, as is a failed assertion or a
--   null pointer.
-- * Requests and Automaton model lib/automaton.cpp. Creation and binding go through the same five
--   sets, so that Requests is one half and Automaton has two. Requests/Phases reads the sets as the
--   state of each helper, and Automaton/Protocol runs whole automata.
-- * Time models lib/time.cpp on fields of 64 bits, an overflow, which C++ gives no meaning, being a
--   `fault`. Time/Exact is the same arithmetic where nothing overflows. The schedulers order their
--   timers and compute their timeout by the exact one, for times of less than 4 * 10 ^ 12 seconds.
-- * AutomatonManager and BindingManager model include/ioa/automaton_manager.hpp and
--   include/ioa/binding_manager.hpp, the two kinds of helper.
-- * Observer models the observable of lib/observer.cpp.
-- * Runnable models the runnables, lib/create_runnable.hpp and the others, and
--   include/ioa/action_runnable.hpp: each runs a method of the model, or the
--   effect of a system input of the class `automaton` (Runnable/Answers). Runnable/Total is their run on a
--   model that the invariant holds of.
-- * Scheduler/Timers and Scheduler/Files model what both schedulers keep for timers and for descriptors;
--   the lines are those of lib/simple_scheduler.cpp. Scheduler/Calls are the calls that automata make of
--   a scheduler (include/ioa/scheduler_interface.hpp), and what comes from outside of the library.
-- * Scheduler/Fifo models lib/global_fifo_scheduler.cpp: its calls in Scheduler/Fifo, a round of its
--   loop in Scheduler/Fifo/Loop. The other children hold proofs. A round takes the steps of an
--   executor and the events of the model's log and makes the calls that they stand for.
-- * Scheduler/Simple models the threads of lib/simple_scheduler.cpp: what each thread does in
--   Scheduler/Simple, the input and output thread and the interleavings in Scheduler/Simple/Steps. The
--   other children hold proofs.
-- * TcpConnection models the connection of lib/tcp_connection_automaton.cpp and UdpSender models
--   lib/udp_sender_automaton.cpp; the answers of the system calls are arguments.
-- * Outcome, FinSet, FinMap and Prelude are the shared helpers: results that may be a fault, std::set
--   and std::map with keys in ascending order, and signed integers. Pointers used as keys are
--   numbers, with 0 for the null pointer.
-- * Samples applies the theorems to small systems.
--
-- The parts meet in the model: it hands out aids by a SequentialSet, keeps an AutomatonRecord for
-- each automaton and an Executor's Output for each bound output, and logs Events. An automaton's
-- Requests become events by way of `execute_sys`, and the answers come back as its system inputs.
--
-- Not modelled: the reset at the end of a scheduler's run, the time accounts of threads, the wrappers
-- of threads and locks, the TCP acceptor and connector and the initialisation of a connection, the UDP
-- receiver, and the variants of binding_manager. The code that a user writes for an action is not part
-- of the library; an execution shows when it is called, and the calls that it makes of the scheduler
-- are a parameter. The clock is read once for a round of the loop of lib/global_fifo_scheduler.cpp. The
-- number of runnables in existence (lib/runnable_interface.cpp) is a field of the scheduler.
-- The methods of a model that change it hold its lock exclusively, and each is one step here.
pub mod Prelude
pub mod FinSet
pub mod FinMap
pub mod SequentialSet
pub mod Event
pub mod Executor
pub mod Outcome
pub mod AutomatonRecord
pub mod Model
pub mod Time
pub mod Requests
pub mod Automaton
pub mod AutomatonManager
pub mod BindingManager
pub mod Observer
pub mod Runnable
pub mod Scheduler
pub mod TcpConnection
pub mod UdpSender
pub mod Samples
