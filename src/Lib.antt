-- ===== src/Lib.antt =====
-- A model of the simulation engine for distributed systems, and what is proved of it.
--
-- The program simulates networks of masters, links, switches and machines. A master hands out the
-- tasks of its workload to its slaves in round-robin order (include/workload, include/scheduler,
-- src/scheduler). A task travels as an event with a route descriptor over links and switches to a
-- machine, which processes it and sends it back (include/service, src/service); the routes come from
-- a table that is read from a file (include/routing). The simulator registers the services and
-- dispatches the events that ROOT-Sim delivers (include/simulator, src/simulator); the model builder
-- checks and registers services and generates workloads (include/model, src/model).
--
-- Base             lists, Boolean tests and word sizes on the native numbers; `Result` and its errors
--                  for `die` (src/core/core.cpp), exceptions and undefined behaviour
-- Double           `double` and `timestamp_t`: a type with operations, and the laws that proofs use
-- Distribution     include/math/distribution/distribution.hpp: `TwoStageUniformDistribution`
-- Szudzik          include/math/utility.hpp: `szudzik`
-- Customer         include/customer/customer.hpp, include/event/event.hpp, include/routing/route.hpp
--                  and include/engine.hpp: `Task`, `Event`, `RouteDescriptor`, `schedule_event`
-- UnorderedMap     what the source uses of `std::unordered_map`
-- Routing          include/routing/table.hpp: `Route`, `RoutingTable`; Routing/Reader the
--                  `RoutingTableReader`, Routing/Stoul the `std::stoul` that it calls
-- Workload         include/workload/workload.hpp: `ConstantWorkload`, `UniformRandomWorkload`
-- Scheduler        include/scheduler/round_robin.hpp and src/scheduler/round_robin.cpp: `schedule`,
--                  `addResource`, `onInit`, `onCompletedTask`; Scheduler/Interface the class of
--                  include/scheduler/scheduler.hpp from which it derives, and a client's calls
-- Service/Link, Switch, Machine, Master
--                  the classes of include/service with their `onTaskArrival` of src/service;
--                  Service/Queueing the arithmetic that they write alike
-- Simulator        include/simulator/simulator.hpp and src/simulator/rootsim.cpp: the registry and
--                  the dispatcher; Simulator/SimulatorBuilder with src/simulator/simulator.cpp
-- Model            include/model/builder.hpp and src/model/builder.cpp: the `register` functions and
--                  the generators of the namespaces `zeroth` and `exp`
-- Network          all services together: a step delivers any one of the pending events;
--                  Network/Placement the lines of links and services between a master and a slave
--                  that topology and routing table agree on; Network/Launch, Home and Effect what a
--                  delivery at a master and elsewhere does; Network/Accounts where the tasks of a
--                  master are; Network/Cost how many deliveries are left; Network/Loop the loop that
--                  picks one pending message after the other; Network/Commute deliveries in either
--                  order; Network/Load the tasks that are processed and those that wait for a slave;
--                  Network/InTime the free cores; Network/Finish the end of a simulation within
--                  finite times; Network/Simulate `simulate` from `LP_INIT` to `LP_FINI`;
--                  Network/Unset and Unended a master without a workload; Network/Example a network
--                  that is run
-- TestProgram      what the programs of test have in common: the loops, the reading of the route
--                  files, the registrations, and the simulation from its start to its end
-- TopologyLinear, TopologyStar, TopologyRing, TopologyStarSwitched
--                  test/topology_linear, topology_star, topology_ring and topology_star_switched, each
--                  its main.cpp: the route file that it writes and reads, what it registers, and its
--                  simulation to the end
-- TopologyTree     test/topology_tree/main.cpp: what it registers, and that its simulation has no end
--
-- A function of the source keeps its name in snake case. A handler takes the service and returns it
-- with the events that it schedules, in the order of the calls of `schedule_event`. Members of
-- services, the random number generator and the routing table are passed explicitly. A read out of
-- bounds, of a null or indeterminate pointer or of a variable that was never assigned, and signed
-- overflow, are the error `undefined_behaviour`.
--
-- Bounds. Identifiers are numbers; they are narrowed to 32 bits where the source narrows them, in
-- `szudzik` and in the reader. Offsets and `std::size_t` wrap at 2^64, `unsigned` counters at 2^32.
-- The machine's `int` counter stops at its largest value, and a machine has no negative number of
-- cores. A workload's task amount is an integer. All loops of the source run over lists or over a
-- number of rounds that it fixes beforehand, so they need no fuel. The loop of the simulation
-- (`RootsimRun`, Network/Loop) has fuel: with routes of at most `longest + 1` elements,
-- `4 * (longest + 1)` deliveries for each task that a master has left and one more than that for each
-- message that is pending at the beginning are enough.
--
-- Parameters. `Double` and its order laws (IsOrdered: they hold of IEEE 754 and ask nothing of NaN);
-- ROOT-Sim's `Random()`, and its order of deliveries, which is any; the draws of the
-- exponential distribution and the literal 1e-52. The block that `rs_malloc` returns for the free times
-- of a machine's cores is `memory`: where it is `none` nothing has been written, and a read is
-- undefined behaviour; no theorem assumes anything of it. Rollbacks, checkpoints and the GVT belong to
-- ROOT-Sim.
--
-- Not modelled: the messages of `die`, debugging macros, main.cpp, which prints
-- a notice, TCLAP and ROOT-Sim. The programs of test take the values of their arguments, and their
-- numbers of machines are those whose identifiers fit into 32 bits. Networks with masters as slaves of
-- masters, as in test/topology_tree, are run, but the theorems on consistent networks leave them out.
pub mod Base
pub mod Double
pub mod Distribution
pub mod Szudzik
pub mod Customer
pub mod UnorderedMap
pub mod Routing
pub mod Workload
pub mod Scheduler
pub mod Service
pub mod Simulator
pub mod Model
pub mod Network
pub mod TestProgram
pub mod TopologyLinear
pub mod TopologyStar
pub mod TopologyRing
pub mod TopologyStarSwitched
pub mod TopologyTree
