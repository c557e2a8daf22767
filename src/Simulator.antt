-- ===== src/Simulator.antt =====
-- include/simulator/simulator.hpp (`Simulator`) and the dispatcher of src/simulator/rootsim.cpp.
pub mod SimulatorBuilder
pub mod Registry
pub mod Causality
pub mod Tests
use ispd_exa_engine.Base.{
  ℕ, Bool, true, false, List, [], ◌∷◌, if◌then◌else◌, ◌==◌, Option, none, some, not, length, Result,
  ok, err, ◌>>=◌, ◌>>◌, stop_if, or_fail, died, undefined_behaviour,
}
use ispd_exa_engine.Double.{Double}
use ispd_exa_engine.Customer.{Event, Message, task_arrival, task_scheduler_init, lp_init, lp_fini}
use ispd_exa_engine.UnorderedMap.{UnorderedMap, find, insert, at}
use ispd_exa_engine.Routing.{RoutingTable}
use ispd_exa_engine.Service.Link.{Link}
use ispd_exa_engine.Service.Link
use ispd_exa_engine.Service.Switch.{Switch}
use ispd_exa_engine.Service.Switch
use ispd_exa_engine.Service.Machine.{Machine}
use ispd_exa_engine.Service.Machine
use ispd_exa_engine.Service.Master.{Master, Handled}
use ispd_exa_engine.Service.Master

-- The subclasses of `Service`; a dummy has only its identifier.
pub data Service (D : Type 0) : Type 0 where
  link : Link D → Service D
  switch : Switch D → Service D
  machine : Machine D → Service D
  master : Master D → Service D
  dummy : ℕ → Service D

-- What a service initializer or a handler leaves behind: the state of the logical process (a null
-- pointer before `SetState`), the random number generator and the scheduled events.
pub record Dispatched (D R : Type 0) : Type 0 where
  pub state : Option (Service D)
  pub rng : R
  pub sent : List (Message D)

-- `std::function<Service *()>`: it builds a service and may schedule events.
abbrev pub ServiceInitializer : Type 0 → Type 0
ServiceInitializer D = Result (Service D × List (Message D))

-- `std::function<void(Service *)>`
abbrev pub ServiceFinalizer : Type 0 → Type 0
ServiceFinalizer D = Service D → Result (Unit {0})

pub record Simulator (D : Type 0) : Type 0 where
  pub service_initializers : UnorderedMap (ServiceInitializer D)
  pub service_finalizers : UnorderedMap (ServiceFinalizer D)

module _ {D : Type 0} where
  abbrev pub get_id : Service D → ℕ
  get_id (link l) = l.id
  get_id (switch s) = s.id
  get_id (machine m) = m.id
  get_id (master m) = m.id
  get_id (dummy id) = id

  abbrev pub new_simulator : Simulator D
  new_simulator = record { service_initializers = []; service_finalizers = [] }

  unfoldable pub register_service : Simulator D → ℕ → ServiceInitializer D → Result (Simulator D)
  register_service sim id initializer = elim (find id sim.service_initializers) [
    | some old ↦ err died
    | none ↦
        ok (record sim { service_initializers = insert id initializer sim.service_initializers })
  ]

  unfoldable pub register_service_finalizer :
      Simulator D → ℕ → ServiceFinalizer D → Result (Simulator D)
  register_service_finalizer sim id finalizer = elim (find id sim.service_finalizers) [
    | some old ↦ err died
    | none ↦ ok (record sim { service_finalizers = insert id finalizer sim.service_finalizers })
  ]

module _ {D R : Type 0} ⦃d : Double D⦄ (random : R → D × R) (table : RoutingTable) where
  abbrev alone : R → (Service D × List (Message D)) → Dispatched D R
  alone r out = record { state = some out.0; rng = r; sent = out.1 }

  abbrev of_master : Handled D R → Dispatched D R
  of_master h = record { state = some (master h.master); rng = h.rng; sent = h.sent }

  -- `service->onTaskArrival(now, e)`
  unfoldable pub service_on_task_arrival : Service D → D → Event D → R → Result (Dispatched D R)
  service_on_task_arrival (link l) now e r =
      Link.on_task_arrival l now e >>= λ out. ok (alone r (link out.0, out.1))
  service_on_task_arrival (switch s) now e r =
      Switch.on_task_arrival table s now e >>= λ out. ok (alone r (switch out.0, out.1))
  service_on_task_arrival (machine m) now e r =
      Machine.on_task_arrival table m now e >>= λ out. ok (alone r (machine out.0, out.1))
  service_on_task_arrival (master m) now e r =
      Master.on_task_arrival random table m now e r >>= λ h. ok (of_master h)
  service_on_task_arrival (dummy id) now e r = ok (alone r (dummy id, []))

  -- `case LP_FINI`
  unfoldable pub on_fini : Simulator D → ℕ → Option (Service D) → R → Result (Dispatched D R)
  on_fini sim me s r = elim (find me sim.service_finalizers) [
    | none ↦ ok (record { state = s; rng = r; sent = [] })
    | some finalizer ↦ or_fail s undefined_behaviour >>= λ service.
        finalizer service >>= λ _. ok (record { state = s; rng = r; sent = [] })
  ]

  -- `case LP_INIT`
  unfoldable pub on_init : Simulator D → ℕ → R → Result (Dispatched D R)
  on_init sim me r = elim (find me sim.service_initializers) [
    | none ↦ err died
    | some initializer ↦
        initializer >>= λ out. stop_if (not (get_id out.0 == me)) died >> ok (alone r out)
  ]

  -- `case TASK_SCHEDULER_INIT`: the state is cast to a master.
  unfoldable pub on_scheduler_init : Option (Service D) → R → Result (Dispatched D R)
  on_scheduler_init (some (master m)) r =
      Master.on_scheduler_init random table m r >>= λ h. ok (of_master h)
  on_scheduler_init (some (link l)) r = err undefined_behaviour
  on_scheduler_init (some (switch s)) r = err undefined_behaviour
  on_scheduler_init (some (machine m)) r = err undefined_behaviour
  on_scheduler_init (some (dummy id)) r = err undefined_behaviour
  on_scheduler_init none r = err undefined_behaviour

  -- `case TASK_ARRIVAL`
  unfoldable pub on_arrival :
      Option (Service D) → D → Option (Event D) → R → Result (Dispatched D R)
  unfolding service_on_task_arrival
  on_arrival s now content r = or_fail s undefined_behaviour >>= λ service.
      or_fail content undefined_behaviour >>= λ e. service_on_task_arrival service now e r

  -- The dispatcher that `ROOTSimSimulator::simulate` installs.
  unfoldable pub dispatch :
      Simulator D → ℕ → D → ℕ → Option (Event D) → Option (Service D) → R → Result (Dispatched D R)
  unfolding on_fini on_init on_arrival on_scheduler_init
  dispatch sim me now event_type content s r =
      if event_type == lp_fini
      then on_fini sim me s r
      else if event_type == lp_init
      then on_init sim me r
      else if event_type == task_arrival
      then on_arrival s now content r
      else if event_type == task_scheduler_init
      then on_scheduler_init s r
      else err died
