-- ===== src/Simulator/SimulatorBuilder.antt =====
-- include/simulator/simulator.hpp (`SimulatorBuilder`) and src/simulator/simulator.cpp.
use ispd_exa_engine.Base.{ℕ, Bool, true, false, ◌≡◌, refl, Result, ok, err, died}

pub data SimulationMode : Type 0 where
  sequential optimistic conservative : SimulationMode

pub data SimulatorType : Type 0 where
  rootsim : SimulatorType

pub record SimulatorBuilder : Type 0 where
  pub type : SimulatorType
  pub mode : SimulationMode
  pub cores : ℕ
  pub checkpoint_interval : ℕ
  pub batch_size : ℕ
  pub core_binding : Bool
  pub gvt_period : ℕ

-- The fields of `struct simulation_configuration` that `createSimulator` computes; the log level
-- and the name of the statistics file are constants.
pub record Configuration : Type 0 where
  pub n_threads : ℕ
  pub termination_time : ℕ
  pub gvt_period : ℕ
  pub ckpt_interval : ℕ
  pub prng_seed : ℕ
  pub core_binding : Bool
  pub serial : Bool

abbrev pub new_builder : SimulatorType → SimulationMode → SimulatorBuilder
new_builder type mode = record {
  type = type;
  mode = mode;
  cores = 0;
  checkpoint_interval = 0;
  batch_size = 64;
  core_binding = false;
  gvt_period = 1000;
}

abbrev is_sequential : SimulationMode → Bool
is_sequential sequential = true
is_sequential optimistic = false
is_sequential conservative = false

abbrev threads : SimulationMode → ℕ → ℕ
threads sequential cores = 1
threads optimistic cores = cores
threads conservative cores = cores

unfoldable pub set_threads : SimulatorBuilder → ℕ → SimulatorBuilder
set_threads b cores = record b { cores = threads b.mode cores }

unfoldable pub set_checkpoint_interval : SimulatorBuilder → ℕ → SimulatorBuilder
set_checkpoint_interval b interval = record b { checkpoint_interval = interval }

unfoldable pub set_core_binding : SimulatorBuilder → Bool → SimulatorBuilder
set_core_binding b core_binding = record b { core_binding = core_binding }

unfoldable pub set_gvt_period : SimulatorBuilder → ℕ → SimulatorBuilder
set_gvt_period b period = record b { gvt_period = period }

configuration : SimulatorBuilder → Configuration
configuration b = record {
  n_threads = b.cores;
  termination_time = 0;
  gvt_period = b.gvt_period;
  ckpt_interval = b.checkpoint_interval;
  prng_seed = 0;
  core_binding = b.core_binding;
  serial = is_sequential b.mode;
}

create_rootsim : SimulationMode → SimulatorBuilder → Result Configuration
unfolding configuration
create_rootsim conservative b = err died
create_rootsim sequential b = ok (configuration b)
create_rootsim optimistic b = ok (configuration b)

create : SimulatorType → SimulatorBuilder → Result Configuration
unfolding create_rootsim
create rootsim b = create_rootsim b.mode b

-- The configuration of the simulator that is created.
unfoldable pub create_simulator : SimulatorBuilder → Result Configuration
unfolding create
create_simulator b = create b.type b

abbrev pub apply_all : SimulatorBuilder → ℕ → ℕ → Bool → ℕ → SimulatorBuilder
apply_all b cores period binding interval =
    set_checkpoint_interval (set_core_binding (set_gvt_period (set_threads b cores) period) binding)
      interval

-- What comes of the calls in the order of the test programs, by the mode.
abbrev pub Configures :
    SimulationMode
    → (cores period : ℕ) (binding : Bool) (interval : ℕ) → Result Configuration
    → Type 0
Configures conservative cores period binding interval res = res ≡ err died
Configures sequential cores period binding interval res =
    res
    ≡ ok (record {
      n_threads = 1;
      termination_time = 0;
      gvt_period = period;
      ckpt_interval = interval;
      prng_seed = 0;
      core_binding = binding;
      serial = true;
    })
Configures optimistic cores period binding interval res =
    res
    ≡ ok (record {
      n_threads = cores;
      termination_time = 0;
      gvt_period = period;
      ckpt_interval = interval;
      prng_seed = 0;
      core_binding = binding;
      serial = false;
    })

-- A builder with all four settings creates a simulator with just these in the sequential and the
-- optimistic mode, but with one thread in the sequential mode, and stops the program in the
-- conservative mode.
pub create_simulator-Configures :
    (mode : SimulationMode) (cores period : ℕ) (binding : Bool) (interval : ℕ)
    → Configures mode cores period binding interval
        (create_simulator (apply_all (new_builder rootsim mode) cores period binding interval))
unfolding create_simulator set_threads set_checkpoint_interval set_core_binding set_gvt_period
create_simulator-Configures sequential cores period binding interval = refl
create_simulator-Configures optimistic cores period binding interval = refl
create_simulator-Configures conservative cores period binding interval = refl
