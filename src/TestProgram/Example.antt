-- ===== src/TestProgram/Example.antt =====
-- The command line of the tests, and what they observe at the end of a simulation.
use ispd_exa_engine.Base.{ℕ, List, [], ◌∷◌, none, some, ok, err, Result, Option, length, false}
use ispd_exa_engine.Double.{Ticks}
use ispd_exa_engine.Network.{Network}
use ispd_exa_engine.Network.Accounts.{left_at, completed_at}
use ispd_exa_engine.TestProgram.{Arguments}

-- Three tasks.
abbrev pub arguments : ℕ → Arguments
arguments machines = record {
  cores = 0;
  gvt_period = 1000;
  ckpt_interval = 0;
  machines = machines;
  tasks = 3;
  serial = false;
  core_binding = false;
}

-- The tasks that the master has left and has counted, and the messages that are pending.
abbrev pub ends_with : Result (Option (Network Ticks (Unit {0}))) → List ℕ
ends_with (ok (some net)) =
    left_at (net.services 0) ∷ completed_at (net.services 0) ∷ length net.pending ∷ []
ends_with (ok none) = []
ends_with (err e) = []
