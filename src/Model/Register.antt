-- ===== src/Model/Register.antt =====
-- src/model/builder.cpp: what the `register` functions refuse, and which service they build.
use ispd_exa_engine.Base.{
  Option, ℕ, ◌≡◌, refl, none, some, [], arith, Result, ok, err, died, true, false, ◌⊎◌, inl, inr,
  Bool-cases, ==-true, ◌∙◌,
}
use ispd_exa_engine.Double.{Double, ◌⊕◌, ◌⊖◌, ◌⊗◌, ◌⊘◌}
use ispd_exa_engine.UnorderedMap.{find, find-insert_self}
use ispd_exa_engine.Simulator.{
  Simulator, ServiceInitializer, register_service, switch, machine, link,
}
use ispd_exa_engine.Simulator.Registry.{register_service_cases}
use ispd_exa_engine.Service.Queueing.{time_to_communicate}
use ispd_exa_engine.Service.Switch.{Switch, new_switch}
use ispd_exa_engine.Service.Machine.{new_machine}
use ispd_exa_engine.Service.Link.{Link, new_link}
use ispd_exa_engine.Model.{is_out_of_unit, register_machine, register_link, register_switch}

module _ {D : Type 0} ⦃d : Double D⦄ where
  -- A switch that is registered with a bandwidth, a load factor and a latency is built with the last
  -- two exchanged: its transmission time for a packet is the load factor plus the time at a load of
  -- the latency.
  pub register_switch_exchanged :
      (sim sim' : Simulator D) (id : ℕ) (bandwidth load_factor latency comm_size : D)
      → register_switch sim id bandwidth load_factor latency ≡ ok sim'
      → (s : Switch D) × (find id sim'.service_initializers ≡ some (ok (switch s, [])))
        × (time_to_communicate s.latency s.load_factor s.bandwidth comm_size
            ≡ load_factor ⊕ comm_size ⊘ ((d.one ⊖ latency) ⊗ bandwidth))
  unfolding register_switch register_service time_to_communicate
  register_switch_exchanged sim sim' id bandwidth load_factor latency comm_size e = (
    new_switch id bandwidth load_factor latency,
    ground (
      arith,
      find-insert_self id (ok (switch (new_switch id bandwidth load_factor latency), []))
          sim.service_initializers,
    ),
    refl,
  )

  -- What comes of registering a machine.
  abbrev pub Registers :
      (ℕ → Option D) → Simulator D → ℕ → D → D → ℕ → Result (Simulator D) → Type 0
  Registers memory sim id power load_factor cores res =
      ((res ≡ err died)
        × ((d.le power d.nought ≡ true)
            ⊎ ((is_out_of_unit load_factor ≡ true)
                ⊎ ((old : ServiceInitializer D) × (find id sim.service_initializers ≡ some old)))))
      ⊎ ((sim' : Simulator D) × (res ≡ ok sim')
          × (d.le power d.nought ≡ false)
          × (is_out_of_unit load_factor ≡ false)
          × (find id sim.service_initializers ≡ none)
          × (find id sim'.service_initializers
              ≡ some (ok (machine (new_machine memory id power load_factor cores), []))))

  -- A machine is registered exactly if its power is not `<= 0.0`, its load factor is neither below 0
  -- nor above 1 and its identifier is new; its initializer then builds this machine. In any other case
  -- the program stops.
  pub register_machine_cases :
      (memory : ℕ → Option D) (sim : Simulator D) (id : ℕ) (power load_factor : D) (cores : ℕ)
      → Registers memory sim id power load_factor cores
          (register_machine memory sim id power load_factor cores)
  unfolding register_machine
  register_machine_cases memory sim id power load_factor cores =
      elim (Bool-cases (d.le power d.nought)) [
        | inl weak ↦ inl (rw (weak, register_machine), inl weak)
        | inr strong ↦ elim (Bool-cases (is_out_of_unit load_factor)) [
          | inl out ↦ inl (rw (strong, out, register_machine), inr (inl out))
          | inr inside ↦
              let m = machine (new_machine memory id power load_factor cores) in
              elim (register_service_cases sim id (ok (m, []))) [
                | inl (dies, old) ↦ inl (rw (strong, inside, register_machine) dies, inr (inr old))
                | inr (sim', run, fresh, found, _) ↦ inr (
                  sim',
                  rw (strong, inside, register_machine) run,
                  strong,
                  inside,
                  fresh,
                  found id ∙ rw (==-true id id refl),
                )
              ]
        ]
      ]

  -- A link is registered exactly if its load factor is neither below 0 nor above 1 and its identifier
  -- is new; its initializer then builds the link with these ends, bandwidth, load factor and latency.
  -- In any other case the program stops.
  pub register_link_cases :
      (sim : Simulator D) (id from to : ℕ) (bandwidth load_factor latency : D)
      → let res = register_link sim id from to bandwidth load_factor latency in
        ((res ≡ err died)
          × ((is_out_of_unit load_factor ≡ true)
              ⊎ ((old : ServiceInitializer D) × (find id sim.service_initializers ≡ some old))))
        ⊎ ((sim' : Simulator D) × (res ≡ ok sim')
            × (is_out_of_unit load_factor ≡ false)
            × (find id sim.service_initializers ≡ none)
            × (l : Link D) × (find id sim'.service_initializers ≡ some (ok (link l, [])))
            × (l.id ≡ id)
            × (l.from ≡ from)
            × (l.to ≡ to)
            × (l.bandwidth ≡ bandwidth)
            × (l.load_factor ≡ load_factor)
            × (l.latency ≡ latency))
  unfolding register_link
  register_link_cases sim id from to bandwidth load_factor latency =
      elim (Bool-cases (is_out_of_unit load_factor)) [
        | inl out ↦ inl (rw (out, register_link), inl out)
        | inr inside ↦
            let l = new_link id from to bandwidth load_factor latency in
            elim (register_service_cases sim id (ok (link l, []))) [
              | inl (dies, old) ↦ inl (rw (inside, register_link) dies, inr old)
              | inr (sim', run, fresh, found, _) ↦ inr (
                sim',
                rw (inside, register_link) run,
                inside,
                fresh,
                l,
                found id ∙ rw (==-true id id refl),
                refl,
                refl,
                refl,
                refl,
                refl,
                refl,
              )
            ]
      ]
