-- ===== src/TopologyStarSwitched/SetUp.antt =====
-- What test/topology_star_switched/main.cpp registers, and the table that it reads.
use mathlib.Core.List.{append-nil}
use ispd_exa_engine.Base.{
  Option, ℕ, suc, ◌+◌, ◌-◌, ◌*◌, ◌≤◌, ◌<◌, ◌≡◌, ◌≢◌, ◌∙◌, refl, sym, ap, subst, [], ◌∷◌, ◌++◌, some,
  none, ok, arith, inl, inr, false, u32_mod, ==-false,
}
use ispd_exa_engine.Double.{Double}
use ispd_exa_engine.UnorderedMap.{find}
use ispd_exa_engine.Service.Switch.{new_switch}
use ispd_exa_engine.Simulator.{Simulator, switch, ServiceInitializer}
use ispd_exa_engine.Model.{is_out_of_unit, register_switch}
use ispd_exa_engine.Routing.{RoutingTable}
use ispd_exa_engine.Routing.Reader.{read}
use ispd_exa_engine.Routing.Reader.RoundTrip.{line_of}
use ispd_exa_engine.Network.Placement.{at_link, at_machine, at_switch}
use ispd_exa_engine.Network.Routes.{AreShort}
use ispd_exa_engine.TestProgram.ToString.{to_string}
use ispd_exa_engine.TestProgram.RouteFile.{Fits, IsLine, route_loop-file_of}
use ispd_exa_engine.TestProgram.Table.{
  test_table, test_table-AreShort, test_table-HasRoutes, read-test_table,
}
use ispd_exa_engine.TestProgram.Registration.{
  Registers, register_service-Registers, test_machine, test_link, register_test_link-Registers,
}
use ispd_exa_engine.TestProgram.Pairs.{every_other-RegistersPairs, machine_and_link-RegistersPair}
use ispd_exa_engine.TestProgram.Finalizers.{two_finalizers-Print, register_service_finalizer-Prints}
use ispd_exa_engine.TestProgram.Boss.{has_boss}
use ispd_exa_engine.TestProgram.Memory.{new_machine-HasFreeCore}
use ispd_exa_engine.TestProgram.Start.{IsSetUp, IsIdle}
use ispd_exa_engine.TopologyStarSwitched.{
  star_switched_simulator, register_switched_pair, create_star_switched_topology_routing,
}
use ispd_exa_engine.TopologyStarSwitched.Places.{
  switched_place, both_links, machine_at, link_at, switch_at, first_at, nothing_at, master_at,
  switched_cases, switched_line,
}

abbrev pub switched_table : ℕ → RoutingTable
switched_table machines = test_table both_links false 4 machines

both_links-Fits :
    (machines i : ℕ) → 2 * machines + 4 < u32_mod → i < machines → Fits both_links false (4 + 2 * i)
both_links-Fits machines i small lt =
    (omega (arith, small), (omega arith, (omega (arith, small), tt)))

pub switched_table-AreShort : (machines : ℕ) → AreShort 2 (switched_table machines)
switched_table-AreShort machines =
    test_table-AreShort both_links false 2 4 machines (λ i lt. omega arith)

both_links-IsLine : (id : ℕ) → IsLine both_links false (λ id. b'1' ∷ b' ' ∷ to_string (id - 1)) id
unfolding line_of to_string
both_links-IsLine id = append-nil (to_string id ++ b' ' ∷ b'1' ∷ b' ' ∷ to_string (id - 1))

-- What the program has written it reads without an error.
pub read-create_star_switched :
    (machines : ℕ)
    → 2 * machines + 4 < u32_mod
    → read (some (create_star_switched_topology_routing machines)) ≡ ok (switched_table machines)
unfolding create_star_switched_topology_routing
read-create_star_switched machines small =
    read-test_table both_links false (create_star_switched_topology_routing machines) 4 machines
      (λ i lt. both_links-Fits machines i small lt)
      (route_loop-file_of both_links false (λ id. b'1' ∷ b' ' ∷ to_string (id - 1)) machines 4
        (λ i lt. both_links-IsLine (4 + 2 * i)))

module _ {D : Type 0} ⦃d : Double D⦄ (memory : ℕ → Option D) (tasks machines : ℕ) where
  abbrev switch_here : ServiceInitializer D
  switch_here = ok (switch (new_switch 2 (d.of_nat 100) d.nought d.nought), [])

  register_switch-Registers :
      is_out_of_unit d.nought ≡ false
      → (sim : Simulator D) → find 2 sim.service_initializers ≡ none
      → Registers sim 2 switch_here (register_switch sim 2 (d.of_nat 100) d.nought d.nought)
  unfolding register_switch
  register_switch-Registers inside sim fresh = rw inside (register_service-Registers sim 2 _ fresh)

  -- The initializers of all services but the master.
  record HasStar (sim : Simulator D) : Type 0 where
    at_machines :
        (i : ℕ)
        → i < machines
        → find (4 + 2 * i) sim.service_initializers ≡ some (test_machine memory (4 + 2 * i))
    at_links :
        (i : ℕ)
        → i < machines
        → find (3 + 2 * i) sim.service_initializers ≡ some (test_link 2 (3 + 2 * i + 1) (3 + 2 * i))
    at_two : find 2 sim.service_initializers ≡ some switch_here
    at_one : find 1 sim.service_initializers ≡ some (test_link 0 2 1)

  HasStar-IsIdle :
      (sim : Simulator D)
      → HasStar sim
      → (id : ℕ) → id ≢ 0
      → id < suc (2 * machines + 2)
      → IsIdle memory (switched_place machines) sim id
  HasStar-IsIdle sim h id other lt = elim (switched_cases machines id lt) [
    | inl one ↦ subst (IsIdle memory (switched_place machines) sim) (sym one) (record {
      service = _;
      registered = h.at_one;
      stands = at_link _ (first_at machines) refl refl;
      idle = refl;
      free = λ cores. tt;
    })
    | inr (inl two) ↦ subst (IsIdle memory (switched_place machines) sim) (sym two) (record {
      service = _;
      registered = h.at_two;
      stands = at_switch _ (switch_at machines) refl refl;
      idle = refl;
      free = λ cores. tt;
    })
    | inr (inr (inl (i, less, odd))) ↦
        subst (IsIdle memory (switched_place machines) sim) odd (record {
          service = _;
          registered = h.at_links i less;
          stands = at_link _ (link_at machines i less) refl refl;
          idle = refl;
          free = λ cores. tt;
        })
    | inr (inr (inr (inl (i, less, even)))) ↦
        subst (IsIdle memory (switched_place machines) sim) even (record {
          service = _;
          registered = h.at_machines i less;
          stands = at_machine _ (machine_at machines i less) refl refl;
          idle = refl;
          free = new_machine-HasFreeCore memory (4 + 2 * i) (d.of_nat 2) d.nought;
        })
    | inr (inr (inr (inr is_zero))) ↦ absurd (other is_zero)
  ]

  pub star_switched_simulator-IsSetUp :
      d.le (d.of_nat 2) d.nought ≡ false
      → is_out_of_unit d.nought ≡ false
      → 1 ≤ machines
      → 2 * machines + 4 < u32_mod
      → (sim : Simulator D) × (star_switched_simulator memory tasks machines ≡ ok sim)
        × IsSetUp memory
            (switched_place machines)
            (switched_table machines)
            sim
            4
            tasks
            machines
            (2 * machines + 2)
  unfolding star_switched_simulator register_switched_pair find
  star_switched_simulator-IsSetUp strong inside positive small =
      let b = has_boss D 4 tasks machines in
      let ps =
        every_other-RegistersPairs (register_switched_pair memory) (test_machine memory)
          (λ id. test_link 2 id (id - 1))
          (machine_and_link-RegistersPair memory strong inside (λ id. 2) (λ id. id)) machines 4
          b.sim (omega arith) (λ j h. b.alone j (omega (arith, h))) in
      let low : (j : ℕ)
          → j < 3
          → find j ps.after.service_initializers ≡ find j b.sim.service_initializers =
        λ j lt. ps.keeps j (λ i less. (λ e. omega (arith, e, lt), λ e. omega (arith, e, lt))) in
      let w =
        register_switch-Registers inside ps.after (low 2 (omega arith) ∙ b.alone 2 (omega arith)) in
      let l =
        register_test_link-Registers inside 0 2 1 w.after
          (w.finds 1 ∙ low 1 (omega arith) ∙ b.alone 1 (omega arith)) in
      let kept_by : (j : ℕ)
          → 1 ≢ j
          → 2 ≢ j
          → find j l.after.service_initializers ≡ find j ps.after.service_initializers =
        λ j ne ne'. l.finds j ∙ rw (==-false 1 j ne, w.finds j, ==-false 2 j ne') refl in
      let (p, q) =
        two_finalizers-Print l.after 0 2 (l.same ∙ w.same ∙ ps.same ∙ b.same) (omega arith) in
      let t =
        register_service_finalizer-Prints q.after 4
          (q.others 4 (omega arith)
            ∙ p.others 4 (omega arith)
            ∙ ap (find 4) (l.same ∙ w.same ∙ ps.same ∙ b.same))
          q.printers in
      let kept = t.kept ∙ q.kept ∙ p.kept in
      (
        t.after,
        rw (b.ran, ps.ran, w.ran, l.ran, p.ran, q.ran) t.ran,
        record {
          positive = positive;
          size = rw kept (omega (arith, b.size, ps.size, w.size, l.size));
          printers = t.printers;
          at_boss =
              ap (find 0) kept
              ∙ kept_by 0 (omega arith) (omega arith)
              ∙ low 0 (omega arith)
              ∙ b.found;
          place = refl;
          only = master_at machines;
          beyond = nothing_at machines;
          lines = switched_line machines (switched_table machines) (
              test_table-HasRoutes both_links false 4 machines
                (λ i lt. both_links-Fits machines i small lt));
          idle = HasStar-IsIdle t.after (record {
            at_machines = λ i lt.
                ap (find (4 + 2 * i)) kept
                ∙ kept_by (4 + 2 * i) (omega arith) (omega arith)
                ∙ ps.finds i lt;
            at_links = λ i lt.
                let before : 4 + 2 * i - 1 ≡ 3 + 2 * i = omega arith in
                let to : 4 + 2 * i ≡ 3 + 2 * i + 1 = omega arith in
                ap (find (3 + 2 * i)) kept
                ∙ kept_by (3 + 2 * i) (omega arith) (omega arith)
                ∙ subst
                    (λ j. find j ps.after.service_initializers ≡ some (test_link 2 (4 + 2 * i) j))
                    before (ps.finds_before i lt)
                ∙ ap (λ j. some (test_link 2 j (3 + 2 * i))) to;
            at_two = ap (find 2) kept ∙ l.finds 2 ∙ w.finds 2;
            at_one = ap (find 1) kept ∙ l.finds 1;
          });
        },
      )
