-- ===== src/TopologyLinear/SetUp.antt =====
-- What test/topology_linear/main.cpp registers, and the table that it reads.
use ispd_exa_engine.Base.{
  Option, ℕ, ◌+◌, ◌-◌, ◌*◌, ◌/◌, ◌≤◌, ◌<◌, ◌≡◌, ◌∙◌, refl, ap, subst, some, ok, arith, inl, inr,
  false, true, u32_mod,
}
use ispd_exa_engine.Double.{Double}
use ispd_exa_engine.UnorderedMap.{find}
use ispd_exa_engine.Simulator.{Simulator}
use ispd_exa_engine.Model.{is_out_of_unit}
use ispd_exa_engine.Routing.{RoutingTable}
use ispd_exa_engine.Routing.Reader.{read}
use ispd_exa_engine.Network.Placement.{at_link, at_machine}
use ispd_exa_engine.Network.Routes.{AreShort}
use ispd_exa_engine.TestProgram.ToString.{to_string}
use ispd_exa_engine.TestProgram.RouteFile.{
  Fits, length-ids_from, ids_from-fit, line_of-link_loop, route_loop-file_of, odd_or_even,
}
use ispd_exa_engine.TestProgram.Table.{
  HasRoutes, test_table, test_table-AreShort, test_table-HasRoutes, read-test_table,
}
use ispd_exa_engine.TestProgram.Registration.{
  test_machine, test_link, every_other-RegistersAll, register_test_machine-Registers,
  register_test_link-Registers,
}
use ispd_exa_engine.TestProgram.Finalizers.{two_finalizers-Print}
use ispd_exa_engine.TestProgram.Boss.{has_boss}
use ispd_exa_engine.TestProgram.Memory.{new_machine-HasFreeCore}
use ispd_exa_engine.TestProgram.Start.{IsSetUp, IsIdle}
use ispd_exa_engine.TestProgram.{register_test_machine, link_loop}
use ispd_exa_engine.TopologyLinear.{
  linear_simulator, register_linear_link, create_linear_topology_routing,
}
use ispd_exa_engine.TopologyLinear.Places.{
  linear_place, links_before, machine_at, link_at, nothing_at, master_at, linear_line,
}

abbrev pub linear_table : ℕ → RoutingTable
linear_table machines = test_table links_before true 2 machines

links_before-Fits :
    (machines i : ℕ)
    → 2 * machines + 2 < u32_mod
    → i < machines
    → Fits links_before true (2 + 2 * i)
links_before-Fits machines i small lt =
    (omega (arith, small), ids_from-fit ((2 + 2 * i) / 2) 1 (omega (arith, small)))

pub linear_table-AreShort : (machines : ℕ) → AreShort machines (linear_table machines)
linear_table-AreShort machines =
    test_table-AreShort links_before true machines 2 machines
      (λ i lt. omega (arith, length-ids_from ((2 + 2 * i) / 2) 1))

pub linear_table-HasRoutes :
    (machines : ℕ)
    → 2 * machines + 2 < u32_mod
    → HasRoutes links_before 2 machines (linear_table machines)
linear_table-HasRoutes machines small =
    test_table-HasRoutes links_before true 2 machines
      (λ i lt. links_before-Fits machines i small lt)

-- What the program has written it reads without an error.
pub read-create_linear :
    (machines : ℕ)
    → 2 * machines + 2 < u32_mod
    → read (some (create_linear_topology_routing machines)) ≡ ok (linear_table machines)
unfolding create_linear_topology_routing
read-create_linear machines small =
    read-test_table links_before true (create_linear_topology_routing machines) 2 machines
      (λ i lt. links_before-Fits machines i small lt)
      (route_loop-file_of links_before true (λ id. link_loop (id / 2) 1) machines 2
        (λ i lt. line_of-link_loop (to_string (2 + 2 * i)) ((2 + 2 * i) / 2) 1))

module _ {D : Type 0} ⦃d : Double D⦄ (memory : ℕ → Option D) (tasks machines : ℕ) where
  pub linear_simulator-IsSetUp :
      d.le (d.of_nat 2) d.nought ≡ false
      → is_out_of_unit d.nought ≡ false
      → 1 ≤ machines
      → 2 * machines + 2 < u32_mod
      → (sim : Simulator D) × (linear_simulator memory tasks machines ≡ ok sim)
        × IsSetUp memory
            (linear_place machines)
            (linear_table machines)
            sim
            2
            tasks
            machines
            (2 * machines)
  unfolding linear_simulator
  linear_simulator-IsSetUp strong inside positive small =
      let b = has_boss D 2 tasks machines in
      let ms =
        every_other-RegistersAll (register_test_machine memory) (test_machine memory)
          (register_test_machine-Registers memory strong inside) machines 2 b.sim
          (λ i lt. b.alone (2 + 2 * i) (omega arith)) in
      let ls =
        every_other-RegistersAll register_linear_link (λ id. test_link (id - 1) (id + 1) id)
          (λ id sim. register_test_link-Registers inside (id - 1) (id + 1) id sim) machines 1
          ms.after
          (λ i lt.
            ms.keeps (1 + 2 * i) (λ j less. omega arith) ∙ b.alone (1 + 2 * i) (omega arith)) in
      let (p, q) = two_finalizers-Print ls.after 0 2 (ls.same ∙ ms.same ∙ b.same) (omega arith) in
      let kept = q.kept ∙ p.kept in
      (
        q.after,
        rw (b.ran, ms.ran, ls.ran, p.ran) q.ran,
        record {
          positive = positive;
          size = rw kept (omega (arith, b.size, ms.size, ls.size));
          printers = q.printers;
          at_boss =
              ap (find 0) kept
              ∙ ls.keeps 0 (λ i lt. omega arith)
              ∙ ms.keeps 0 (λ i lt. omega arith)
              ∙ b.found;
          place = refl;
          only = master_at machines;
          beyond = nothing_at machines;
          lines =
              linear_line machines (linear_table machines) (omega (arith, small))
                (linear_table-HasRoutes machines small);
          idle = λ id other lt. elim (odd_or_even id) [
            | inl (i, odd) ↦ subst (IsIdle memory (linear_place machines) q.after) odd (record {
              service = _;
              registered = ap (find (1 + 2 * i)) kept ∙ ls.finds i (omega arith);
              stands = at_link _ (link_at machines i (omega arith)) refl refl;
              idle = refl;
              free = λ cores. tt;
            })
            | inr (inl (i, even)) ↦
                subst (IsIdle memory (linear_place machines) q.after) even (record {
                  service = _;
                  registered =
                      ap (find (2 + 2 * i)) kept
                      ∙ ls.keeps (2 + 2 * i) (λ j less. omega arith)
                      ∙ ms.finds i (omega arith);
                  stands = at_machine _ (machine_at machines i (omega arith)) refl refl;
                  idle = refl;
                  free = new_machine-HasFreeCore memory (2 + 2 * i) (d.of_nat 2) d.nought;
                })
            | inr (inr is_zero) ↦ absurd (other is_zero)
          ];
        },
      )
