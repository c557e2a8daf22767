-- ===== src/TopologyStar/SetUp.antt =====
-- What test/topology_star/main.cpp registers, and the table that it reads.
use mathlib.Core.List.{append-nil}
use ispd_exa_engine.Base.{
  Option, ℕ, ◌+◌, ◌-◌, ◌*◌, ◌≤◌, ◌<◌, ◌≡◌, ◌∙◌, refl, ap, subst, ◌∷◌, ◌++◌, some, ok, arith, inl,
  inr, false, u32_mod,
}
use ispd_exa_engine.Double.{Double}
use ispd_exa_engine.UnorderedMap.{find}
use ispd_exa_engine.Simulator.{Simulator}
use ispd_exa_engine.Model.{is_out_of_unit}
use ispd_exa_engine.Routing.{RoutingTable}
use ispd_exa_engine.Routing.Reader.{read}
use ispd_exa_engine.Routing.Reader.RoundTrip.{line_of}
use ispd_exa_engine.Network.Placement.{at_link, at_machine}
use ispd_exa_engine.Network.Routes.{AreShort}
use ispd_exa_engine.TestProgram.ToString.{to_string}
use ispd_exa_engine.TestProgram.RouteFile.{Fits, IsLine, route_loop-file_of, odd_or_even}
use ispd_exa_engine.TestProgram.Table.{
  test_table, test_table-AreShort, test_table-HasRoutes, read-test_table,
}
use ispd_exa_engine.TestProgram.Registration.{test_machine, test_link}
use ispd_exa_engine.TestProgram.Pairs.{every_other-RegistersPairs, machine_and_link-RegistersPair}
use ispd_exa_engine.TestProgram.Finalizers.{two_finalizers-Print}
use ispd_exa_engine.TestProgram.Boss.{has_boss}
use ispd_exa_engine.TestProgram.Memory.{new_machine-HasFreeCore}
use ispd_exa_engine.TestProgram.Start.{IsSetUp, IsIdle}
use ispd_exa_engine.TopologyStar.{star_simulator, register_star_pair, create_star_topology_routing}
use ispd_exa_engine.TopologyStar.Places.{
  star_place, own_link, machine_at, link_at, nothing_at, master_at, star_line,
}

abbrev pub star_table : ℕ → RoutingTable
star_table machines = test_table own_link false 2 machines

own_link-Fits :
    (machines i : ℕ) → 2 * machines + 2 < u32_mod → i < machines → Fits own_link false (2 + 2 * i)
own_link-Fits machines i small lt = (omega (arith, small), (omega (arith, small), tt))

pub star_table-AreShort : (machines : ℕ) → AreShort 1 (star_table machines)
star_table-AreShort machines = test_table-AreShort own_link false 1 2 machines (λ i lt. omega arith)

own_link-IsLine : (id : ℕ) → IsLine own_link false (λ id. to_string (id - 1)) id
unfolding line_of
own_link-IsLine id = append-nil (to_string id ++ b' ' ∷ to_string (id - 1))

-- What the program has written it reads without an error.
pub read-create_star :
    (machines : ℕ)
    → 2 * machines + 2 < u32_mod
    → read (some (create_star_topology_routing machines)) ≡ ok (star_table machines)
unfolding create_star_topology_routing
read-create_star machines small =
    read-test_table own_link false (create_star_topology_routing machines) 2 machines
      (λ i lt. own_link-Fits machines i small lt)
      (route_loop-file_of own_link false (λ id. to_string (id - 1)) machines 2
        (λ i lt. own_link-IsLine (2 + 2 * i)))

module _ {D : Type 0} ⦃d : Double D⦄ (memory : ℕ → Option D) (tasks machines : ℕ) where
  pub star_simulator-IsSetUp :
      d.le (d.of_nat 2) d.nought ≡ false
      → is_out_of_unit d.nought ≡ false
      → 1 ≤ machines
      → 2 * machines + 2 < u32_mod
      → (sim : Simulator D) × (star_simulator memory tasks machines ≡ ok sim)
        × IsSetUp memory
            (star_place machines)
            (star_table machines)
            sim
            2
            tasks
            machines
            (2 * machines)
  unfolding star_simulator register_star_pair
  star_simulator-IsSetUp strong inside positive small =
      let b = has_boss D 2 tasks machines in
      let ps =
        every_other-RegistersPairs (register_star_pair memory) (test_machine memory)
          (λ id. test_link 0 id (id - 1))
          (machine_and_link-RegistersPair memory strong inside (λ id. 0) (λ id. id)) machines 2
          b.sim (omega arith) (λ j h. b.alone j (omega (arith, h))) in
      let (p, q) = two_finalizers-Print ps.after 0 2 (ps.same ∙ b.same) (omega arith) in
      let kept = q.kept ∙ p.kept in
      (
        q.after,
        rw (b.ran, ps.ran, p.ran) q.ran,
        record {
          positive = positive;
          size = rw kept (omega (arith, b.size, ps.size));
          printers = q.printers;
          at_boss =
              ap (find 0) kept
              ∙ ps.keeps 0 (λ i lt. (λ e. omega (arith, e), λ e. omega (arith, e)))
              ∙ b.found;
          place = refl;
          only = master_at machines;
          beyond = nothing_at machines;
          lines = star_line machines (star_table machines) (
              test_table-HasRoutes own_link false 2 machines
                (λ i lt. own_link-Fits machines i small lt));
          idle = λ id other lt. elim (odd_or_even id) [
            | inl (i, odd) ↦ subst (IsIdle memory (star_place machines) q.after) odd (
                let before : 2 + 2 * i - 1 ≡ 1 + 2 * i = omega arith in
                let here : 2 + 2 * i ≡ 1 + 2 * i + 1 = omega arith in
                record {
                  service = _;
                  registered =
                      ap (find (1 + 2 * i)) kept
                      ∙ subst
                          (λ j.
                            find j ps.after.service_initializers ≡ some (test_link 0 (2 + 2 * i) j))
                          before (ps.finds_before i (omega arith))
                      ∙ ap (λ j. some (test_link 0 j (1 + 2 * i))) here;
                  stands = at_link _ (link_at machines i (omega arith)) refl refl;
                  idle = refl;
                  free = λ cores. tt;
                })
            | inr (inl (i, even)) ↦
                subst (IsIdle memory (star_place machines) q.after) even (record {
                  service = _;
                  registered = ap (find (2 + 2 * i)) kept ∙ ps.finds i (omega arith);
                  stands = at_machine _ (machine_at machines i (omega arith)) refl refl;
                  idle = refl;
                  free = new_machine-HasFreeCore memory (2 + 2 * i) (d.of_nat 2) d.nought;
                })
            | inr (inr is_zero) ↦ absurd (other is_zero)
          ];
        },
      )
