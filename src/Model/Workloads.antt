-- ===== src/Model/Workloads.antt =====
-- src/model/builder.cpp: the events that the workload generators send to a master.
use mathlib.Core.List.{Perm, perm_middle, append-nil}
use mathlib.Core.List.Perm
use ispd_exa_engine.Base.{
  ℕ, zero, suc, ◌+◌, ◌≡◌, refl, ap, sym, true, false, Bool, Bool-cases, inl, inr, List, [], ◌∷◌,
  ◌++◌, subst, map, All, length, arith,
}
use ispd_exa_engine.Double.{Double, IsOrdered, ◌⊕◌}
use ispd_exa_engine.Customer.{Message}
use ispd_exa_engine.Model.{
  generated, push, push_all, drain, exp_constant_sized_workload, zeroth_constant_sized_workload,
  zeroth_loop, jittered_loop,
}

module _ {D : Type 0} ⦃d : Double D⦄ where
  -- No element is below the one before it.
  abbrev pub IsSorted : List D → Type 0
  IsSorted [] = Unit {0}
  IsSorted (x ∷ []) = Unit {0}
  IsSorted (x ∷ y ∷ ys) = (d.lt y x ≡ false) × IsSorted (y ∷ ys)

  push-perm : (x : D) (xs : List D) → Perm (push x xs) (x ∷ xs)
  unfolding push
  push-perm x [] = Perm.refl (x ∷ [])
  push-perm x (y ∷ ys) = elim (Bool-cases (d.lt y x)) [
    | inl later ↦ rw later (Perm.trans (Perm.cons y (push-perm x ys)) (Perm.swap x y ys))
    | inr first ↦ rw first (Perm.refl (x ∷ y ∷ ys))
  ]

  push_all-perm : (xs queue : List D) → Perm (push_all xs queue) (xs ++ queue)
  unfolding push_all
  push_all-perm [] queue = Perm.refl queue
  push_all-perm (x ∷ xs) queue =
      Perm.trans (push_all-perm xs (push x queue))
        (Perm.trans (Perm.append (Perm.refl xs) (push-perm x queue)) (perm_middle xs queue))

  module _ (laws : IsOrdered D) where
    open laws use {lt_irrefl, lt_trans}

    lt_asym : (x y : D) → d.lt x y ≡ true → d.lt y x ≡ false
    lt_asym x y h = ground (arith, lt_trans x y x h, lt_irrefl x)

    push-IsSorted : (x : D) (xs : List D) → IsSorted xs → IsSorted (push x xs)
    unfolding push
    push-IsSorted x [] s = tt
    push-IsSorted x (y ∷ []) s = ground (arith, lt_asym y x)
    push-IsSorted x (y ∷ z ∷ zs) s = ground (arith, lt_asym y x, push-IsSorted x (z ∷ zs) s.1)

    push_all-IsSorted : (xs queue : List D) → IsSorted queue → IsSorted (push_all xs queue)
    unfolding push_all
    push_all-IsSorted [] queue s = s
    push_all-IsSorted (x ∷ xs) queue s =
        push_all-IsSorted xs (push x queue) (push-IsSorted x queue s)

  module _ (master_id : ℕ) (proc_size comm_size : D) where
    -- The messages carry the tasks numbered upwards from `i`, each at its time.
    abbrev pub IsNumbered : ℕ → List (Message D) → Type 0
    IsNumbered i [] = Unit {0}
    IsNumbered i (m ∷ ms) =
        (m ≡ generated master_id proc_size comm_size i m.time) × IsNumbered (i + 1) ms

    drain_lem :
        (i : ℕ) (times : List D)
        → (map (λ m. m.time) (drain master_id proc_size comm_size i times) ≡ times)
          × IsNumbered i (drain master_id proc_size comm_size i times)
    unfolding drain
    drain_lem i [] = (refl, tt)
    drain_lem i (t ∷ ts) =
        let (times, numbered) = drain_lem (i + 1) ts in (ap (◌∷◌ t) times, (refl, numbered))

    -- The exponential workload sends one event per drawn time, to the master: the times are the drawn
    -- ones, no event is before the one sent before it, and the tasks are numbered from 0.
    pub exp_constant_sized_workload_lem :
        (laws : IsOrdered D) (draws : List D)
        → let ms = exp_constant_sized_workload master_id proc_size comm_size draws in
          Perm (map (λ m. m.time) ms) draws × IsSorted (map (λ m. m.time) ms) × IsNumbered 0 ms
    unfolding exp_constant_sized_workload
    exp_constant_sized_workload_lem laws draws =
        let queue = push_all draws [] in
        let (times, numbered) = drain_lem 0 queue in
        (
          subst (λ l. Perm l draws) (sym times)
              (Perm.trans (push_all-perm draws []) (rw (append-nil draws) (Perm.refl draws))),
          subst IsSorted (sym times) (push_all-IsSorted laws draws [] tt),
          numbered,
        )

    zeroth_loop_lem :
        (n i : ℕ)
        → (length (zeroth_loop master_id proc_size comm_size n i) ≡ n)
          × IsNumbered i (zeroth_loop master_id proc_size comm_size n i)
          × All (λ m. m.time ≡ d.nought) (zeroth_loop master_id proc_size comm_size n i)
    unfolding zeroth_loop
    zeroth_loop_lem zero i = (refl, tt, tt)
    zeroth_loop_lem (suc n) i =
        let (count, numbered, times) = zeroth_loop_lem n (i + 1) in
        (ap suc count, (refl, numbered), (refl, times))

    jittered_loop_lem :
        (jitter : D) (n i : ℕ) (time : D)
        → let ms = jittered_loop master_id proc_size comm_size jitter n i time in
          (length ms ≡ n) × IsNumbered i ms
    unfolding jittered_loop
    jittered_loop_lem jitter zero i time = (refl, tt)
    jittered_loop_lem jitter (suc n) i time =
        let (count, numbered) = jittered_loop_lem jitter n (i + 1) (time ⊕ jitter) in
        (ap suc count, (refl, numbered))

    -- The workload of generated tasks sends as many events as tasks are asked for, numbered from 0,
    -- jittered or not.
    pub zeroth_constant_sized_workload_lem :
        (jitter : D) (task_amount : ℕ) (jittered : Bool)
        → let ms =
            zeroth_constant_sized_workload master_id proc_size comm_size jitter task_amount
              jittered in
          (length ms ≡ task_amount) × IsNumbered 0 ms
    unfolding zeroth_constant_sized_workload
    zeroth_constant_sized_workload_lem jitter task_amount true =
        jittered_loop_lem jitter task_amount 0 d.nought
    zeroth_constant_sized_workload_lem jitter task_amount false =
        let (count, numbered, _) = zeroth_loop_lem task_amount 0 in (count, numbered)
