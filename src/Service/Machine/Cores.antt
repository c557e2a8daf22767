-- ===== src/Service/Machine/Cores.antt =====
-- src/service/machine.cpp and `Machine::timeToAttend`: the core that takes a task.
use ispd_exa_engine.Base.{
  ℕ, zero, suc, ◌+◌, ◌≡◌, refl, ap, ◌∙◌, sym, true, false, List, [], ◌∷◌, Option, none, some, arith,
  get_elem?, set, ok, err, undefined_behaviour, Bool-cases, ◌⊎◌, inl, inr,
}
use ispd_exa_engine.Double.{Double, IsOrdered}
use ispd_exa_engine.Service.Machine.{Machine, attend_loop, time_to_attend}

module _ {D : Type 0} where
  -- Cores all of whose free times have been written.
  abbrev pub written : List D → List (Option D)
  written [] = []
  written (t ∷ ts) = some t ∷ written ts

  pub set-written :
      (ts : List D) (k : ℕ) (t : D) → set (written ts) k (some t) ≡ written (set ts k t)
  set-written [] k t = refl
  set-written (u ∷ ts) zero t = refl
  set-written (u ∷ ts) (suc k) t = ap (λ xs. some u ∷ xs) (set-written ts k t)

module _ {D : Type 0} ⦃d : Double D⦄ where
  -- No element of the list is below `t`.
  abbrev pub IsLeast : List D → D → Type 0
  IsLeast ts t = (j : ℕ) (u : D) → get_elem? ts j ≡ some u → d.lt u t ≡ false

  record Attends (i : ℕ) (ts : List D) (best r : D × Option ℕ) : Type 0 where
    least : IsLeast ts r.0
    below : (x : D) → d.lt x best.0 ≡ false → d.lt x r.0 ≡ false
    chosen :
        (r ≡ best)
        ⊎ ((k : ℕ) × (r.1 ≡ some (i + k)) × (get_elem? ts k ≡ some r.0) × (d.lt r.0 best.0 ≡ true))

  module _ (laws : IsOrdered D) where
    open laws use {lt_irrefl, lt_trans}

    contra : (x t b : D) → d.lt t b ≡ true → d.lt x b ≡ false → d.lt x t ≡ false
    contra x t b h k = ground (arith, lt_trans x t b)

    IsLeast-cons : (ts : List D) (t r : D) → d.lt t r ≡ false → IsLeast ts r → IsLeast (t ∷ ts) r
    IsLeast-cons ts t r h l zero u e = ground arith
    IsLeast-cons ts t r h l (suc j) u e = l j u e

    Attends-take :
        (i : ℕ) (t : D) (ts : List D) (best r : D × Option ℕ)
        → d.lt t best.0 ≡ true
        → Attends (suc i) ts (t, some i) r
        → Attends i (t ∷ ts) best r
    Attends-take i t ts best r h rest = record {
      least = IsLeast-cons ts t r.0 (rest.below t (lt_irrefl t)) rest.least;
      below = λ x k. rest.below x (contra x t best.0 h k);
      chosen = inr (picked rest.chosen);
    }
      where
        picked :
            (r ≡ (t, some i))
              ⊎ ((k : ℕ) × (r.1 ≡ some (suc i + k))
                  × (get_elem? ts k ≡ some r.0)
                  × (d.lt r.0 t ≡ true))
            → (k : ℕ) × (r.1 ≡ some (i + k))
              × (get_elem? (t ∷ ts) k ≡ some r.0)
              × (d.lt r.0 best.0 ≡ true)
        picked (inl e) =
            (0, ap (λ x. x.1) e ∙ ap some (omega arith), sym (ap (λ x. some x.0) e), rw e h)
        picked (inr (k, e, f, g)) = (suc k, e ∙ ap some (omega arith), f, lt_trans r.0 t best.0 g h)

    Attends-keep :
        (i : ℕ) (t : D) (ts : List D) (best r : D × Option ℕ)
        → d.lt t best.0 ≡ false
        → Attends (suc i) ts best r
        → Attends i (t ∷ ts) best r
    Attends-keep i t ts best r h rest = record {
      least = IsLeast-cons ts t r.0 (rest.below t h) rest.least;
      below = rest.below;
      chosen = kept rest.chosen;
    }
      where
        kept :
            (r ≡ best)
              ⊎ ((k : ℕ) × (r.1 ≡ some (suc i + k))
                  × (get_elem? ts k ≡ some r.0)
                  × (d.lt r.0 best.0 ≡ true))
            → (r ≡ best)
              ⊎ ((k : ℕ) × (r.1 ≡ some (i + k))
                  × (get_elem? (t ∷ ts) k ≡ some r.0)
                  × (d.lt r.0 best.0 ≡ true))
        kept (inl e) = inl e
        kept (inr (k, e, f, g)) = inr (suc k, e ∙ ap some (omega arith), f, g)

    attend_loop-Attends :
        (ts : List D) (i : ℕ) (best : D × Option ℕ)
        → (r : D × Option ℕ) × (attend_loop i (written ts) best ≡ ok r) × Attends i ts best r
    unfolding attend_loop
    attend_loop-Attends [] i best =
        (best, refl, record { least = λ j u e. cc; below = λ x h. h; chosen = inl refl })
    attend_loop-Attends (t ∷ ts) i best = elim (Bool-cases (d.lt t best.0)) [
      | inl smaller ↦
          let (r, ran, a) = attend_loop-Attends ts (suc i) (t, some i) in
          (r, rw (attend_loop, smaller) ran, Attends-take i t ts best r smaller a)
      | inr not_smaller ↦
          let (r, ran, a) = attend_loop-Attends ts (suc i) best in
          (r, rw (attend_loop, not_smaller) ran, Attends-keep i t ts best r not_smaller a)
    ]

    -- What `timeToAttend` returns for cores with the free times `ts`: the least of them and a core that
    -- has it; it names no core exactly if none is free before the largest finite time.
    pub record AttendsLeast (m : Machine D) (ts : List D) : Type 0 where
      pub time : D
      pub core : Option ℕ
      pub ran : time_to_attend m ≡ ok (time, core)
      pub least : IsLeast ts time
      pub chosen :
          ((k : ℕ) × (core ≡ some k)
            × (get_elem? ts k ≡ some time)
            × (d.lt time d.max_value ≡ true))
          ⊎ ((core ≡ none) × (time ≡ d.max_value))

    pub time_to_attend-AttendsLeast :
        (m : Machine D) (ts : List D) → m.core_free_times ≡ written ts → AttendsLeast m ts
    unfolding time_to_attend
    time_to_attend-AttendsLeast m ts same =
        let (r, ran, a) = attend_loop-Attends ts 0 (d.max_value, none) in
        record {
          time = r.0;
          core = r.1;
          ran = ap (λ xs. attend_loop 0 xs (d.max_value, none)) same ∙ ran;
          least = a.least;
          chosen = elim a.chosen [
            | inl e ↦ inr (ap (λ x. x.1) e, ap (λ x. x.0) e)
            | inr (k, e, f, g) ↦ inl (k, e ∙ ap some (omega arith), f, g)
          ];
        }

  attend_loop-unwritten :
      (xs : List (Option D))
      → ((ts : List D) × (xs ≡ written ts))
        ⊎ ((i : ℕ) (best : D × Option ℕ) → attend_loop i xs best ≡ err undefined_behaviour)
  unfolding attend_loop
  attend_loop-unwritten [] = inl ([], refl)
  attend_loop-unwritten (none ∷ xs) = inr (λ i best. refl)
  attend_loop-unwritten (some t ∷ xs) = elim (attend_loop-unwritten xs) [
    | inl (ts, e) ↦ inl (t ∷ ts, ap (λ ys. some t ∷ ys) e)
    | inr fails ↦ inr (λ i best. fails (suc i) _)
  ]

  -- All free times have been written, or `timeToAttend` reads one that was not.
  pub time_to_attend_unwritten :
      (m : Machine D)
      → ((ts : List D) × (m.core_free_times ≡ written ts))
        ⊎ (time_to_attend m ≡ err undefined_behaviour)
  unfolding time_to_attend
  time_to_attend_unwritten m = elim (attend_loop-unwritten m.core_free_times) [
    | inl all ↦ inl all
    | inr fails ↦ inr (fails 0 (d.max_value, none))
  ]
