-- ===== src/Scheduler/Interface.antt =====
-- include/scheduler/scheduler.hpp: what a class that derives from `Scheduler` promises of `addResource`
-- and `schedule`, and that `RoundRobin` keeps the promise.
use ispd_exa_engine.Base.{
  ℕ, ◌<◌, ◌≡◌, ◌≢◌, refl, ap, ◌∙◌, List, [], ◌∷◌, ◌++◌, ◌⊎◌, inl, inr, arith, length, length-append,
  get_elem?, some, Result, ok, ◌>>=◌,
}
use ispd_exa_engine.Scheduler.{RoundRobin, new_round_robin, add_resource, schedule}
use ispd_exa_engine.Scheduler.Queue.{IsValid, schedule-Rotates}

-- The operations by which a scheduler with states `S` takes resources and gives them out.
pub record Scheduler (S : Type 0) : Type 0 where
  pub add_resource : S → ℕ → S
  pub schedule : S → Result (ℕ × S)

abbrev pub IsAmong : ℕ → List ℕ → Type 0
IsAmong r xs = (i : ℕ) × (get_elem? xs i ≡ some r)

-- With the states that a client reaches, the resources that have been added, and the laws: a new
-- scheduler has none, `addResource` adds one, and `schedule` returns one of them if there is any.
pub record IsScheduler {S : Type 0} ⦃c : Scheduler S⦄ (new_scheduler : S) : Type 1 where
  pub IsUsable : S → Type 0
  pub resources : S → List ℕ
  pub new_usable : IsUsable new_scheduler
  pub new_empty : resources new_scheduler ≡ []
  pub adds :
      (s : S) (r : ℕ)
      → IsUsable s
      → IsUsable (c.add_resource s r) × (resources (c.add_resource s r) ≡ resources s ++ r ∷ [])
  pub schedules :
      (s : S)
      → IsUsable s
      → resources s ≢ []
      → (r : ℕ) × (s' : S) × (c.schedule s ≡ ok (r, s'))
        × IsAmong r (resources s)
        × IsUsable s'
        × (resources s' ≡ resources s)

-- The calls of a client.
pub data Call : Type 0 where
  adding : ℕ → Call
  scheduling : Call

-- No call of `schedule` comes before a resource has been added.
abbrev pub IsOrderly : List ℕ → List Call → Type 0
IsOrderly known [] = Unit
IsOrderly known (adding r ∷ calls) = IsOrderly (known ++ r ∷ []) calls
IsOrderly known (scheduling ∷ calls) = (known ≢ []) × IsOrderly known calls

-- Each call of `schedule` returns a resource that has been added before it.
abbrev pub Serves : List ℕ → List Call → List ℕ → Type 0
Serves known [] [] = Unit
Serves known [] (x ∷ xs) = ⊥
Serves known (adding r ∷ calls) xs = Serves (known ++ r ∷ []) calls xs
Serves known (scheduling ∷ calls) [] = ⊥
Serves known (scheduling ∷ calls) (x ∷ xs) = IsAmong x known × Serves known calls xs

module _ {S : Type 0} ⦃c : Scheduler S⦄ where
  -- The calls one after the other, and what those of `schedule` return.
  unfoldable pub serve : List Call → S → Result (List ℕ × S)
  serve [] s = ok ([], s)
  serve (adding r ∷ calls) s = serve calls (c.add_resource s r)
  serve (scheduling ∷ calls) s =
      c.schedule s >>= λ out. serve calls out.1 >>= λ rest. ok (out.0 ∷ rest.0, rest.1)

  module _ {new_scheduler : S} (laws : IsScheduler new_scheduler) where
    serve-Serves :
        (calls : List Call) (known : List ℕ) (s : S)
        → laws.IsUsable s
        → laws.resources s ≡ known
        → IsOrderly known calls
        → (xs : List ℕ) × (s' : S) × (serve calls s ≡ ok (xs, s')) × Serves known calls xs
    unfolding serve
    serve-Serves [] known s u same orderly = ([], s, refl, tt)
    serve-Serves (adding r ∷ calls) known s u same orderly =
        let (u', more) = laws.adds s r u in
        serve-Serves calls (known ++ r ∷ []) (c.add_resource s r) u'
          (more ∙ ap (λ xs. xs ++ r ∷ []) same) orderly
    serve-Serves (scheduling ∷ calls) known s u same orderly =
        let (r, s', ran, among, u', kept) =
          laws.schedules s u (λ none. orderly.0 (rw (← same) none)) in
        let (xs, last, rest, serves) = serve-Serves calls known s' u' (kept ∙ same) orderly.1 in
        (r ∷ xs, last, rw (ran, rest) refl, (rw (← same) among, serves))

instance unfoldable pub round_robin : Scheduler RoundRobin
unfolding add_resource schedule
round_robin = record { add_resource = add_resource; schedule = schedule }

-- The index is valid as soon as there is a resource.
abbrev IsFit : RoundRobin → Type 0
IsFit rr = (rr.next_resource ≡ 0) ⊎ IsValid rr

length_positive : (xs : List ℕ) → xs ≢ [] → 0 < length xs
length_positive [] ne = absurd (ne refl)
length_positive (x ∷ xs) ne = omega arith

IsValid-of_some : (rr : RoundRobin) → IsFit rr → rr.resources ≢ [] → IsValid rr
IsValid-of_some rr (inl first) ne = omega (arith, first, length_positive rr.resources ne)
IsValid-of_some rr (inr v) ne = v

add_resource-IsFit : (rr : RoundRobin) (r : ℕ) → IsFit rr → IsFit (add_resource rr r)
unfolding add_resource
add_resource-IsFit rr r (inl first) = inl first
add_resource-IsFit rr r (inr v) = inr (omega (arith, v, length-append rr.resources (r ∷ [])))

pub RoundRobin-IsScheduler : IsScheduler new_round_robin
unfolding add_resource round_robin
RoundRobin-IsScheduler = record {
  IsUsable = IsFit;
  resources = λ rr. rr.resources;
  new_usable = inl refl;
  new_empty = refl;
  adds = λ rr r fit. (add_resource-IsFit rr r fit, refl);
  schedules = λ rr fit ne.
      let (r, rr', ran, rot) = schedule-Rotates rr (IsValid-of_some rr fit ne) in
      (r, rr', ran, (rr.next_resource, rot.picked), inr rot.valid, rot.same);
}

-- A client of a new round-robin scheduler that makes any calls of `addResource` and `schedule`, none
-- of the latter before it has added a resource: all calls return, and each of `schedule` returns a
-- resource that has been added before it.
pub round_robin-Serves :
    (calls : List Call)
    → IsOrderly [] calls
    → (xs : List ℕ) × (rr : RoundRobin) × (serve calls new_round_robin ≡ ok (xs, rr))
      × Serves [] calls xs
unfolding round_robin
round_robin-Serves calls orderly =
    let laws = RoundRobin-IsScheduler in
    serve-Serves laws calls [] new_round_robin laws.new_usable laws.new_empty orderly
