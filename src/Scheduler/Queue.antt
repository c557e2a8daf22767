-- ===== src/Scheduler/Queue.antt =====
-- include/scheduler/round_robin.hpp: the index into a fixed vector behaves as the circular queue.
use mathlib.Core.List.{append_assoc, append-nil}
use ispd_exa_engine.Base.{
  ℕ, zero, suc, ◌+◌, ◌%◌, ◌≡◌, refl, ap, ◌∙◌, sym, List, [], ◌∷◌, ◌++◌, ◌<◌, ◌≤◌, arith, length,
  get_elem?, take, drop, take-length, drop-length, drop-at, take-suc, get_elem?-some, some, Result,
  ok, err, ◌>>=◌, undefined_behaviour, length-append, length-drop, length-take-le,
}
use ispd_exa_engine.Scheduler.{RoundRobin, schedule, add_resource}
use native.Mathlib.Decide.{dec_lt}

abbrev pub IsValid : RoundRobin → Type 0
IsValid rr = rr.next_resource < length rr.resources

-- The resources from the next one on, and then round to the one before it.
abbrev pub queue : RoundRobin → List ℕ
queue rr = drop rr.next_resource rr.resources ++ take rr.next_resource rr.resources

pub length-queue : (rr : RoundRobin) → IsValid rr → length (queue rr) ≡ length rr.resources
length-queue rr v =
    let i = rr.next_resource in
    let xs = rr.resources in
    omega (
      arith,
      length-append (drop i xs) (take i xs),
      length-drop i xs,
      length-take-le i xs (omega arith),
    )

next_queue :
    (xs : List ℕ) (i r : ℕ)
    → get_elem? xs i ≡ some r
    → i < length xs
    → let j = (i + 1) % length xs in
      drop j xs ++ take j xs ≡ (drop (suc i) xs ++ take i xs) ++ r ∷ []
next_queue xs i r e h = elim (dec_lt (i + 1) (length xs)) [
  | yes p ↦
      let j : (i + 1) % length xs ≡ suc i = grind arith in
      rw (j, take-suc i xs r e) (sym (append_assoc (drop (suc i) xs) (take i xs) (r ∷ [])))
  | no p ↦
      let j : (i + 1) % length xs ≡ 0 = grind arith in
      let n : suc i ≡ length xs = omega arith in
      let whole : xs ≡ take i xs ++ r ∷ [] =
        sym (take-length xs) ∙ ap (λ k. take k xs) (sym n) ∙ take-suc i xs r e in
      let none_left : drop (suc i) xs ≡ [] = ap (λ k. drop k xs) n ∙ drop-length xs in
      rw (j, none_left) (append-nil xs ∙ whole)
]

-- What a call of `schedule` does to a queue.
pub record Rotates (rr : RoundRobin) (r : ℕ) (rr' : RoundRobin) : Type 0 where
  pub tail : List ℕ
  pub front : queue rr ≡ r ∷ tail
  pub back : queue rr' ≡ tail ++ r ∷ []
  pub same : rr'.resources ≡ rr.resources
  pub valid : IsValid rr'
  pub picked : get_elem? rr.resources rr.next_resource ≡ some r

-- With a valid index `schedule` succeeds: it takes the resource at the front of the queue and puts
-- it at the back.
pub schedule-Rotates :
    (rr : RoundRobin)
    → IsValid rr
    → (r : ℕ) × (rr' : RoundRobin) × (schedule rr ≡ ok (r, rr')) × Rotates rr r rr'
unfolding schedule
schedule-Rotates rr v =
    let xs = rr.resources in
    let i = rr.next_resource in
    let (r, e) = get_elem?-some xs i v in
    (
      r,
      record rr { next_resource = (i + 1) % length xs },
      rw e,
      record {
        tail = drop (suc i) xs ++ take i xs;
        front = rw (drop-at i xs r e);
        back = next_queue xs i r e v;
        same = refl;
        valid = grind arith;
        picked = e;
      },
    )

-- `n` calls of `schedule`, and the resources that they return.
unfoldable pub picks : ℕ → RoundRobin → Result (List ℕ × RoundRobin)
picks zero rr = ok ([], rr)
picks (suc n) rr = schedule rr >>= λ pick. picks n pick.1 >>= λ rest. ok (pick.0 ∷ rest.0, rest.1)

picks_prefix :
    (ps bs : List ℕ) (rr : RoundRobin)
    → IsValid rr
    → queue rr ≡ ps ++ bs
    → (rr' : RoundRobin) × (picks (length ps) rr ≡ ok (ps, rr'))
      × (queue rr' ≡ bs ++ ps)
      × (rr'.resources ≡ rr.resources)
unfolding picks
picks_prefix [] bs rr v e = (rr, refl, e ∙ sym (append-nil bs), refl)
picks_prefix (a ∷ ps) bs rr v e =
    let (r, rr1, s, rot) = schedule-Rotates rr v in
    let same : (r ≡ a) × (rot.tail ≡ ps ++ bs) = ground (arith, rot.front) in
    let (rr2, run, q, res) =
      picks_prefix ps (bs ++ a ∷ []) rr1 rot.valid
        (rot.back ∙ rw (same.1, same.0) (append_assoc ps bs (a ∷ []))) in
    (rr2, rw (s, run, same.0), q ∙ append_assoc bs (a ∷ []) ps, res ∙ rot.same)

-- As many calls of `schedule` as there are resources return each of them once, in the order of the
-- queue, and leave the queue as it was.
pub picks_round :
    (rr : RoundRobin)
    → IsValid rr
    → (rr' : RoundRobin) × (picks (length rr.resources) rr ≡ ok (queue rr, rr'))
      × (queue rr' ≡ queue rr)
      × (rr'.resources ≡ rr.resources)
picks_round rr v =
    rw (← length-queue rr v) (picks_prefix (queue rr) [] rr v (sym (append-nil (queue rr))))

-- With no resources `schedule` reads out of bounds.
pub schedule_empty : (rr : RoundRobin) → rr.resources ≡ [] → schedule rr ≡ err undefined_behaviour
unfolding schedule
schedule_empty rr e = rw e

pub add_resource-IsValid :
    (rr : RoundRobin) (r : ℕ) → rr.next_resource ≤ length rr.resources → IsValid (add_resource rr r)
unfolding add_resource
add_resource-IsValid rr r v = omega (arith, length-append rr.resources (r ∷ []))

take-snoc :
    (i : ℕ) (xs : List ℕ) (r : ℕ)
    → i ≤ length xs
    → (take i (xs ++ r ∷ []) ≡ take i xs) × (drop i (xs ++ r ∷ []) ≡ drop i xs ++ r ∷ [])
take-snoc zero xs r h = (refl, refl)
take-snoc (suc i) [] r h = absurd (omega (arith, h))
take-snoc (suc i) (x ∷ xs) r h =
    let (t, d) = take-snoc i xs r (omega (arith, h)) in (ap (λ ys. x ∷ ys) t, d)

-- With an index that is at most the number of resources, a resource that is added comes behind those
-- that have not been scheduled in this round and before those that have.
pub queue-add_resource :
    (rr : RoundRobin) (r : ℕ)
    → rr.next_resource ≤ length rr.resources
    → queue (add_resource rr r)
      ≡ drop rr.next_resource rr.resources ++ r ∷ take rr.next_resource rr.resources
unfolding add_resource
queue-add_resource rr r h =
    let (t, d) = take-snoc rr.next_resource rr.resources r h in
    rw (t, d) (append_assoc (drop rr.next_resource rr.resources) (r ∷ []) _)
