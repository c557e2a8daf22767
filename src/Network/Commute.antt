-- ===== src/Network/Commute.antt =====
-- Deliveries to different services in either order: src/simulator/rootsim.cpp, where ROOT-Sim may
-- deliver them in parallel.
use mathlib.Core.List.{Perm, append_assoc, perm_append_comm, perm-append_left_iff}
use ispd_exa_engine.Base.{
  >>=-inverts, or_fail-inverts, ok_injective, ℕ, ◌≡◌, ◌≢◌, refl, sym, ap, subst, ◌∙◌, List, ◌∷◌,
  ◌++◌, some, Result, ok, undefined_behaviour, ==-true, ==-false,
}
use native.Mathlib.Decide.{ℕ_discrete}
use ispd_exa_engine.Double.{Double}
use ispd_exa_engine.Customer.{Message}
use ispd_exa_engine.Routing.{RoutingTable}
use ispd_exa_engine.Simulator.{Simulator, Service, Dispatched, dispatch}
use ispd_exa_engine.Network.{Network, deliver, update}
use ispd_exa_engine.Network.Deterministic.{IsQuiet, IsSimulation, dispatch-IsDeterministic}

cons_injective : {A : Type 0} {x y : A} {xs ys : List A} → x ∷ xs ≡ y ∷ ys → xs ≡ ys
cons_injective h = cc

swapped : {A : Type 0} (xs ys zs : List A) → Perm ((xs ++ ys) ++ zs) ((xs ++ zs) ++ ys)
swapped xs ys zs =
    subst (λ l. Perm l ((xs ++ zs) ++ ys)) (sym (append_assoc xs ys zs))
      (subst (Perm (xs ++ (ys ++ zs))) (sym (append_assoc xs zs ys))
        ((perm-append_left_iff xs).1 (perm_append_comm ys zs)))

module _ {D R : Type 0} ⦃d : Double D⦄ (random : R → D × R) (table : RoutingTable)
    (sim : Simulator D) where
  -- A delivery that has succeeded, taken apart.
  record Delivers (net : Network D R) (m : Message D) (rest : List (Message D)) (net' : Network D R)
      : Type 0 where
    out : Dispatched D R
    state : Service D
    ran :
        dispatch random table sim m.receiver m.time m.event_type m.event
          (some (net.services m.receiver))
          net.rng
        ≡ ok out
    is_state : out.state ≡ some state
    becomes : net' ≡ record {
      services = update random table sim net.services m.receiver state;
      rng = out.rng;
      pending = rest ++ out.sent;
    }

  deliver-Delivers :
      (net : Network D R) (m : Message D) (rest : List (Message D)) (net' : Network D R)
      → deliver random table sim net m rest ≡ ok net'
      → Delivers net m rest net'
  unfolding deliver
  deliver-Delivers net m rest net' h =
      let (out, settled, ran) = >>=-inverts _ _ h in
      let (s, done, is_state) = >>=-inverts _ _ settled in
      record {
        out = out;
        state = s;
        ran = ran;
        is_state = or_fail-inverts out.state undefined_behaviour is_state;
        becomes = sym (ok_injective done);
      }

  deliver_runs :
      (net : Network D R) (m : Message D) (rest : List (Message D)) (out : Dispatched D R)
      (s : Service D)
      → dispatch random table sim m.receiver m.time m.event_type m.event
          (some (net.services m.receiver))
          net.rng
        ≡ ok out
      → out.state ≡ some s
      → deliver random table sim net m rest
        ≡ ok (record {
          services = update random table sim net.services m.receiver s;
          rng = out.rng;
          pending = rest ++ out.sent;
        })
  unfolding deliver
  deliver_runs net m rest out s ran is_state = rw (ran, is_state) refl

  -- The delivery of a quiet service in any state of the generator.
  quiet_runs :
      (m : Message D) (s : Service D) (r r' : R) (out : Dispatched D R)
      → IsSimulation random table sim m
      → IsQuiet random table sim s
      → dispatch random table sim m.receiver m.time m.event_type m.event (some s) r ≡ ok out
      → (out.rng ≡ r)
        × (dispatch random table sim m.receiver m.time m.event_type m.event (some s) r'
            ≡ ok (record out { rng = r' }))
  quiet_runs m s r r' out simulates quiet ran =
      let (res, all) = dispatch-IsDeterministic random table sim m s simulates quiet in
      let (o, done, is) = >>=-inverts res _ (sym (all r) ∙ ran) in
      let same = ok_injective done in
      let with_other : Dispatched D R → Result (Dispatched D R) = λ o. ok (record o { rng = r' }) in
      (ap (λ o. o.rng) (sym same), all r' ∙ rw is (ap with_other same))

  update_self :
      (services : ℕ → Service D) (id : ℕ) (s : Service D)
      → update random table sim services id s id ≡ s
  update_self services id s = rw (==-true id id refl) refl

  update_other :
      (services : ℕ → Service D) (id j : ℕ) (s : Service D)
      → id ≢ j
      → update random table sim services id s j ≡ services j
  update_other services id j s ne = rw (==-false id j ne) refl

  update_twice :
      (services : ℕ → Service D) (i k : ℕ) (s t : Service D) (j : ℕ)
      → i ≢ k
      → update random table sim (update random table sim services i s) k t j
        ≡ update random table sim (update random table sim services k t) i s j
  update_twice services i k s t j ne = elim (ℕ_discrete i j) [
    | yes e ↦ rw (==-true i j e, ==-false k j (λ f. ne (e ∙ sym f))) refl
    | no other ↦ rw (==-false i j other) refl
  ]

  -- The second delivery runs as well from the network before the first.
  first_instead :
      (net : Network D R) (m n : Message D) (rest : List (Message D)) (mid : Network D R)
      → m.receiver ≢ n.receiver
      → (a : Delivers net m rest mid) → a.out.rng ≡ net.rng
      → (out : Dispatched D R)
      → dispatch random table sim n.receiver n.time n.event_type n.event
          (some (mid.services n.receiver))
          mid.rng
        ≡ ok out
      → dispatch random table sim n.receiver n.time n.event_type n.event
          (some (net.services n.receiver))
          net.rng
        ≡ ok out
  first_instead net m n rest mid apart a kept out ran =
      let same_rng : mid.rng ≡ net.rng = ap (λ x. x.rng) a.becomes ∙ kept in
      let same_state : mid.services n.receiver ≡ net.services n.receiver =
        ap (λ x. x.services n.receiver) a.becomes
        ∙ update_other net.services m.receiver n.receiver a.state apart in
      subst
        (λ r.
          dispatch random table sim n.receiver n.time n.event_type n.event
            (some (net.services n.receiver)) r
          ≡ ok out)
        same_rng
        (subst
          (λ s.
            dispatch random table sim n.receiver n.time n.event_type n.event (some s) mid.rng
            ≡ ok out)
          same_state ran)

  -- The same network but for the order of the pending messages.
  abbrev pub AreAlike : Network D R → Network D R → Type 0
  AreAlike net net' =
      ((j : ℕ) → net.services j ≡ net'.services j)
      × (net.rng ≡ net'.rng)
      × Perm net.pending net'.pending

  -- A pending message to a service that is no master, which neither initialises nor ends a process,
  -- and then a pending message to another service can also be delivered in the other order: if both
  -- deliveries succeed in this order, they succeed in the other, and the network is then the same but
  -- for the order of the pending messages.
  pub deliver-deliver :
      (net : Network D R) (m n : Message D) (rest : List (Message D)) (mid last : Network D R)
      (others : List (Message D))
      → m.receiver ≢ n.receiver
      → IsSimulation random table sim m
      → IsQuiet random table sim (net.services m.receiver)
      → deliver random table sim net m (n ∷ rest) ≡ ok mid
      → mid.pending ≡ n ∷ others
      → deliver random table sim mid n others ≡ ok last
      → (mid' : Network D R) × (others' : List (Message D)) × (last' : Network D R) × (deliver
            random table sim net n
            (m ∷ rest)
          ≡ ok mid')
        × (mid'.pending ≡ m ∷ others')
        × (deliver random table sim mid' m others' ≡ ok last')
        × AreAlike last' last
  deliver-deliver net m n rest mid last others apart simulates quiet first pending second =
      let a = deliver-Delivers net m (n ∷ rest) mid first in
      let b = deliver-Delivers mid n others last second in
      let (kept, again) =
        quiet_runs m (net.services m.receiver) net.rng b.out.rng a.out simulates quiet a.ran in
      let ran_n = first_instead net m n (n ∷ rest) mid apart a kept b.out b.ran in
      let services' = update random table sim net.services n.receiver b.state in
      let m_there = update_other net.services n.receiver m.receiver b.state (λ e. apart (sym e)) in
      let ran_m =
        ap
          (λ s. dispatch random table sim m.receiver m.time m.event_type m.event (some s) b.out.rng)
          m_there
        ∙ again in
      let mid' : Network D R = record {
        services = services';
        rng = b.out.rng;
        pending = m ∷ rest ++ b.out.sent;
      } in
      let tail : others ≡ rest ++ a.out.sent =
        cons_injective (sym pending ∙ ap (λ x. x.pending) a.becomes) in
      (
        mid',
        rest ++ b.out.sent,
        record {
          services = update random table sim services' m.receiver a.state;
          rng = b.out.rng;
          pending = (rest ++ b.out.sent) ++ a.out.sent;
        },
        deliver_runs net n (m ∷ rest) b.out b.state ran_n b.is_state,
        refl,
        deliver_runs mid' m (rest ++ b.out.sent) (record a.out { rng = b.out.rng }) a.state ran_m
            a.is_state,
        (
          (λ j.
              sym (update_twice net.services m.receiver n.receiver a.state b.state j apart)
              ∙ ap (λ x. update random table sim x.services n.receiver b.state j) (sym a.becomes)
              ∙ sym (ap (λ x. x.services j) b.becomes)),
          sym (ap (λ x. x.rng) b.becomes),
          subst (Perm ((rest ++ b.out.sent) ++ a.out.sent))
              (ap (λ xs. xs ++ b.out.sent) (sym tail) ∙ sym (ap (λ x. x.pending) b.becomes))
              (swapped rest b.out.sent a.out.sent),
        ),
      )
