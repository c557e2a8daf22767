-- ===== src/Service/Link/Delivery.antt =====
-- src/service/link.cpp: where a packet leaves a link, when, and what the link keeps.
use ispd_exa_engine.Base.{
  ℕ, ◌≡◌, ◌≢◌, refl, [], ◌∷◌, ◌⊎◌, inl, inr, ==-true, ==-false, ok, err, died, sym, ◌∙◌,
}
use ispd_exa_engine.Double.{Double, ◌⊕◌}
use ispd_exa_engine.Customer.{Event, descriptor, send}
use ispd_exa_engine.Service.Queueing.{time_to_communicate, departure_time}
use ispd_exa_engine.Service.Link.{Link, other_end, on_task_arrival}

module _ {D : Type 0} ⦃d : Double D⦄ where
  -- The link joins `a` and `b`, in whichever order it was registered.
  abbrev pub Joins : Link D → ℕ → ℕ → Type 0
  Joins l a b = ((l.from ≡ a) × (l.to ≡ b)) ⊎ ((l.from ≡ b) × (l.to ≡ a))

  other_end-Joins : (l : Link D) (a b : ℕ) → a ≢ b → Joins l a b → other_end l a ≡ ok b
  unfolding other_end
  other_end-Joins l a b ne (inl (f, t)) = rw (==-true l.from a f, t)
  other_end-Joins l a b ne (inr (f, t)) =
      rw (==-false l.from a (λ e. ne (sym (sym f ∙ e))), ==-true l.to a t, f)

  -- The time that the link needs for the event's task.
  abbrev pub comm_time : Link D → Event D → D
  comm_time l e = time_to_communicate l.latency l.load_factor l.bandwidth e.task.comm_size

  -- A packet that comes from one end of the link leaves at the other end with its task, offset and
  -- direction unchanged and the link as its previous service; the link is busy until it has left.
  pub on_task_arrival-Joins :
      (l : Link D) (now : D) (e : Event D) (b : ℕ)
      → let r = e.route_descriptor in
        let a = r.previous_service in
        let departure = departure_time l.available_time now (comm_time l e) in
        a ≢ b
        → Joins l a b
        → (l' : Link D) × (on_task_arrival l now e
            ≡ ok (
              l',
              send b departure e.task
                    (descriptor r.source r.destination l.id r.offset r.forwarding_direction)
                  ∷ [],
            ))
          × (l'.available_time ≡ departure)
          × (l'.id ≡ l.id)
          × (l'.from ≡ l.from)
          × (l'.to ≡ l.to)
          × (l'.metrics.comm_mbits ≡ l.metrics.comm_mbits ⊕ e.task.comm_size)
          × (l'.metrics.comm_time ≡ l.metrics.comm_time ⊕ comm_time l e)
  unfolding on_task_arrival
  on_task_arrival-Joins l now e b ne j =
      let r = e.route_descriptor in
      let departure = departure_time l.available_time now (comm_time l e) in
      (
        record l {
          metrics = record {
            comm_mbits = l.metrics.comm_mbits ⊕ e.task.comm_size;
            comm_time = l.metrics.comm_time ⊕ comm_time l e;
            comm_tasks = l.metrics.comm_tasks ⊕ d.one;
          };
          available_time = departure;
          lvt = departure;
        },
        rw (other_end-Joins l r.previous_service b ne j),
        refl,
        refl,
        refl,
        refl,
        refl,
        refl,
      )

  -- A packet from a service at neither end stops the program.
  pub on_task_arrival_stranger :
      (l : Link D) (now : D) (e : Event D)
      → l.from ≢ e.route_descriptor.previous_service
      → l.to ≢ e.route_descriptor.previous_service
      → on_task_arrival l now e ≡ err died
  unfolding on_task_arrival other_end
  on_task_arrival_stranger l now e f t = rw (
    ==-false l.from e.route_descriptor.previous_service f,
    ==-false l.to e.route_descriptor.previous_service t,
  )
