-- ===== src/Service/Link.antt =====
-- include/service/link.hpp and src/service/link.cpp.
pub mod Delivery
use ispd_exa_engine.Base.{ℕ, List, [], ◌∷◌, if◌then◌else◌, ◌==◌, Result, ok, err, died, ◌>>=◌}
use ispd_exa_engine.Double.{Double, ◌⊕◌}
use ispd_exa_engine.Customer.{Task, Event, Message, RouteDescriptor, descriptor, send}
use ispd_exa_engine.Service.Queueing.{time_to_communicate, departure_time}

pub record LinkMetrics (D : Type 0) : Type 0 where
  pub comm_mbits : D
  pub comm_time : D
  pub comm_tasks : D

pub record Link (D : Type 0) : Type 0 where
  pub id : ℕ
  pub metrics : LinkMetrics D
  pub from : ℕ
  pub to : ℕ
  pub bandwidth : D
  pub latency : D
  pub load_factor : D
  pub available_time : D
  pub lvt : D

module _ {D : Type 0} ⦃d : Double D⦄ where
  abbrev pub new_link : (id from to : ℕ) (bandwidth load_factor latency : D) → Link D
  new_link id from to bandwidth load_factor latency = record {
    id = id;
    metrics = record { comm_mbits = d.nought; comm_time = d.nought; comm_tasks = d.nought };
    from = from;
    to = to;
    bandwidth = bandwidth;
    latency = latency;
    load_factor = load_factor;
    available_time = d.nought;
    lvt = d.nought;
  }

  -- The other end, or `die` if the packet comes from neither.
  unfoldable pub other_end : Link D → ℕ → Result ℕ
  other_end l previous =
      if l.from == previous then ok l.to else if l.to == previous then ok l.from else err died

  unfoldable pub on_task_arrival : Link D → D → Event D → Result (Link D × List (Message D))
  on_task_arrival l now e =
      let comm_size = e.task.comm_size in
      let comm_time = time_to_communicate l.latency l.load_factor l.bandwidth comm_size in
      let departure = departure_time l.available_time now comm_time in
      let r = e.route_descriptor in
      other_end l r.previous_service >>= λ send_to. ok (
        record l {
          metrics = record {
            comm_mbits = l.metrics.comm_mbits ⊕ comm_size;
            comm_time = l.metrics.comm_time ⊕ comm_time;
            comm_tasks = l.metrics.comm_tasks ⊕ d.one;
          };
          available_time = departure;
          lvt = departure;
        },
        send send_to departure e.task
              (descriptor r.source r.destination l.id r.offset r.forwarding_direction)
            ∷ [],
      )
