-- ===== src/Scheduler/Tests.antt =====
-- src/scheduler/round_robin.cpp on a master 0 with the slaves 2 and 4.
use ispd_exa_engine.Scheduler.Completion.{completions, Drains, on_init-completions}
use ispd_exa_engine.Base.{◌>>=◌, ◌≢◌, ℕ, zero, suc, ◌≡◌, refl, some, List, [], ◌∷◌, arith, ok}
use ispd_exa_engine.Base.Int.{pos}
use ispd_exa_engine.Szudzik.{szudzik}
use ispd_exa_engine.Double.{Ticks, ticks}
use ispd_exa_engine.UnorderedMap.{find, at}
use ispd_exa_engine.Customer.{Message}
use ispd_exa_engine.Workload.{uniform_random}
use ispd_exa_engine.Routing.{RoutingTable, get_route, index}
use ispd_exa_engine.Scheduler.{
  RoundRobin, new_round_robin, add_resource, schedule, Issuing, on_init,
}
use ispd_exa_engine.Scheduler.Queue.{queue, picks, picks_round, queue-add_resource}
use ispd_exa_engine.Scheduler.Interface.{
  Call, adding, scheduling, Serves, serve, round_robin, round_robin-Serves,
}
use ispd_exa_engine.Scheduler.Identifiers.{carried_tid, issue_task_distinct}
use ispd_exa_engine.Scheduler.{issue_task}
use ispd_exa_engine.Scheduler.Issue.{Issues, issue_task-Issues, IsRouted}
use ispd_exa_engine.Scheduler.Initial.{HandsOut, on_init-HandsOut}

abbrev three : RoundRobin
three = record { resources = 2 ∷ 4 ∷ 6 ∷ []; next_resource = 1 }

picks_round_example :
    (rr' : RoundRobin) × (picks 3 three ≡ ok (4 ∷ 6 ∷ 2 ∷ [], rr'))
    × (queue rr' ≡ 4 ∷ 6 ∷ 2 ∷ [])
    × (rr'.resources ≡ 2 ∷ 4 ∷ 6 ∷ [])
picks_round_example = picks_round three (omega arith)

-- The resource 8 comes before 2, which has been scheduled.
queue-add_resource_example : queue (add_resource three 8) ≡ 4 ∷ 6 ∷ 8 ∷ 2 ∷ []
queue-add_resource_example = queue-add_resource three 8 (omega arith)

abbrev mixed_calls : List Call
mixed_calls =
    adding 2 ∷ adding 4 ∷ scheduling ∷ adding 6 ∷ scheduling ∷ scheduling ∷ scheduling ∷ []

round_robin-Serves_example :
    (xs : List ℕ) × (rr : RoundRobin) × (serve mixed_calls new_round_robin ≡ ok (xs, rr))
    × Serves [] mixed_calls xs
round_robin-Serves_example =
    round_robin-Serves mixed_calls ((λ e. cc), ((λ e. cc), ((λ e. cc), ((λ e. cc), tt))))

mixed_resources :
    serve mixed_calls new_round_robin
    ≡ ok (2 ∷ 4 ∷ 6 ∷ 2 ∷ [], record { resources = 2 ∷ 4 ∷ 6 ∷ []; next_resource = 1 })
unfolding serve round_robin add_resource schedule new_round_robin
mixed_resources = refl

abbrev table : RoutingTable
table =
    (4, record { length = 1; path = some 1 ∷ [] })
    ∷ (16, record { length = 2; path = some 1 ∷ some 3 ∷ [] })
    ∷ []

abbrev two : RoundRobin
two = record { resources = 2 ∷ 4 ∷ []; next_resource = 1 }

two-IsRouted : IsRouted table 0 two
unfolding get_route index at find szudzik
two-IsRouted zero slave e =
    let same : 2 ≡ slave = ground arith in
    rw (← same) (record { length = 1; path = some 1 ∷ [] }, 1, refl, refl)
two-IsRouted (suc zero) slave e =
    let same : 4 ≡ slave = ground arith in
    rw (← same) (record { length = 2; path = some 1 ∷ some 3 ∷ [] }, 1, refl, refl)
two-IsRouted (suc (suc i)) slave e = absurd (ground arith)

-- A generator whose values go up by one.
abbrev counter : ℕ → Ticks × ℕ
counter n = (n, suc n)

abbrev handing : Issuing Ticks ℕ
handing = record {
  workload = uniform_random (pos 3) 10 20 5 6;
  round_robin = two;
  rng = 0;
  sent = [];
}

on_init-HandsOut_example :
    (s' : Issuing Ticks ℕ) × (on_init counter table 0 handing ≡ ok s')
    × HandsOut counter table 0 2 3 handing s'
on_init-HandsOut_example =
    on_init-HandsOut counter table 0 3 handing (omega arith) two-IsRouted refl

abbrev last_but_one : Issuing Ticks ℕ
last_but_one = record handing { workload = uniform_random (pos 2) 10 20 5 6 }

abbrev first_issue :
    (s' : Issuing Ticks ℕ) × (issue_task counter table 0 0 handing ≡ ok s')
    × Issues counter table 0 0 2 handing s'
first_issue = issue_task-Issues counter table 0 0 2 handing (omega arith) two-IsRouted refl

abbrev second_issue :
    (s' : Issuing Ticks ℕ) × (issue_task counter table 0 9 last_but_one ≡ ok s')
    × Issues counter table 0 9 1 last_but_one s'
second_issue = issue_task-Issues counter table 0 9 1 last_but_one (omega arith) two-IsRouted refl

issue_task_distinct_example :
    (m : Message Ticks) × (m' : Message Ticks) × (first_issue.0.sent ≡ m ∷ [])
    × (second_issue.0.sent ≡ m' ∷ [])
    × (carried_tid m ≢ carried_tid m')
issue_task_distinct_example =
    issue_task_distinct counter table 0 0 3 2 0 9 handing first_issue.0 last_but_one second_issue.0
      (omega arith) (omega arith) (omega arith) (omega arith) (λ e. omega (arith, e.0)) refl refl
      first_issue.1 second_issue.1

-- Three tasks for two slaves, and two that come back: the second brings nothing out.
on_init-completions_example :
    (s' : Issuing Ticks ℕ) × ((on_init counter table 0 handing >>= λ s.
    completions counter table 0 (8 ∷ 9 ∷ []) s)
      ≡ ok s')
    × Drains counter table 0 3 4 handing s'
on_init-completions_example =
    on_init-completions counter table 0 (8 ∷ 9 ∷ []) 3 handing (omega arith) two-IsRouted refl
