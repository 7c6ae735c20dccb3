-- ===== src/Tests/Registry.antt =====
-- Runs of the agent registry on the sample company.
use tacktcix.Prelude.{ℕ, ◌≡◌, ◌≢◌, refl, none, some, arith, All, nat_eq, string_eq}
use tacktcix.Prelude.Int.{pos}
use tacktcix.Agents.{Agent}
use tacktcix.Registry.{Backend, find_agent, assign_task, complete_task, register_agent}
use tacktcix.Registry.Load.{complete_task-assign_task}
use tacktcix.Registry.Capacity.{IsSound, Reach, here, next, register, assign, Reach-IsSound}
use tacktcix.Tests.Fixed.{fixed}
use tacktcix.Tests.Samples.{coder, backend, newcomer, company}

found_coder : find_agent 1 backend.agents ≡ some coder
unfolding find_agent
found_coder = refl

complete_task-assign_task_example :
    let s' = (complete_task 1 none (assign_task 1 none backend).1).1 in
    ((b : Agent fixed) × (find_agent 1 s'.agents ≡ some b) × (b.current_load ≡ pos 0))
    × ((j : ℕ) → j ≢ 1 → find_agent j s'.agents ≡ find_agent j backend.agents)
complete_task-assign_task_example =
    complete_task-assign_task 1 none backend coder found_coder (omega arith)

after_two : Backend fixed
unfolding register_agent assign_task
after_two = (assign_task 1 none (register_agent company 4 newcomer backend).1).1

two_steps : Reach backend after_two
unfolding after_two
two_steps = next (next here (register company 4 newcomer (omega arith))) (assign 1 none)

backend-IsSound : All IsSound backend.agents
backend-IsSound = (
  record { nonneg = omega arith; room = λ _. refl },
  (
    record { nonneg = omega arith; room = λ _. refl },
    (record { nonneg = omega arith; room = λ _. refl }, tt),
  ),
)

Reach-IsSound_example : All IsSound after_two.agents
Reach-IsSound_example = Reach-IsSound backend-IsSound two_steps
