-- ===== src/World/Total.antt =====
-- Actions that end from every world, one rule for each way to build an action.
use cpdn_control.Prelude.{Bool, true, false, Option, none, some, if◌then◌else◌}
use cpdn_control.World.{
  ChildProcessHandle, TaskState, World, Event, Outside, History, M, ◌>>=◌, pure, emit, call,
  get_task, put_task, get_status, put_child, boinc_get_status, Ends,
}

pub record Total {A : Type 0} (m : M A) : Type 0 where
  pub at : (w : World) → Ends (m w)

module _ {A : Type 0} where
  pub Total-pure : (a : A) → Total (pure a)
  Total-pure a = record { at = λ w. tt }

  pub Total-bind :
      {B : Type 0} (m : M A) (k : A → M B) → Total m → ((a : A) → Total (k a)) → Total (m >>= k)
  unfolding ◌>>=◌
  Total-bind m k t u = record { at = λ w. go (m w) (t.at w) }
    where
      go : (r : Option (A × World)) → Ends r → Ends (elim r [ none ↦ none | some (a, w') ↦ k a w' ])
      go none e = e
      go (some (a, w')) e = (u a).at w'

  pub Total-if : (b : Bool) (m n : M A) → Total m → Total n → Total (if b then m else n)
  Total-if true m n t u = t
  Total-if false m n t u = u

  pub Total-call : (answer : History → A) (e : Event) → Total (call answer e)
  unfolding call
  Total-call answer e = record { at = λ w. tt }

pub Total-emit : (e : Event) → Total (emit e)
unfolding emit
Total-emit e = record { at = λ w. tt }

pub Total-get_task : Total get_task
unfolding get_task
Total-get_task = record { at = λ w. tt }

pub Total-put_task : (t : TaskState) → Total (put_task t)
unfolding put_task
Total-put_task t = record { at = λ w. tt }

pub Total-get_status : Total get_status
unfolding get_status
Total-get_status = record { at = λ w. tt }

pub Total-put_child : (c : ChildProcessHandle) → Total (put_child c)
unfolding put_child
Total-put_child c = record { at = λ w. tt }

pub Total-boinc_get_status : (o : Outside) → Total (boinc_get_status o)
unfolding boinc_get_status
Total-boinc_get_status o = record { at = λ w. tt }

pub ruleset total_rules = (
  Total-pure, Total-bind, Total-if, Total-call, Total-emit, Total-get_task, Total-put_task,
  Total-get_status, Total-put_child, Total-boinc_get_status,
)
