-- ===== src/Scheduler/Turns.antt =====
-- How the tasks of api/src/api_task.c take turns: what a call gives the task that made it.
use libapi.Base.{
  ℕ, ◌≡◌, ◌≢◌, refl, sym, ap, ◌∙◌, true, false, none, some, ◌==◌, if◌then◌else◌, ==_refl, ne→not_==,
}
use libapi.Base.Fallible.{◌>>=◌}
use libapi.Memory.{Ptr, null, Store, write, write_same, write_other}
use libapi.Scheduler.{Task, Scheduler, swap, set_parent, yield, exec, post, finish}
use libapi.Scheduler.Switch.{Live, at-some, swap-goes, starts, ends}

exec-swaps :
    (p : Ptr) (t : Task) (s : Scheduler)
    → Live s p t
    → p ≢ s.main
    → exec p s ≡ swap s.current p (set_parent p t s.current false s)
unfolding exec
exec-swaps p t s l n = rw (at-some s p t l.some_task l.found, l.going, ne→not_== p s.main n) refl

post-swaps :
    (p : Ptr) (t : Task) (s : Scheduler)
    → Live s p t
    → p ≢ s.main
    → post p s ≡ swap s.current p (set_parent p t s.main true s)
unfolding post
post-swaps p t s l n = rw (at-some s p t l.some_task l.found, l.going, ne→not_== p s.main n) refl

yield-swaps :
    (p : Ptr) (t : Task) (v : ℕ) (s : Scheduler)
    → p ≢ null
    → s.tasks p ≡ some t
    → p ≢ s.main
    → yield p v s ≡ swap p t.parent (record s { value = v })
unfolding yield
yield-swaps p t v s h e n = rw (at-some s p t h e, ne→not_== p s.main n) refl

-- api_task_exec of a task that then yields a value: the task that called goes on, with that value for
-- the answer, and the other one waits behind its yield.
pub exec-yield :
    (p : Ptr) (m t : Task) (v : ℕ) (s : Scheduler)
    → p ≢ s.main
    → p ≢ s.current
    → Live s s.current m
    → Live s p t
    → (s' : Scheduler) × ((exec p s >>= λ s1. yield p v s1) ≡ some s')
      × (s'.current ≡ s.current)
      × (s'.value ≡ v)
      × (s'.tasks p ≡ some (record t { parent = s.current; is_post = false; started = true }))
exec-yield p m t v s not_main apart me other =
    let (s1, e1, w1) = starts s.current p false m t s apart me other in
    let back : s1.tasks s.current ≡ some m =
      w1.others s.current (λ e. apart (sym e))
      ∙ write_other s.tasks p s.current _ (λ e. apart (sym e))
      ∙ me.found in
    let (s2, e2, w2) =
      swap-goes p s.current (record t { parent = s.current; is_post = false; started = true }) m
        (record s1 { value = v }) other.some_task me.some_task w1.entered refl back me.going in
    (
      s2,
      ap (λ o. o >>= λ s1. yield p v s1) (exec-swaps p t s other not_main ∙ e1)
          ∙ yield-swaps p (record t { parent = s.current; is_post = false; started = true }) v s1
              other.some_task w1.entered (λ e. not_main (e ∙ w1.main))
          ∙ e2,
      w2.current,
      w2.value,
      w2.others p apart ∙ w1.entered,
    )

finish-swaps :
    (p : Ptr) (t : Task) (s : Scheduler)
    → p ≢ null
    → s.tasks p ≡ some t
    → finish p s
      ≡ swap p t.parent (record s { tasks = write s.tasks p (record t { is_done = true }) })
unfolding finish
finish-swaps p t s h e = rw (at-some s p t h e) refl

removed : (p : Ptr) (tasks : Store Task) → (if p == p then none else tasks p) ≡ none
removed p tasks = rw (==_refl p) refl

unremoved : (p a : Ptr) (tasks : Store Task) → a ≢ p → (if a == p then none else tasks a) ≡ tasks a
unremoved p a tasks n = rw (ne→not_== a p n) refl

-- api_task_post, called by the main task, of a new task that then runs to its end: the main task goes on,
-- the task is deleted, and no other task has changed.
pub post-finish :
    (p : Ptr) (m t : Task) (s : Scheduler)
    → p ≢ s.main
    → s.current ≡ s.main
    → Live s s.current m
    → m.started ≡ true
    → Live s p t
    → (s' : Scheduler) × ((post p s >>= λ s1. finish p s1) ≡ some s')
      × (s'.current ≡ s.main)
      × (s'.prev ≡ null)
      × (s'.tasks p ≡ none)
      × ((a : Ptr) → a ≢ p → s'.tasks a ≡ s.tasks a)
post-finish p m t s not_main runs me started other =
    let main_some : s.main ≢ null = λ e. me.some_task (runs ∙ e) in
    let main_found : s.tasks s.main ≡ some m = ap s.tasks (sym runs) ∙ me.found in
    let main_apart : s.main ≢ p = λ e. not_main (sym e) in
    let (s1, e1, w1) = starts s.main p true m t s (λ e. not_main (e ∙ runs)) me other in
    let t1 : Task = record t { parent = s.main; is_post = true; started = true } in
    let done : Task = record t1 { is_done = true } in
    let s2 : Scheduler = record s1 { tasks = write s1.tasks p done } in
    let kept : (a : Ptr) → a ≢ p → s2.tasks a ≡ s.tasks a =
      λ a n. write_other s1.tasks p a done n ∙ w1.others a n ∙ write_other s.tasks p a _ n in
    let s3 : Scheduler = record s2 {
      current = s.main;
      prev = null;
      tasks = λ a. if a == p then none else s2.tasks a;
    } in
    (
      s3,
      ap (λ o. o >>= λ s1. finish p s1) (post-swaps p t s other not_main ∙ e1)
          ∙ finish-swaps p t1 s1 other.some_task w1.entered
          ∙ ends p s.main done m s2 other.some_task main_some main_apart
              (write_same s1.tasks p done) refl (kept s.main main_apart ∙ main_found) me.going
              started,
      refl,
      refl,
      removed p s2.tasks,
      λ a n. unremoved p a s2.tasks n ∙ kept a n,
    )
