-- ===== src/Scheduler/Switch.antt =====
-- What the operations of api/src/api_task.c do with the task that runs and with the one that goes on.
use libapi.Base.{
  ◌≡◌, ◌≢◌, refl, sym, ap, ◌∙◌, inl, inr, Bool, true, false, ◌&&◌, none, some, ◌==◌, if◌then◌else◌,
  Bool-cases, ne→not_==,
}
use libapi.Base.Fallible.{◌>>=◌}
use libapi.Memory.{Ptr, null, write, write_same, write_other}
use libapi.Scheduler.{Task, Scheduler, task_at, delete, land, enter, swap, set_parent, post}

and_false : (a b : Bool) → b ≡ false → a && b ≡ false
and_false true b e = e
and_false false b e = refl

pub at-some :
    (s : Scheduler) (p : Ptr) (t : Task) → p ≢ null → s.tasks p ≡ some t → task_at s p ≡ some t
at-some s p t h e = rw (ne→not_== p null h) e

-- The task `other` goes on behind its own swap, or starts, and no other task changes.
pub record Swapped (me other : Ptr) (o : Task) (s s' : Scheduler) : Type 0 where
  pub current : s'.current ≡ other
  pub prev : s'.prev ≡ me
  pub main : s'.main ≡ s.main
  pub value : s'.value ≡ s.value
  pub entered : s'.tasks other ≡ some (record o { started = true })
  pub others : (a : Ptr) → a ≢ other → s'.tasks a ≡ s.tasks a

land-keeps :
    (other : Ptr) (s : Scheduler) (m : Task)
    → s.prev ≢ null
    → s.tasks s.prev ≡ some m
    → m.is_post && m.is_done ≡ false
    → land other s ≡ some (record s { current = other })
unfolding land
land-keeps other s m h e k = rw (ne→not_== s.prev null h, e, k) refl

enter-goes :
    (me other : Ptr) (m o : Task) (s : Scheduler)
    → me ≢ null
    → s.tasks me ≡ some m
    → m.is_post && m.is_done ≡ false
    → o.is_done ≡ false
    → s.tasks other ≡ some o
    → (s' : Scheduler) × (enter other o (record s { prev = me; current = other }) ≡ some s')
      × Swapped me other o s s'
unfolding enter
enter-goes me other m o s h e k d f = elim (Bool-cases o.started) [
  | inl t ↦ (
    record s { prev = me; current = other },
    rw (d, t) (land-keeps other (record s { prev = me; current = other }) m h e k),
    record {
      current = refl;
      prev = refl;
      main = refl;
      value = refl;
      entered = f ∙ ap (λ b. some (record o { started = b })) t;
      others = λ a n. refl;
    },
  )
  | inr t ↦ (
    record s {
      prev = me;
      current = other;
      tasks = write s.tasks other (record o { started = true });
    },
    rw (d, t) refl,
    record {
      current = refl;
      prev = refl;
      main = refl;
      value = refl;
      entered = write_same s.tasks other (record o { started = true });
      others = λ a n. write_other s.tasks other a _ n;
    },
  )
]

pub swap-goes :
    (me other : Ptr) (m o : Task) (s : Scheduler)
    → me ≢ null
    → other ≢ null
    → s.tasks me ≡ some m
    → m.is_post && m.is_done ≡ false
    → s.tasks other ≡ some o
    → o.is_done ≡ false
    → (s' : Scheduler) × (swap me other s ≡ some s') × Swapped me other o s s'
unfolding swap
swap-goes me other m o s h i e k f d =
    let (s', p, w) = enter-goes me other m o s h e k d f in
    let s1 : Scheduler = record s { prev = me; current = other } in
    (
      s',
      ap (λ m. m >>= λ m. task_at s other >>= λ o. enter other o s1) (at-some s me m h e)
          ∙ ap (λ o. o >>= λ o. enter other o s1) (at-some s other o i f)
          ∙ p,
      w,
    )

-- The states in which tasks are switched: the task that runs and the main task wait for nothing.
pub record Live (s : Scheduler) (p : Ptr) (t : Task) : Type 0 where
  pub some_task : p ≢ null
  pub found : s.tasks p ≡ some t
  pub going : t.is_done ≡ false

pub not_ended : (t : Task) → t.is_done ≡ false → t.is_post && t.is_done ≡ false
not_ended t e = and_false t.is_post t.is_done e

-- A task with another parent, in the place of the one before.
abbrev pub asked : Ptr → Bool → Task → Task
asked parent post t = record t { parent = parent; is_post = post }

pub starts :
    (parent p : Ptr) (is_post : Bool) (m t : Task) (s : Scheduler)
    → p ≢ s.current
    → Live s s.current m
    → Live s p t
    → (s' : Scheduler) × (swap s.current p (set_parent p t parent is_post s) ≡ some s')
      × Swapped s.current p (asked parent is_post t) (set_parent p t parent is_post s) s'
starts parent p is_post m t s apart me other =
    swap-goes s.current p m (asked parent is_post t) (set_parent p t parent is_post s) me.some_task
      other.some_task (write_other s.tasks p s.current _ (λ e. apart (sym e)) ∙ me.found)
      (not_ended m me.going) (write_same s.tasks p _) other.going

entered_started :
    (other : Ptr) (o : Task) (s : Scheduler)
    → o.is_done ≡ false
    → o.started ≡ true
    → enter other o s ≡ land other s
unfolding enter
entered_started other o s d t = rw (d, t) refl

-- A posted task that ends makes place for its parent and is deleted.
land-deletes :
    (other : Ptr) (s : Scheduler) (m : Task)
    → s.prev ≢ null
    → other ≢ s.prev
    → s.tasks s.prev ≡ some m
    → m.is_post && m.is_done ≡ true
    → land other s
      ≡ some (record s {
        current = other;
        prev = null;
        tasks = λ a. if a == s.prev then none else s.tasks a;
      })
unfolding land delete
land-deletes other s m h n e k = rw (ne→not_== s.prev null h, e, k, ne→not_== other s.prev n) refl

pub ends :
    (me other : Ptr) (m o : Task) (s : Scheduler)
    → me ≢ null
    → other ≢ null
    → other ≢ me
    → s.tasks me ≡ some m
    → m.is_post && m.is_done ≡ true
    → s.tasks other ≡ some o
    → o.is_done ≡ false
    → o.started ≡ true
    → swap me other s
      ≡ some (record s {
        current = other;
        prev = null;
        tasks = λ a. if a == me then none else s.tasks a;
      })
unfolding swap enter
ends me other m o s h i n e k f d t =
    let s1 : Scheduler = record s { prev = me; current = other } in
    ap (λ m. m >>= λ m. task_at s other >>= λ o. enter other o s1) (at-some s me m h e)
    ∙ ap (λ o. o >>= λ o. enter other o s1) (at-some s other o i f)
    ∙ entered_started other o s1 d t
    ∙ land-deletes other s1 m h n e k
