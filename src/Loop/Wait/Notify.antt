-- ===== src/Loop/Wait/Notify.antt =====
-- Who learns of the end of a loop by `api_wait_notify` of api/src/unix/api_wait.c.
use libapi.Base.{
  ℕ, suc, ◌≡◌, ◌≢◌, refl, List, [], ◌∷◌, ◌++◌, true, false, Option, some, ◌==◌, has, ne→not_==,
  if◌then◌else◌,
}
use libapi.Base.Fallible.{◌>>=◌}
use libapi.Memory.{Ptr, null}
use libapi.Loop.{wait_handler, Message, Fleet, leave}
use libapi.Loop.Wait.{pop, send, after_pop}

-- The waits of the tasks of a loop.
unfoldable pub waits_of : (Ptr → Message) → Ptr → List Ptr → List Ptr
waits_of ms a [] = []
waits_of ms a (p ∷ ps) = if a == (ms p).caller then p ∷ waits_of ms a ps else waits_of ms a ps

-- `w'` is `w` after the waits `ps` for the loop `l`, which holds `ms`, have been told, and where `later` wait on.
pub record Notified (ms : Ptr → Message) (ps later : List Ptr) (l : Ptr) (w w' : Fleet)
    : Type 0 where
  pub queues : (a : Ptr) → w'.queues a ≡ w.queues a ++ waits_of ms a ps
  pub told :
      (p : Ptr) → has p ps ≡ true → w'.messages p ≡ some (record (ms p) { handler = wait_handler })
  pub others : (p : Ptr) → has p ps ≡ false → w'.messages p ≡ w.messages p
  pub waiting : w'.waiters l ≡ later
  pub other_waiters : (a : Ptr) → a ≢ l → w'.waiters a ≡ w.waiters a

pub pop-some :
    (linked : ℕ) (l p : Ptr) (ps : List Ptr) (w : Fleet)
    → w.waiters l ≡ p ∷ ps
    → pop (suc linked) l w ≡ (p, record w { waiters = leave w.waiters l ps })
unfolding pop
pop-some linked l p ps w e = rw (pop, e) refl

pub popped-some :
    (next : Fleet → Option Fleet) (p : Ptr) (w : Fleet)
    → p ≢ null
    → after_pop next (p, w) ≡ (send p w >>= next)
popped-some next p w n = rw (after_pop, ne→not_== p null n) refl
