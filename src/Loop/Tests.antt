-- ===== src/Loop/Tests.antt =====
-- The loop at concrete runs.
use libapi.Base.{
  ℕ, suc, ◌<◌, ◌≡◌, ◌≢◌, ◌⊎◌, refl, [], ◌∷◌, true, false, none, some, ◌==◌, if◌then◌else◌, arith,
}
use libapi.Memory.{Ptr, null, load}
use libapi.Errno.{translate}
use libapi.Rbtree
use libapi.Rbtree.{rb, black}
use libapi.Timers.{Timers}
use libapi.Timers.Process
use libapi.Timers.Process.{new_timer}
use libapi.Timers.Timeout.{calculate_wait_timeout}
use libapi.Timers.Expire.{list_of}
use libapi.Timers.Idle.{Reached, end_of_walk, then_next}
use libapi.Loop.Round.{Base, Polled, ready, look, dispatch, process_sleeps, round}
use libapi.Loop.Round.Clock.{busy-no_timeout}
use libapi.Mpscq
use libapi.Loop.{post_handler, wakeup_handler, exec_completed_handler, wait_handler, Message, Fleet}
use libapi.Loop.Async
use libapi.Loop.Async.Exec.{exec-unanswered}
use libapi.Loop.Async.Ended.{Ended}
use libapi.Loop.Start.{Answers, gives, fails, Held, RunAnswers, start}
use libapi.Loop.Start.Failures.{Nothing, Started, start_lem}
use libapi.Loop.Windows.{Ports, async_key, notifier_key, processor}
use libapi.Loop.Windows.Alike.{view, view_of, view-processor}
use libapi.Loop.Signals.{
  Asyncs, enters_queue, links_queue, writes_signal, enters, links, signals, started, Run, new,
  then_step,
}
use libapi.Loop.Signals.Delivery.{Run-delivered}

some_node : (n : ℕ) → suc n ≢ null
some_node n = λ e. absurd (omega arith)

-- The stub is node 1, and the message is node 5.
abbrev posted : Asyncs
posted = writes_signal (links_queue 1 (enters_queue 5 (started 1 (λ _. null))))

posted-Run : Run 1 posted
unfolding started enters_queue links_queue writes_signal Mpscq.entered Mpscq.linked Mpscq.initial
    Mpscq.set
posted-Run =
    then_step
      (then_step
        (then_step (new (λ _. null)) (enters 5 (some_node 4) (λ e. absurd (omega arith)) refl))
        (links 1 (some_node 4) (λ e. absurd (omega arith))))
      (signals (omega arith))

Run-delivered_example : (posted.line.popped ≡ posted.line.pushed) ⊎ (0 < posted.signals)
unfolding started enters_queue links_queue writes_signal Mpscq.entered Mpscq.linked Mpscq.initial
    Mpscq.set
Run-delivered_example = Run-delivered 1 (some_node 0) posted-Run refl refl (λ p. ground arith)

abbrev nothing : Message
nothing = record {
  handler = post_handler;
  loop = null;
  callback = null;
  arg = null;
  stack_size = 0;
  caller = null;
  task = null;
  result = 0;
}

abbrev empty_fleet : Fleet
empty_fleet = record { queues = λ l. []; waiters = λ l. []; messages = λ p. none }

-- A task of loop 1 executes a callback in loop 2, with the message at 10 and the answer at 11.
abbrev asked : Fleet
asked = Async.begin_exec (λ w. 11) nothing 10 1 3 2 7 8 0 empty_fleet

exec-unanswered_example :
    (w' : Fleet) × (Async.drain (λ w. 11) nothing (λ a w. w) 0 2 false 2 asked ≡ some w')
    × ((a : Ptr) → a ≢ 1 → w'.queues a ≡ (if a == 2 then [] else []))
    × (w'.queues 1 ≡ 11 ∷ [])
    × (w'.messages 10
        ≡ some (record {
          handler = exec_completed_handler;
          loop = 2;
          callback = 7;
          arg = 8;
          stack_size = 0;
          caller = 1;
          task = 3;
          result = 0;
        }))
    × ((run : Ptr → Ptr → Ptr → Fleet → Fleet) → Async.async_task_fn run 11 w' ≡ none)
exec-unanswered_example =
    exec-unanswered (λ w. 11) nothing (λ a w. w) (λ a w. refl) 0 10 11 1 3 2 7 8 0 false (λ v. refl)
      (some_node 9) (some_node 10) (λ e. absurd (omega arith)) (λ e. absurd (omega arith)) 0
      empty_fleet refl

-- A post at 10 and a wakeup at 12 wait in loop 2.
abbrev posted_message : Message
posted_message = record nothing { loop = 2; callback = 7 }

abbrev woken_message : Message
woken_message = record nothing { handler = wakeup_handler; loop = 2; arg = 3 }

abbrev messages : Ptr → Message
messages p = if p == 10 then posted_message else woken_message

abbrev waiting_fleet : Fleet
waiting_fleet = record {
  queues = λ l. 10 ∷ 12 ∷ [];
  waiters = λ l. [];
  messages = λ p. some (messages p);
}

-- Tasks of the loops 1 and 4 wait for loop 2; the push of the second one is unfinished.
abbrev wait_at : Ptr → Message
wait_at p = record nothing { caller = if p == 10 then 1 else 4; loop = 2; task = 3 }

abbrev awaited : Fleet
awaited = record { queues = λ l. []; waiters = λ l. 10 ∷ 12 ∷ []; messages = λ p. some (wait_at p) }

-- The descriptor 3 is open. The system answers 4 and 5, and there is no thread.
abbrev held : Held
held = record { descriptors = 3 ∷ []; blocks = [] }

abbrev no_thread : Answers
no_thread = record {
  memory = 64;
  epoll = gives 4;
  eventfd = gives 5;
  ctl = 0;
  thread_fails = true;
  left = 11;
}

given : (fd e : ℕ) → gives fd ≢ fails e
given fd e h = cc h

start_lem_example :
    Nothing held (start no_thread held) ⊎ Started no_thread held (start no_thread held)
start_lem_example = start_lem no_thread held (λ e h. absurd (given 5 e h))

start-no_thread : start no_thread held ≡ (11, null, held)
unfolding start translate
start-no_thread = refl

-- The write to the eventfd fails.
abbrev unwritten : RunAnswers
unwritten = record { answers = no_thread; message = 64; write = 11 }

-- The post at 10 is a packet of loop 2.
abbrev ports : Ports
ports = record { packets = λ l. []; waiters = λ l. []; messages = λ p. some posted_message }

view-processor_example :
    (view_of (processor (λ v. 11) nothing (λ a v. v) 0 2 async_key 10 ports)
      ≡ Async.handle
          (λ w. 11)
          nothing
          (λ a w. w)
          0
          false
          2
          post_handler
          10
          posted_message
          (view ports))
    × (view_of (processor (λ v. 11) nothing (λ a v. v) 0 2 notifier_key 10 ports)
        ≡ Async.handle
            (λ w. 11)
            nothing
            (λ a w. w)
            0
            false
            2
            wait_handler
            10
            posted_message
            (view ports))
view-processor_example =
    view-processor (λ v. 11) (λ w. 11) (λ v. refl) nothing (λ a v. v) (λ a w. w) (λ a v. refl) 0 2
      10 posted_message ports (some_node 9) refl refl (λ e. cc e)

-- A loop gets an event at the time 2000; a timeout of 5 ms waits in the list 6.
abbrev no_timers : Timers
no_timers = record {
  root = null;
  nodes = λ p. some (rb null null null black);
  lists = λ l. some (list_of 5 (20 ∷ []));
  timers = λ p. some (new_timer 3);
  version = 0;
  processing = false;
}

abbrev base : Base
base = record {
  sleeps = no_timers;
  idles = no_timers;
  timeouts = record no_timers { root = 6 };
  now = 1000;
  last_activity = 0;
}

one_event : ℕ → Base → Polled
one_event t b = ready (7 ∷ [])

first_list : Rbtree.first 8 6 no_timers.nodes ≡ some (6, no_timers.nodes)
unfolding Rbtree.first load
first_list = refl

no_next : Rbtree.next 8 6 no_timers.nodes ≡ some (null, no_timers.nodes)
unfolding Rbtree.next load
no_next = refl

base-Reached : Reached 8 (record no_timers { root = 6 })
base-Reached = record {
  first = 6;
  lists = 6 ∷ [];
  found = first_list;
  walk = then_next 6 null [] (some_node 5) no_next end_of_walk;
  filled = (
    record {
      period = 5;
      oldest = 20;
      others = [];
      contents = λ q. new_timer 3;
      list = refl;
      some_time = omega arith;
      timers = λ q i. refl;
      distinct = (some_node 19, refl, tt);
      few = omega arith;
    },
    tt,
  );
  few = omega arith;
}

quiet_sleeps :
    process_sleeps (λ b. 2000) one_event (λ e b. b) (λ k t. t) (λ b. b) 8 9 base ≡ some base
unfolding process_sleeps Process.process Rbtree.first
quiet_sleeps = refl

base_timeout : calculate_wait_timeout 8 base.sleeps base.idles base.timeouts base.now ≡ some 1000
unfolding calculate_wait_timeout Process.nearest_event Rbtree.first load
base_timeout = refl

busy-no_timeout_example :
    round (λ b. 2000) one_event (λ e b. b) (λ k t. t) (λ b. b) 8 9 base
    ≡ some (true, record base { now = 2000; last_activity = 2000 })
unfolding dispatch look one_event
busy-no_timeout_example =
    busy-no_timeout (λ b. 2000) one_event (λ e b. b) (λ k t. t) (λ b. b) 8 9 base base 1000 7 []
      quiet_sleeps base_timeout refl (omega arith) base-Reached
