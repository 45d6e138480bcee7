-- ===== src/Loop/Start/Failures.antt =====
-- What `api_loop_start` and `api_loop_run` of api/src/unix/api_loop.c hold when they fail.
use mathlib.Core.Path.{subst}
use libapi.Base.{
  ℕ, ◌≡◌, ◌≢◌, refl, sym, ap, ◌∙◌, ◌⊎◌, inl, inr, List, ◌∷◌, false, ◌==◌, arith, leb, ◌<◌, ◌^◌, ◌%◌,
  Bool-cases, not_==→ne, ne→not_==, ==_refl,
}
use libapi.Memory.{Ptr, null}
use libapi.Errno.{api_ok, translate}
use libapi.Loop.Start.{
  Answer, gives, fails, Held, opened, without, close, free, Answers, async_init, loop_cleanup,
  start_with, start_from, start, RunAnswers, Begun, runs, returns, first_post, run_with, run_from,
  run,
}

without_first : (x : ℕ) (xs : List ℕ) → without x (x ∷ xs) ≡ xs
unfolding without
without_first x xs = rw (==_refl x) refl

pub close-opened : (fd : ℕ) (h : Held) → close fd (opened fd h) ≡ h
unfolding close
close-opened fd h = ap (λ ds. record h { descriptors = ds }) (without_first fd h.descriptors)

cleanup-opened : (fd : ℕ) (h : Held) → loop_cleanup (gives fd) (opened fd h) ≡ h
unfolding loop_cleanup
cleanup-opened fd h = close-opened fd h

abbrev pub allocated : Ptr → Held → Held
allocated p h = record h { blocks = p ∷ h.blocks }

pub free-allocated : (p : Ptr) (h : Held) → free p (allocated p h) ≡ h
unfolding free
free-allocated p h = ap (λ bs. record h { blocks = bs }) (without_first p h.blocks)

translate_nonzero : (e : ℕ) → e ≢ 0 → translate e ≢ api_ok
unfolding translate
translate_nonzero e h = λ t. ground arith

-- A loop's eventfd is there, or nothing has changed.
async_init_lem :
    (a : Answer) (ctl : ℕ) (h : Held)
    → ((e : ℕ) → a ≡ fails e → e ≢ 0)
    → (((async_init a ctl h).0 ≢ api_ok) × ((async_init a ctl h).1 ≡ h))
      ⊎ ((fd : ℕ) × (a ≡ gives fd) × (async_init a ctl h ≡ (api_ok, opened fd h)))
unfolding async_init
async_init_lem (fails e) ctl h n = inl (translate_nonzero e (n e refl), refl)
async_init_lem (gives fd) ctl h n = elim (Bool-cases (ctl == 0)) [
  | inl t ↦ rw t (inr (fd, refl, refl))
  | inr t ↦ rw t (inl (translate_nonzero ctl (not_==→ne ctl 0 t), close-opened fd h))
]

-- The result, the loop and what is held, where no loop has come to be.
abbrev pub Nothing : Held → ℕ × Ptr × Held → Type 0
Nothing h r = (r.1 ≡ null) × (r.2 ≡ h)

abbrev pub Started : Answers → Held → ℕ × Ptr × Held → Type 0
Started a h r =
    (ep fd : ℕ) × (a.epoll ≡ gives ep)
    × (a.eventfd ≡ gives fd)
    × (r ≡ (
      api_ok,
      a.memory,
      record { descriptors = fd ∷ ep ∷ h.descriptors; blocks = a.memory ∷ h.blocks },
    ))

pub released :
    (p : Ptr) (ep : ℕ) (h g : Held) → g ≡ opened ep (allocated p h) → free p (close ep g) ≡ h
released p ep h g e =
    ap (λ x. free p (close ep x)) e
    ∙ ap (free p) (close-opened ep (allocated p h))
    ∙ free-allocated p h

start_with_lem :
    (a : Answers) (ep : ℕ) (h : Held)
    → ((e : ℕ) → a.eventfd ≡ fails e → e ≢ 0)
    → a.epoll ≡ gives ep
    → let r = start_with a ep (opened ep (allocated a.memory h)) in Nothing h r ⊎ Started a h r
unfolding start_with
start_with_lem a ep h n e =
    elim (async_init_lem a.eventfd a.ctl (opened ep (allocated a.memory h)) n) [
      | inl (bad, same) ↦ rw (ne→not_== _ _ bad) (inl (refl, released a.memory ep h _ same))
      | inr (fd, given, ok) ↦ elim (Bool-cases a.thread_fails) [
        | inl t ↦
            rw (ok, t)
              (inl (
                refl,
                released a.memory ep h _ (
                    ap (λ x. loop_cleanup x (opened fd (opened ep (allocated a.memory h)))) given
                    ∙ cleanup-opened fd (opened ep (allocated a.memory h))),
              ))
        | inr t ↦ rw (ok, t) (inr (ep, fd, e, given, refl))
      ]
    ]

start_from_lem :
    (a : Answers) (x : Answer) (h : Held)
    → ((e : ℕ) → a.eventfd ≡ fails e → e ≢ 0)
    → a.epoll ≡ x
    → let r = start_from a x (allocated a.memory h) in Nothing h r ⊎ Started a h r
unfolding start_from
start_from_lem a (fails e) h n d = inl (refl, free-allocated a.memory h)
start_from_lem a (gives ep) h n d = start_with_lem a ep h n d

-- Where `api_loop_start` gives no loop it holds nothing that it did not hold before; where it gives one,
-- that is the block that it has allocated, and besides it holds the epoll descriptor and the eventfd. A
-- failed `eventfd` leaves an error in `errno`.
pub start_lem :
    (a : Answers) (h : Held)
    → ((e : ℕ) → a.eventfd ≡ fails e → e ≢ 0)
    → Nothing h (start a h) ⊎ Started a h (start a h)
unfolding start
start_lem a h n = elim (Bool-cases (a.memory == null)) [
  | inl t ↦ rw t (inl (refl, refl))
  | inr t ↦ rw t (start_from_lem a a.epoll h n refl)
]

-- The system's errors are translated to themselves.
translate_same : (e : ℕ) → translate e ≡ e
unfolding translate
translate_same e = ground arith

-- A post that fails: no memory, or an error of `eventfd_write`.
post_fails :
    (a : RunAnswers) (h : Held)
    → (a.message ≡ null) ⊎ (a.write ≢ 0)
    → ((api_ok == (first_post a h).0) ≡ false) × ((first_post a h).1.descriptors ≡ h.descriptors)
unfolding first_post
post_fails a h (inl e) = rw e (refl, refl)
post_fails a h (inr n) = elim (Bool-cases (a.message == null)) [
  | inl t ↦ rw t (refl, refl)
  | inr t ↦
      rw (t, ne→not_== a.write 0 n)
        (ne→not_== api_ok _ (λ e. translate_nonzero a.write n (sym e)), refl)
]

abbrev pub Returned : Begun → Type 0
Returned b = (e : ℕ) × (b ≡ returns e)

init_ok :
    (a : Answers) (fd : ℕ) (h : Held)
    → a.eventfd ≡ gives fd
    → a.ctl ≡ 0
    → async_init a.eventfd a.ctl h ≡ (api_ok, opened fd h)
unfolding async_init
init_ok a fd h e z = ap (λ x. async_init x a.ctl h) e ∙ ap (λ c. async_init (gives fd) c h) z

second_closed :
    (ep fd : ℕ) (h g : Held)
    → ep ≢ fd
    → g.descriptors ≡ fd ∷ ep ∷ h.descriptors
    → (close ep g).descriptors ≡ fd ∷ h.descriptors
unfolding close without
second_closed ep fd h g n e = rw (e, ne→not_== ep fd n, ==_refl ep) refl

run_with-leaks :
    (a : RunAnswers) (ep fd : ℕ) (callback : Ptr) (h : Held)
    → a.answers.eventfd ≡ gives fd
    → a.answers.ctl ≡ 0
    → ep ≢ fd
    → callback ≢ null
    → (a.message ≡ null) ⊎ (a.write ≢ 0)
    → Returned (run_with a ep callback (opened ep h)).0
      × ((run_with a ep callback (opened ep h)).1.descriptors ≡ fd ∷ h.descriptors)
unfolding run_with
run_with-leaks a ep fd callback h e z n c f =
    let (bad, kept) = post_fails a (opened fd (opened ep h)) f in
    rw (init_ok a.answers fd (opened ep h) e z, ne→not_== callback null c, bad)
      ((_, refl), second_closed ep fd h (first_post a (opened fd (opened ep h))).1 n kept)

-- Where the first post of `api_loop_run` fails the call returns an error, and the eventfd of its loop
-- stays open. The two descriptors of the loop are different.
pub run-leaks :
    (a : RunAnswers) (ep fd : ℕ) (callback : Ptr) (h : Held)
    → a.answers.epoll ≡ gives ep
    → a.answers.eventfd ≡ gives fd
    → a.answers.ctl ≡ 0
    → ep ≢ fd
    → callback ≢ null
    → (a.message ≡ null) ⊎ (a.write ≢ 0)
    → Returned (run a callback h).0 × ((run a callback h).1.descriptors ≡ fd ∷ h.descriptors)
unfolding run run_from
run-leaks a ep fd callback h g e z n c f =
    subst
      (λ x.
        Returned (run_from a x callback h).0
        × ((run_from a x callback h).1.descriptors ≡ fd ∷ h.descriptors))
      (sym g) (run_with-leaks a ep fd callback h e z n c f)

-- Where `eventfd` fails `api_loop_run` with no callback goes on to run a loop that no message can reach.
deaf :
    (a : RunAnswers) (ep e : ℕ) (h : Held)
    → a.answers.epoll ≡ gives ep
    → a.answers.eventfd ≡ fails e
    → e < 2 ^ 31
    → run a null h ≡ (runs, opened ep h)
unfolding run run_from run_with async_init
deaf a ep e h g f b =
    let small : leb (2 ^ 31) (e % 2 ^ 32) ≡ false = ground arith in
    rw (g, f, translate_same e, small) refl
