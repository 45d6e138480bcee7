-- ===== src/Http/Request/Refine.antt =====
-- The callbacks of http/src/http_parse.c carry out the phases, for every order of calls that
-- http_parser produces.
use libapi.Base.{
  ℕ, ◌+◌, ◌*◌, ◌<◌, ◌≤◌, ◌≡◌, refl, List, [], ◌∷◌, ◌++◌, true, false, Option, none, some, length,
  length-append, Option-cases, inl, inr, arith, u64_mod,
}
use mathlib.Core.Path.{subst}
use libapi.Http.Buffer.{Bytes, Buffer, Malloc, empty, c_string}
use libapi.Http.Buffer.Write.{NulFree}
use libapi.Http.Buffer.Concat.{Stores, Succeeds, concat_lem, c_string-Stores}
use libapi.Http.Request.{
  Header, Context, state_url, state_header_name, no_header, Event, url, field, value,
  headers_complete, on_url, on_header_field, on_header_value, on_headers_complete, take_url,
  put_header, take_header, new_header, name_header, complete, step, run,
}
use libapi.Http.Request.Phase.{
  Pairs, Phase, start, in_url, in_name, in_value, finished, advance, advances,
}

-- A pointer to a block whose C string is `t`.
abbrev pub Stands : Option Bytes → Bytes → Type 0
Stands o t = (d : Bytes) × (o ≡ some d) × (c_string d ≡ t)

abbrev pub HeadersStand : List Header → Pairs → Type 0
HeadersStand [] [] = Unit {0}
HeadersStand (h ∷ hs) ((n, v) ∷ ps) = Stands h.name n × Stands h.value v × HeadersStand hs ps
HeadersStand _ _ = ⊥

-- The context `c` is in a phase.
abbrev pub Represents : Context → Phase → Type 0
Represents c start =
    (c.state ≡ state_url)
    × (c.header ≡ none)
    × (c.last_was_value ≡ false)
    × (c.request.headers ≡ [])
    × (c.buffer.text ≡ none)
Represents c (in_url u) =
    (c.state ≡ state_url)
    × (c.header ≡ none)
    × (c.last_was_value ≡ false)
    × (c.request.headers ≡ [])
    × Stores c.buffer u
Represents c (in_name u ps n) =
    (c.state ≡ state_header_name)
    × ((h : Header) × (c.header ≡ some h))
    × (c.last_was_value ≡ false)
    × Stands c.request.url u
    × HeadersStand c.request.headers ps
    × Stores c.buffer n
Represents c (in_value u ps n v) =
    (c.state ≡ state_header_name)
    × ((h : Header) × (c.header ≡ some h) × Stands h.name n)
    × (c.last_was_value ≡ true)
    × Stands c.request.url u
    × HeadersStand c.request.headers ps
    × Stores c.buffer v
Represents c (finished u ps) =
    (c.headers_done ≡ true)
    × Stands c.request.url u
    × HeadersStand c.request.headers ps
    × (c.header ≡ none)
    × (c.buffer ≡ empty)

Stores-Stands : (b : Buffer) (t : Bytes) → Stores b t → Stands b.text t
Stores-Stands b t st = (t ++ 0 ∷ st.spare, st.block, c_string-Stores b t _ st st.block)

-- A callback that ends with `concat` returns, and leaves its context in the given phase.
abbrev Goes : Option Context → Phase → Type 0
Goes o q = (c : Context) × (o ≡ some c) × Represents c q

module _ (malloc : Malloc) (limit : ℕ) (ok : Succeeds malloc limit) (wide : limit ≤ u64_mod)
    (c : Context) (at : Bytes) (f : NulFree at) where
  on_url-start :
      Represents c start
      → 2 * length at + 1 < limit
      → Goes (on_url malloc c at (length at)) (in_url at)
  unfolding on_url
  on_url-start (es, eh, el, er, eb) h =
      let (b, e, st) = concat_lem malloc limit c.buffer none at ok wide (omega arith) f eb in
      (record c { state = state_url; buffer = b }, rw e, (refl, eh, el, er, st))

  on_url-in_url :
      (u : Bytes)
      → Represents c (in_url u)
      → length u + 2 * length at + 1 < limit
      → Goes (on_url malloc c at (length at)) (in_url (u ++ at))
  unfolding on_url
  on_url-in_url u (es, eh, el, er, eb) h =
      let (b, e, st) = concat_lem malloc limit c.buffer (some u) at ok wide h f eb in
      (record c { state = state_url; buffer = b }, rw e, (refl, eh, el, er, st))

  field-in_url :
      (u : Bytes)
      → Represents c (in_url u)
      → 2 * length at + 1 < limit
      → Goes (on_header_field malloc c at (length at)) (in_name u [] at)
  unfolding on_header_field take_url take_header new_header
  field-in_url u (es, eh, el, er, eb) h =
      let (b, e, st) = concat_lem malloc limit empty none at ok wide (omega arith) f refl in
      (
        record c {
          request = record (c.request) { url = c.buffer.text };
          header = some no_header;
          state = state_header_name;
          buffer = b;
        },
        rw (es, el, eh, e),
        (refl, (no_header, refl), el, Stores-Stands c.buffer u eb, rw er tt, st),
      )

  field-in_name :
      (u : Bytes) (ps : Pairs) (n : Bytes)
      → Represents c (in_name u ps n)
      → length n + 2 * length at + 1 < limit
      → Goes (on_header_field malloc c at (length at)) (in_name u ps (n ++ at))
  unfolding on_header_field take_url take_header new_header
  field-in_name u ps n (es, (hd, eh), el, eu, ep, eb) h =
      let (b, e, st) = concat_lem malloc limit c.buffer (some n) at ok wide h f eb in
      (
        record c { state = state_header_name; buffer = b },
        simp (es, el, eh, e),
        (refl, (hd, eh), el, eu, ep, st),
      )

  field-in_value :
      (u : Bytes) (ps : Pairs) (n v : Bytes)
      → Represents c (in_value u ps n v)
      → 2 * length at + 1 < limit
      → Goes (on_header_field malloc c at (length at)) (in_name u ((n, v) ∷ ps) at)
  unfolding on_header_field take_url take_header new_header put_header
  field-in_value u ps n v (es, (hd, eh, en), el, eu, ep, eb) h =
      let (b, e, st) = concat_lem malloc limit empty none at ok wide (omega arith) f refl in
      (
        record c {
          request = record (c.request) {
            headers = record hd { value = c.buffer.text } ∷ c.request.headers;
          };
          header = some no_header;
          state = state_header_name;
          buffer = b;
          last_was_value = false;
        },
        simp (es, el, eh, e),
        (refl, (no_header, refl), refl, eu, (en, Stores-Stands c.buffer v eb, ep), st),
      )

  value-in_name :
      (u : Bytes) (ps : Pairs) (n : Bytes)
      → Represents c (in_name u ps n)
      → 2 * length at + 1 < limit
      → Goes (on_header_value malloc c at (length at)) (in_value u ps n at)
  unfolding on_header_value name_header
  value-in_name u ps n (es, (hd, eh), el, eu, ep, eb) h =
      let (b, e, st) = concat_lem malloc limit empty none at ok wide (omega arith) f refl in
      let named = record hd { name = c.buffer.text } in
      (
        record c { header = some named; last_was_value = true; buffer = b },
        rw (el, eh, e),
        (es, (named, refl, Stores-Stands c.buffer n eb), refl, eu, ep, st),
      )

  value-in_value :
      (u : Bytes) (ps : Pairs) (n v : Bytes)
      → Represents c (in_value u ps n v)
      → length v + 2 * length at + 1 < limit
      → Goes (on_header_value malloc c at (length at)) (in_value u ps n (v ++ at))
  unfolding on_header_value name_header
  value-in_value u ps n v (es, eh, el, eu, ep, eb) h =
      let (b, e, st) = concat_lem malloc limit c.buffer (some v) at ok wide h f eb in
      (record c { last_was_value = true; buffer = b }, rw (el, e), (es, eh, refl, eu, ep, st))

complete-in_url :
    (c : Context) (u : Bytes)
    → Represents c (in_url u)
    → Represents (on_headers_complete c) (finished u [])
unfolding on_headers_complete complete
complete-in_url c u (es, eh, el, er, eb) =
    rw eh (refl, Stores-Stands c.buffer u eb, rw er tt, refl, refl)

complete-in_value :
    (c : Context) (u : Bytes) (ps : Pairs) (n v : Bytes)
    → Represents c (in_value u ps n v)
    → Represents (on_headers_complete c) (finished u ((n, v) ∷ ps))
unfolding on_headers_complete complete
complete-in_value c u ps n v (es, (hd, eh, en), el, eu, ep, eb) =
    rw eh (refl, eu, (en, Stores-Stands c.buffer v eb, ep), refl, refl)

-- The text in the buffer, and the text of an event.
unfoldable pub pending : Phase → ℕ
pending start = 0
pending (in_url u) = length u
pending (in_name u ps n) = length n
pending (in_value u ps n v) = length v
pending (finished u ps) = 0

abbrev pub event_text : Event → Bytes
event_text (url t) = t
event_text (field t) = t
event_text (value t) = t
event_text headers_complete = []

-- The phase is the one that `advance` names.
at_phase : (o : Option Context) (p q : Phase) → some p ≡ some q → Goes o p → Goes o q
at_phase o p q e g = let e' : p ≡ q = cc e in subst (λ r. Goes o r) e' g

-- One call takes a context from the phase it is in to the next phase.
pub step-advance :
    (malloc : Malloc) (limit : ℕ) (c : Context) (p : Phase) (e : Event) (q : Phase)
    → Succeeds malloc limit
    → limit ≤ u64_mod
    → NulFree (event_text e)
    → pending p + 2 * length (event_text e) + 1 < limit
    → advance p e ≡ some q
    → Represents c p
    → (c' : Context) × (step malloc c e ≡ some c') × Represents c' q
unfolding step pending
step-advance malloc limit c start (url t) q ok wide f h a r =
    at_phase _ _ q a (on_url-start malloc limit ok wide c t f r (omega arith))
step-advance malloc limit c (in_url u) (url t) q ok wide f h a r =
    at_phase _ _ q a (on_url-in_url malloc limit ok wide c t f u r h)
step-advance malloc limit c (in_url u) (field t) q ok wide f h a r =
    at_phase _ _ q a (field-in_url malloc limit ok wide c t f u r (omega arith))
step-advance malloc limit c (in_name u ps n) (field t) q ok wide f h a r =
    at_phase _ _ q a (field-in_name malloc limit ok wide c t f u ps n r h)
step-advance malloc limit c (in_value u ps n v) (field t) q ok wide f h a r =
    at_phase _ _ q a (field-in_value malloc limit ok wide c t f u ps n v r (omega arith))
step-advance malloc limit c (in_name u ps n) (value t) q ok wide f h a r =
    at_phase _ _ q a (value-in_name malloc limit ok wide c t f u ps n r (omega arith))
step-advance malloc limit c (in_value u ps n v) (value t) q ok wide f h a r =
    at_phase _ _ q a (value-in_value malloc limit ok wide c t f u ps n v r h)
step-advance malloc limit c (in_url u) headers_complete q ok wide f h a r =
    at_phase _ _ q a (on_headers_complete c, refl, complete-in_url c u r)
step-advance malloc limit c (in_value u ps n v) headers_complete q ok wide f h a r =
    at_phase _ _ q a (on_headers_complete c, refl, complete-in_value c u ps n v r)
step-advance malloc limit c _ _ q ok wide f h a r = cc

-- The length of all texts of a run.
unfoldable pub total : List Event → ℕ
total [] = 0
total (e ∷ es) = length (event_text e) + total es

abbrev pub AllNulFree : List Event → Type 0
AllNulFree [] = Unit {0}
AllNulFree (e ∷ es) = NulFree (event_text e) × AllNulFree es

pending_at : (m q : Phase) (n : ℕ) → some m ≡ some q → pending m ≤ n → pending q ≤ n
pending_at m q n e h = let e' : m ≡ q = cc e in rw (← e') h

pending-advance :
    (p : Phase) (e : Event) (q : Phase)
    → advance p e ≡ some q
    → pending q ≤ pending p + length (event_text e)
unfolding pending
pending-advance start (url t) q a = pending_at (in_url t) q _ a (omega arith)
pending-advance (in_url u) (url t) q a =
    pending_at (in_url (u ++ t)) q _ a (omega (arith, length-append u t))
pending-advance (in_url u) (field t) q a = pending_at (in_name u [] t) q _ a (omega arith)
pending-advance (in_name u ps n) (field t) q a =
    pending_at (in_name u ps (n ++ t)) q _ a (omega (arith, length-append n t))
pending-advance (in_value u ps n v) (field t) q a =
    pending_at (in_name u ((n, v) ∷ ps) t) q _ a (omega arith)
pending-advance (in_name u ps n) (value t) q a = pending_at (in_value u ps n t) q _ a (omega arith)
pending-advance (in_value u ps n v) (value t) q a =
    pending_at (in_value u ps n (v ++ t)) q _ a (omega (arith, length-append v t))
pending-advance (in_url u) headers_complete q a = pending_at (finished u []) q _ a (omega arith)
pending-advance (in_value u ps n v) headers_complete q a =
    pending_at (finished u ((n, v) ∷ ps)) q _ a (omega arith)
pending-advance _ _ q a = cc

then_run :
    (malloc : Malloc) (c : Context) (e : Event) (es : List Event) (c1 : Context) (q : Phase)
    → step malloc c e ≡ some c1
    → Goes (run malloc c1 es) q
    → Goes (run malloc c (e ∷ es)) q
unfolding run
then_run malloc c e es c1 q s (c2, r, rep) = (c2, rw s r, rep)

-- The calls for a whole request, run from a context in phase `p`.
pub run-advances :
    (malloc : Malloc) (limit : ℕ) (c : Context) (p : Phase) (es : List Event) (q : Phase)
    → Succeeds malloc limit
    → limit ≤ u64_mod
    → AllNulFree es
    → pending p + 2 * total es + 1 < limit
    → advances p es ≡ some q
    → Represents c p
    → (c' : Context) × (run malloc c es ≡ some c') × Represents c' q
unfolding run total advances
run-advances malloc limit c p [] q ok wide f h a r = at_phase _ _ q a (c, refl, r)
run-advances malloc limit c p (e ∷ es) q ok wide f h a r = elim (Option-cases (advance p e)) [
  | inl none_e ↦ cc ((rw none_e at a))
  | inr (m, em) ↦
      let (c1, s, r1) = step-advance malloc limit c p e m ok wide f.0 (omega arith) em r in
      then_run malloc c e es c1 q s (
        run-advances malloc limit c1 m es q ok wide f.1 (omega (arith, pending-advance p e m em))
          (rw em at a) r1)
]
