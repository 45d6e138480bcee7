-- ===== src/Device/FileWrites.antt =====
-- What `api_stream_file_on_write` of api/src/unix/api_stream.c puts into a file.
use libapi.Base.{
  ℕ, ◌+◌, ◌-◌, ◌≤◌, ◌<◌, ◌≡◌, ◌≢◌, refl, sym, ap, ◌∙◌, ◌⊎◌, inl, inr, List, [], ◌∷◌, ◌++◌,
  append_assoc, append-nil, Bool, true, false, not, ◌&&◌, Option, none, some, ◌==◌, ltb,
  if◌then◌else◌, length, length-append, length-take, length-drop, take, drop, take_all, drop_all,
  take-append-drop, add64, u64_mod, arith, Bool-cases, ltb→lt, not_ltb→le,
}
use mathlib.Core.Path.{subst}
use libapi.Stream.{Bytes, Status}
use libapi.Stream.Content.{drop_two}
use libapi.Device.Socket.{write_failed}
use libapi.Device.File.{
  File, put, Round, refused, woken, file_write_loop, end_file_write, file_write,
}

-- The system writes no more than it is asked to.
abbrev pub Honest : List Round → ℕ → Type 0
Honest [] left = Unit {0}
Honest (refused e ∷ rounds) left = Unit {0}
Honest (woken t s el error count ∷ rounds) left = (count ≤ left) × Honest rounds (left - count)

put_end : (bs content : Bytes) → put (length content) bs content ≡ content ++ bs
put_end bs content =
    ap (λ c. c ++ (bs ++ drop (length content + length bs) content))
      (take_all (length content) content (omega arith))
    ∙ ap (λ c. content ++ (bs ++ c)) (drop_all (length content + length bs) content (omega arith))
    ∙ ap (λ c. content ++ c) (append-nil bs)

-- The outcomes of a round: it ends the loop early, goes on, or is the last one.
round_cases :
    {X : Type 0} (t w e x l : Bool) (a d rest z r : Option X)
    → (if t
        then a
        else if w
        then a
        else if e
        then a
        else if not x
        then d
        else if l
        then rest
        else z)
      ≡ r
    → (a ≡ r) ⊎ ((d ≡ r) ⊎ (((l ≡ true) × (rest ≡ r)) ⊎ ((l ≡ false) × (z ≡ r))))
round_cases true w e x l a d rest z r h = inl h
round_cases false true e x l a d rest z r h = inl h
round_cases false false true x l a d rest z r h = inl h
round_cases false false false false l a d rest z r h = inr (inl h)
round_cases false false false true true a d rest z r h = inr (inr (inl (refl, h)))
round_cases false false false true false a d rest z r h = inr (inr (inr (refl, h)))

abbrev Answer : Type 0
Answer = ℕ × Bool × File

abbrev count_of : Option Answer → ℕ
count_of none = 0
count_of (some r) = r.0

-- The file ends where the next write goes.
record Tail (f : File) : Type 0 where
  at_end : f.write_offset ≡ length f.content

-- A write of `count` bytes at the end.
piece-Tail :
    (f : File) (s : Status) (bs : Bytes) (count : ℕ)
    → f.write_offset ≡ length f.content
    → count ≤ length bs
    → f.write_offset + count < u64_mod
    → (put f.write_offset (take count bs) f.content ≡ f.content ++ take count bs)
      × (add64 f.write_offset count ≡ length (put f.write_offset (take count bs) f.content))
piece-Tail f s bs count e h small =
    let p : put f.write_offset (take count bs) f.content ≡ f.content ++ take count bs =
      ap (λ o. put o (take count bs) f.content) e ∙ put_end (take count bs) f.content in
    let n = length-append f.content (take count bs) in
    let m = length-take count bs in (p, omega arith ∙ sym n ∙ ap length (sym p))

pieces :
    (before : Bytes) (done count : ℕ) (bs : Bytes) (next : ℕ)
    → next ≡ done + count
    → (before ++ take count (drop done bs)) ++ drop next bs ≡ before ++ drop done bs
pieces before done count bs next e =
    append_assoc before (take count (drop done bs)) (drop next bs)
    ∙ ap (λ b. before ++ (take count (drop done bs) ++ b))
        (ap (λ n. drop n bs) e ∙ sym (drop_two done count bs))
    ∙ ap (λ b. before ++ b) (take-append-drop count (drop done bs))

abbrev content_of : Option Answer → Bytes
content_of none = []
content_of (some r) = r.2.content

abbrev offset_of : Option Answer → ℕ
offset_of none = 0
offset_of (some r) = r.2.write_offset

early : (done n l : ℕ) → done ≡ n → n ≡ l → done < l → {A : Type 0} → A
early done n l e h k = absurd (omega arith)

loop-Tail :
    (rounds : List Round) (bs : Bytes) (done : ℕ) (f : File) (r : Answer)
    → file_write_loop rounds bs done f ≡ some r
    → r.0 ≡ length bs
    → done < length bs
    → f.write_offset ≡ length f.content
    → f.write_offset + (length bs - done) < u64_mod
    → length bs < u64_mod
    → Honest rounds (length bs - done)
    → (r.2.content ≡ f.content ++ drop done bs) × (r.2.write_offset ≡ length r.2.content)
unfolding file_write_loop
loop-Tail [] bs done f r h whole k e small wide honest = cc h
loop-Tail (refused n ∷ rounds) bs done f r h whole k e small wide honest =
    early done r.0 _ (ap count_of h) whole k
loop-Tail (woken t s el error count ∷ rounds) bs done f r h whole k e small wide honest =
    let len = length-drop done bs in
    let fits : count ≤ length (drop done bs) = let c = honest.0 in omega arith in
    let (content, offset) = piece-Tail f s (drop done bs) count e fits (omega arith) in
    let moved : add64 done count ≡ done + count = omega arith in
    elim (round_cases t (write_failed s) (ltb 0 f.device.write_timeout && el) (error == 0)
      (ltb (add64 done count) (length bs)) _ _ _ _ _ h) [
        | inl x ↦ early done r.0 _ (ap count_of x) whole k
        | inr (inl x) ↦ early done r.0 _ (ap count_of x) whole k
        | inr (inr (inl (l, x))) ↦
            let f2 : File = record f {
              device = record (f.device) { status = s };
              content = put f.write_offset (take count (drop done bs)) f.content;
              write_offset = add64 f.write_offset count;
            } in
            let less = ltb→lt _ _ l in
            let c = honest.0 in
            let moved_too : add64 f.write_offset count ≡ f.write_offset + count = omega arith in
            let (content', offset') =
              loop-Tail rounds bs (add64 done count) f2 r x whole less offset (omega arith) wide
                (subst (Honest rounds) (omega arith) (honest.1)) in
            (
              content'
                  ∙ ap (λ b. b ++ drop (add64 done count) bs) content
                  ∙ pieces f.content done count bs (add64 done count) moved,
              offset',
            )
        | inr (inr (inr (l, x))) ↦
            let more = not_ltb→le _ _ l in
            let c = honest.0 in
            let all = take_all count (drop done bs) (omega arith) in
            subst
              (λ (o : Option Answer).
                (content_of o ≡ f.content ++ drop done bs) × (offset_of o ≡ length (content_of o)))
              x (content ∙ ap (λ b. f.content ++ b) all, offset)
      ]

end-content :
    (done : ℕ) (elapsed : Bool) (f : File)
    → (((end_file_write done elapsed f).1).content ≡ f.content)
      × (((end_file_write done elapsed f).1).write_offset ≡ f.write_offset)
      × (((end_file_write done elapsed f).0 ≡ 0) ⊎ ((end_file_write done elapsed f).0 ≡ done))
unfolding end_file_write
end-content done elapsed f = elim (Bool-cases (ltb 0 f.device.write_timeout && elapsed)) [
  | inl e ↦ rw e (refl, refl, inl refl)
  | inr e ↦ rw e (refl, refl, inr refl)
]

abbrev answer_of : File → Option (ℕ × File) → ℕ × File
answer_of f none = (0, f)
answer_of f (some a) = a

count_is : {a b n : ℕ} → (a ≡ 0) ⊎ (a ≡ b) → a ≡ n → n ≢ 0 → b ≡ n
count_is (inl z) e h = absurd (h (sym e ∙ z))
count_is (inr q) e h = sym q ∙ e

-- The answer of a write, from that of its loop.
after_loop :
    (o : Option Answer) (n : ℕ) (f' : File)
    → (elim o [ none ↦ none | some r ↦ some (end_file_write (r.0) (r.1) (r.2)) ]) ≡ some (n, f')
    → n ≢ 0
    → (r : Answer) × (o ≡ some r)
      × (r.0 ≡ n)
      × (f'.content ≡ r.2.content)
      × (f'.write_offset ≡ r.2.write_offset)
after_loop none n f' h z = cc h
after_loop (some r) n f' h z =
    let e : end_file_write (r.0) (r.1) (r.2) ≡ (n, f') = ap (answer_of f') h in
    let (c, o, d) = end-content (r.0) (r.1) (r.2) in
    (
      r,
      refl,
      count_is d (ap (λ (a : ℕ × File). a.0) e) z,
      ap (λ (a : ℕ × File). a.1.content) (sym e) ∙ c,
      ap (λ (a : ℕ × File). a.1.write_offset) (sym e) ∙ o,
    )

-- A write that answers with some bytes has started.
started :
    (a b c : Bool) (x : Option (ℕ × File)) (f : File) (n : ℕ) (f' : File)
    → (if a then some (0, f) else if b then some (0, f) else if c then some (0, f) else x)
      ≡ some (n, f')
    → n ≢ 0
    → x ≡ some (n, f')
started true b c x f n f' h z = absurd (z (sym (ap (λ o. (answer_of f' o).0) h)))
started false true c x f n f' h z = absurd (z (sym (ap (λ o. (answer_of f' o).0) h)))
started false false true x f n f' h z = absurd (z (sym (ap (λ o. (answer_of f' o).0) h)))
started false false false x f n f' h z = h

some_length : (bs : Bytes) → bs ≢ [] → length bs ≢ 0
some_length [] h = absurd (h refl)
some_length (b ∷ bs) h = omega arith

begun :
    (rounds : List Round) (bs : Bytes) (f : File) (n : ℕ) (f' : File)
    → file_write rounds bs f ≡ some (n, f')
    → n ≢ 0
    → (elim (file_write_loop rounds bs 0 f) [
      | none ↦ none
      | some r ↦ some (end_file_write (r.0) (r.1) (r.2))
    ])
      ≡ some (n, f')
unfolding file_write
begun rounds bs f n f' h z =
    started (length bs == 0) (write_failed f.device.status) f.device.loop_terminated _ f n f' h z

-- A write to a file that returns the length of its buffer has put the whole buffer behind what the file
-- held, in however many rounds, and the next write goes behind that; if the writes of the stream go to
-- the end of the file, and the system writes no more than it is asked to.
pub file_write-appends :
    (rounds : List Round) (bs : Bytes) (f f' : File)
    → bs ≢ []
    → length bs < u64_mod
    → f.write_offset ≡ length f.content
    → f.write_offset + length bs < u64_mod
    → Honest rounds (length bs)
    → file_write rounds bs f ≡ some (length bs, f')
    → (f'.content ≡ f.content ++ bs) × (f'.write_offset ≡ length f'.content)
file_write-appends rounds bs f f' some_bytes wide e small honest h =
    let z = some_length bs some_bytes in
    let (r, loop, whole, content, offset) =
      after_loop (file_write_loop rounds bs 0 f) (length bs) f'
        (begun rounds bs f (length bs) f' h z) z in
    let (c, o) =
      loop-Tail rounds bs 0 f r loop whole (omega arith) e (omega arith) wide
        (subst (Honest rounds) (omega arith) honest) in
    (content ∙ c, offset ∙ o ∙ ap length (sym content))
