-- ===== src/WinStream/Writes.antt =====
-- What `api_stream_on_write` of api/src/win/api_stream.c gives to the system in several rounds.
use libapi.Base.{
  ℕ, ◌+◌, ◌≤◌, ◌<◌, ◌≡◌, ◌≢◌, refl, sym, ap, ◌∙◌, List, [], ◌∷◌, ◌++◌, Bool, true, false, ◌&&◌,
  none, ltb, if◌then◌else◌, length, take, drop, add64, arith, map, append_assoc, append-nil,
  take-append-drop, drop_all, ne→not_==, zero, suc,
}
use libapi.Memory.{Ptr}
use libapi.Stream.{Bytes}
use libapi.Device.Socket.{write_failed}
use libapi.Device.Life.{StreamType, file_stream, tcp_stream}
use libapi.WinStream.{
  Request, WinStream, Answer, took, is_file, Begun, returns, piece, end_write, end_round, accept,
  rounds, begin_write,
}

-- Rounds from an offset on that take `ns` bytes each, the last of which reaches the length.
abbrev pub Reach : ℕ → ℕ → List ℕ → Type 0
Reach len offset [] = 1 ≤ 0
Reach len offset (n ∷ []) = (0 < n) × (len ≤ offset + n)
Reach len offset (n ∷ m ∷ ns) = (0 < n) × (offset + n < len) × Reach len (offset + n) (m ∷ ns)

abbrev pub total : List ℕ → ℕ
total [] = 0
total (n ∷ ns) = n + total ns

-- What the system takes in those rounds.
unfoldable pub pieces : StreamType → Bytes → ℕ → List ℕ → Bytes
unfolding piece
pieces type bs offset [] = []
pieces type bs offset (n ∷ ns) = take n (piece type bs offset) ++ pieces type bs (offset + n) ns

zero_plus : (n : ℕ) → 0 + n ≡ n
zero_plus n = omega arith

plus_zero : (n : ℕ) → n + 0 ≡ n
plus_zero n = omega arith

and_false : (b : Bool) → (b && false) ≡ false
and_false true = refl
and_false false = refl

-- A round after which there is no failure.
fine_round :
    (bs : Bytes) (offset n : ℕ) (w : Request) (s : WinStream)
    → write_failed s.status ≡ false
    → (s' : WinStream) × (end_round false bs offset (record w { done = n }) (accept bs offset n s)
        ≡ (ltb (offset + n) (length bs) && ltb 0 n, s', offset + n))
      × (s'.status ≡ s.status)
      × (s'.type ≡ s.type)
      × (s'.sent ≡ s.sent ++ take n (piece s.type bs offset))
unfolding end_round
fine_round bs offset n w s f = (
  record (accept bs offset n s) {
    write_offset = if is_file s.type then add64 s.write_offset n else s.write_offset;
  },
  rw (f, and_false (ltb 0 s.write_timeout)) refl,
  refl,
  refl,
  refl,
)

abbrev finished : ℕ → Request → WinStream → Begun
finished offset w s = returns (end_write false offset w s).0 (end_write false offset w s).1

rounds-took :
    (n : ℕ) (answers : List Answer) (bs : Bytes) (offset k : ℕ) (w : Request) (s s' : WinStream)
    (b : Bool)
    → end_round false bs offset (record w { done = n }) (accept bs offset n s) ≡ (b, s', k)
    → rounds (took n ∷ answers) bs offset w s ≡ (
        if b
        then rounds answers bs k (record w { done = n }) s'
        else finished k (record w { done = n }) s')
unfolding rounds
rounds-took n answers bs offset k w s s' b e =
    ap
      (λ (r : Bool × WinStream × ℕ).
        if r.0
        then rounds answers bs r.2 (record w { done = n }) r.1
        else finished r.2 (record w { done = n }) r.1)
      e

finished_lem :
    (offset : ℕ) (w : Request) (s : WinStream)
    → (s' : WinStream) × (finished offset w s ≡ returns offset s')
      × (s'.status ≡ s.status)
      × (s'.sent ≡ s.sent)
unfolding end_write
finished_lem offset w s = (
  record s { writing = none; write_bandwidth = add64 s.write_bandwidth w.done },
  rw (and_false (ltb 0 s.write_timeout)) refl,
  refl,
  refl,
)

-- The result of some rounds: the bytes that are counted, and those that the system has taken.
abbrev Took : Begun → ℕ → Bytes → Type 0
Took b n sent = (s : WinStream) × (b ≡ returns n s) × (s.sent ≡ sent)

rounds_lem :
    (ns : List ℕ) (bs : Bytes) (offset : ℕ) (w : Request) (s : WinStream)
    → write_failed s.status ≡ false
    → Reach (length bs) offset ns
    → Took
        (rounds (map took ns) bs offset w s)
        (offset + total ns)
        (s.sent ++ pieces s.type bs offset ns)
unfolding pieces
rounds_lem [] bs offset w s f r = absurd (omega arith)
rounds_lem (n ∷ []) bs offset w s f r =
    let (s1, e, status, type, sent) = fine_round bs offset n w s f in
    let (s2, e2, status2, sent2) = finished_lem (offset + n) (record w { done = n }) s1 in
    let last : (ltb (offset + n) (length bs) && ltb 0 n) ≡ false = ground arith in
    (
      s2,
      rounds-took n [] bs offset (offset + n) w s s1 false (e ∙ rw last refl)
          ∙ e2
          ∙ ap (λ k. returns (offset + k) s2) (sym (plus_zero n)),
      sent2 ∙ sent ∙ ap (λ x. s.sent ++ x) (sym (append-nil _)),
    )
rounds_lem (n ∷ m ∷ ns) bs offset w s f r =
    let (s1, e, status, type, sent) = fine_round bs offset n w s f in
    let more : (ltb (offset + n) (length bs) && ltb 0 n) ≡ true = ground (arith, r.0, r.1) in
    let (s2, e2, sent2) =
      rounds_lem (m ∷ ns) bs (offset + n) (record w { done = n }) s1 (ap write_failed status ∙ f)
        r.2 in
    (
      s2,
      rounds-took n (map took (m ∷ ns)) bs offset (offset + n) w s s1 true (e ∙ rw more refl)
          ∙ e2
          ∙ ap (λ k. returns k s2) (plus_assoc offset n (total (m ∷ ns))),
      sent2
          ∙ ap (λ x. x ++ pieces s1.type bs (offset + n) (m ∷ ns)) sent
          ∙ append_assoc s.sent _ _
          ∙ ap
              (λ t.
                s.sent ++ (take n (piece s.type bs offset) ++ pieces t bs (offset + n) (m ∷ ns)))
              type,
    )
  where
    plus_assoc : (a b c : ℕ) → (a + b) + c ≡ a + (b + c)
    plus_assoc a b c = omega arith

begin-rounds :
    (bs : Bytes) (task : Ptr) (answers : List Answer) (s : WinStream)
    → length bs ≢ 0
    → write_failed s.status ≡ false
    → s.loop_terminated ≡ false
    → begin_write bs task answers s ≡ rounds answers bs 0 (record { done = 0; task = task }) s
unfolding begin_write
begin-rounds bs task answers s n f t = rw (ne→not_== (length bs) 0 n, f, t) refl

drop-drop : (m n : ℕ) (bs : Bytes) → drop n (drop m bs) ≡ drop (m + n) bs
drop-drop zero n bs = ap (λ k. drop k bs) (sym (zero_plus n))
drop-drop (suc m) n [] = drop_all n [] (omega arith) ∙ sym (drop_all (suc m + n) [] (omega arith))
drop-drop (suc m) n (b ∷ bs) = drop-drop m n bs ∙ ap (λ k. drop k (b ∷ bs)) (suc_plus m n)
  where
    suc_plus : (m n : ℕ) → suc (m + n) ≡ suc m + n
    suc_plus m n = omega arith

pieces-file :
    (ns : List ℕ) (bs : Bytes) (offset : ℕ)
    → offset + total ns ≡ length bs
    → pieces file_stream bs offset ns ≡ drop offset bs
unfolding pieces piece
pieces-file [] bs offset e = sym (drop_all offset bs (omega arith))
pieces-file (n ∷ ns) bs offset e =
    ap (λ x. take n (drop offset bs) ++ x)
      (pieces-file ns bs (offset + n) (omega arith) ∙ sym (drop-drop offset n bs))
    ∙ take-append-drop n (drop offset bs)

-- A write to a file that the system takes in any number of rounds gives it the whole buffer once, in order,
-- and returns its length. The stream has not failed, and every round takes a byte at least.
pub file_write-whole :
    (ns : List ℕ) (bs : Bytes) (task : Ptr) (s : WinStream)
    → s.type ≡ file_stream
    → length bs ≢ 0
    → write_failed s.status ≡ false
    → s.loop_terminated ≡ false
    → Reach (length bs) 0 ns
    → total ns ≡ length bs
    → (s' : WinStream) × (begin_write bs task (map took ns) s ≡ returns (length bs) s')
      × (s'.sent ≡ s.sent ++ bs)
file_write-whole ns bs task s type n f t r e =
    let (s', done, sent) = rounds_lem ns bs 0 (record { done = 0; task = task }) s f r in
    (
      s',
      begin-rounds bs task (map took ns) s n f t
          ∙ done
          ∙ ap (λ k. returns k s') (zero_plus (total ns) ∙ e),
      sent
          ∙ ap (λ x. s.sent ++ pieces x bs 0 ns) type
          ∙ ap (λ x. s.sent ++ x) (pieces-file ns bs 0 (zero_plus (total ns) ∙ e)),
    )

-- Pieces of which each is from the start of the buffer.
abbrev pub from_start : Bytes → List ℕ → Bytes
from_start bs [] = []
from_start bs (n ∷ ns) = take n bs ++ from_start bs ns

pieces-tcp :
    (ns : List ℕ) (bs : Bytes) (offset : ℕ) → pieces tcp_stream bs offset ns ≡ from_start bs ns
unfolding pieces piece
pieces-tcp [] bs offset = refl
pieces-tcp (n ∷ ns) bs offset = ap (λ x. take n bs ++ x) (pieces-tcp ns bs (offset + n))

-- A write to a socket that the system takes in several rounds gives it the start of the buffer in each of
-- them and not what is left, and returns their sum.
pub tcp_write-from_start :
    (ns : List ℕ) (bs : Bytes) (task : Ptr) (s : WinStream)
    → s.type ≡ tcp_stream
    → length bs ≢ 0
    → write_failed s.status ≡ false
    → s.loop_terminated ≡ false
    → Reach (length bs) 0 ns
    → (s' : WinStream) × (begin_write bs task (map took ns) s ≡ returns (total ns) s')
      × (s'.sent ≡ s.sent ++ from_start bs ns)
tcp_write-from_start ns bs task s type n f t r =
    let (s', done, sent) = rounds_lem ns bs 0 (record { done = 0; task = task }) s f r in
    (
      s',
      begin-rounds bs task (map took ns) s n f t
          ∙ done
          ∙ ap (λ k. returns k s') (zero_plus (total ns)),
      sent ∙ ap (λ x. s.sent ++ pieces x bs 0 ns) type ∙ ap (λ x. s.sent ++ x) (pieces-tcp ns bs 0),
    )
