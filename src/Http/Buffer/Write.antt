-- ===== src/Http/Buffer/Write.antt =====
-- Writes into blocks, and the C string functions on text without null characters.
use libapi.Base.{
  ℕ, ◌+◌, ◌<◌, ◌≡◌, ◌≢◌, refl, ap, sym, ◌∙◌, [], ◌∷◌, ◌++◌, true, some, leb, length, take, drop,
  All, arith, take-append, drop-append, length-append, take-append-drop, length-take, length-drop,
  append_assoc, ne→not_==,
}
use libapi.Base.Fallible.{◌>>=◌}
use libapi.Http.Buffer.{Bytes, write_at, strcpy_bytes, strncpy_bytes, c_string}

-- No null character in it.
abbrev pub NulFree : Bytes → Type 0
NulFree = All (λ c. c ≢ 0)

drop_seam : (p m q : Bytes) (n : ℕ) → n ≡ length (p ++ m) → drop n (p ++ (m ++ q)) ≡ q
drop_seam p m q n e = rw (e, ← append_assoc p m q) (drop-append (p ++ m) q)

pub write_at-seam :
    (p m q bs : Bytes)
    → length m ≡ length bs
    → write_at (p ++ (m ++ q)) (length p) bs ≡ some (p ++ (bs ++ q))
unfolding write_at
write_at-seam p m q bs e =
    let fits : leb (length p + length bs) (length (p ++ (m ++ q))) ≡ true =
      ground (arith, length-append p (m ++ q), length-append m q) in
    rw (fits, take-append p (m ++ q))
      (ap (λ (r : Bytes). some (p ++ (bs ++ r)))
        (drop_seam p m q (length p + length bs) (omega (arith, length-append p m))))

pub cons_of_length : (q : Bytes) → 0 < length q → (y : ℕ) × (r : Bytes) × (q ≡ y ∷ r)
cons_of_length [] h = absurd (omega arith)
cons_of_length (y ∷ r) h = (y, r, refl)

fill_split :
    (p front : Bytes) (y : ℕ) (r bs m : Bytes)
    → m ≡ front ++ (y ∷ r)
    → length front ≡ length bs
    → (write_at (p ++ m) (length p) bs >>= λ d. write_at d (length p + length bs) (0 ∷ []))
      ≡ some ((p ++ bs) ++ 0 ∷ r)
fill_split p front y r bs m e lf =
    let seam : p ++ (bs ++ (y ∷ r)) ≡ (p ++ bs) ++ ((y ∷ []) ++ r) =
      sym (append_assoc p bs (y ∷ r)) in
    rw (e, write_at-seam p front (y ∷ r) bs lf, seam, ← length-append p bs)
      (write_at-seam (p ++ bs) (y ∷ []) r (0 ∷ []) refl)

-- Text and its terminator written behind `p`, over a longer stretch `m`; `r` is what is left.
abbrev pub Filled : Bytes → Bytes → Bytes → Type 0
Filled p m bs =
    (r : Bytes) × (length r + length bs + 1 ≡ length m)
    × ((write_at (p ++ m) (length p) bs >>= λ d. write_at d (length p + length bs) (0 ∷ []))
        ≡ some ((p ++ bs) ++ 0 ∷ r))

pub fill : (p m bs : Bytes) → length bs < length m → Filled p m bs
fill p m bs h =
    let front = take (length bs) m in
    let lf : length front ≡ length bs = ground (arith, length-take (length bs) m) in
    let (y, r, e) =
      cons_of_length (drop (length bs) m) (omega (arith, length-drop (length bs) m)) in
    let em : m ≡ front ++ (y ∷ r) = sym (take-append-drop (length bs) m) ∙ ap (◌++◌ front) e in
    (r, omega (arith, ap length e, length-drop (length bs) m), fill_split p front y r bs m em lf)

-- On text without null characters the C functions copy what they are given.
pub strncpy_exact : (bs : Bytes) → NulFree bs → strncpy_bytes bs (length bs) ≡ bs
unfolding strncpy_bytes
strncpy_exact [] f = refl
strncpy_exact (c ∷ bs) f = rw (ne→not_== c 0 f.0) (ap (◌∷◌ c) (strncpy_exact bs f.1))

pub strcpy_exact : (bs r : Bytes) → NulFree bs → strcpy_bytes (bs ++ 0 ∷ r) ≡ some (bs ++ 0 ∷ [])
unfolding strcpy_bytes
strcpy_exact [] r f = refl
strcpy_exact (c ∷ bs) r f = rw (ne→not_== c 0 f.0, strcpy_exact bs r f.1)

pub c_string-append : (bs r : Bytes) → NulFree bs → c_string (bs ++ 0 ∷ r) ≡ bs
unfolding c_string
c_string-append [] r f = refl
c_string-append (c ∷ bs) r f = rw (ne→not_== c 0 f.0) (ap (◌∷◌ c) (c_string-append bs r f.1))
