-- ===== src/Errno.antt =====
-- api/src/unix/api_error.c and api/include/api_errno.h: the error codes of the library, which are
-- those of the system. An `int` below 0 is its pattern of 32 bits.
use libapi.Base.{ℕ, ◌-◌, ◌^◌, ◌≡◌, ◌==◌, if◌then◌else◌, arith}

abbrev pub api_ok : ℕ
api_ok = 0

abbrev pub api_terminate : ℕ
api_terminate = 10000

abbrev pub eagain : ℕ
eagain = 11

abbrev pub etimedout : ℕ
etimedout = 110

abbrev pub minus_one : ℕ
minus_one = 2 ^ 32 - 1

-- `api_error_translate`
unfoldable pub translate : ℕ → ℕ
translate e =
    if e == 0
    then api_ok
    else if e == 1
    then 1
    else if e == 2
    then 2
    else if e == 5
    then 5
    else if e == 9
    then 9
    else if e == eagain
    then eagain
    else if e == 12
    then 12
    else if e == 13
    then 13
    else if e == 14
    then 14
    else if e == 17
    then 17
    else if e == 19
    then 19
    else if e == 22
    then 22
    else if e == 23
    then 23
    else if e == 24
    then 24
    else if e == 25
    then 25
    else if e == 28
    then 28
    else if e == 98
    then 98
    else if e == etimedout
    then etimedout
    else e

-- The codes are those of the system.
pub translate_lem : (e : ℕ) → translate e ≡ e
unfolding translate
translate_lem e = ground arith
