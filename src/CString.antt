-- ===== src/CString.antt =====
-- The functions of the C library that the program's text handling calls. A `char *` is the bytes
-- before its terminator; a buffer is all its bytes, terminators included.
pub mod Tokens
pub mod Compare
use dtn_rpc.Common.{
  ℕ, zero, suc, ◌+◌, ◌/◌, ◌%◌, Bool, true, false, ◌&&◌, Option, none, some, [], ◌∷◌, Bytes, ltb,
  ◌==◌, if◌then◌else◌,
}
use dtn_rpc.Result.{Result, ok, err, unterminated, ◌>>=◌}

-- The string that starts at a pointer into a buffer.
unfoldable pub c_string : Bytes → Result Bytes
c_string [] = err unterminated
c_string (c ∷ cs) = if c == 0 then ok [] else (do s ← c_string cs; ok (c ∷ s))

-- `!strcmp(a, b)`
unfoldable pub str_eq : Bytes → Bytes → Bool
str_eq [] [] = true
str_eq (x ∷ xs) (y ∷ ys) = x == y && str_eq xs ys
str_eq _ _ = false

-- `!strncmp(a, b, n)`
unfoldable pub strn_eq : Bytes → Bytes → ℕ → Bool
strn_eq a b zero = true
strn_eq [] [] (suc n) = true
strn_eq (x ∷ xs) (y ∷ ys) (suc n) = x == y && strn_eq xs ys n
strn_eq _ _ (suc n) = false

skip_delimiters : ℕ → Bytes → Bytes
skip_delimiters d [] = []
skip_delimiters d (c ∷ cs) = if c == d then skip_delimiters d cs else c ∷ cs

token : ℕ → Bytes → Bytes
token d [] = []
token d (c ∷ cs) = if c == d then [] else c ∷ token d cs

-- Behind the delimiter that ended the token, which `strtok` has overwritten by a terminator.
after_token : ℕ → Bytes → Bytes
after_token d [] = []
after_token d (c ∷ cs) = if c == d then cs else after_token d cs

first_token : ℕ → Bytes → Option (Bytes × Bytes)
first_token d [] = none
first_token d (c ∷ cs) = some (token d (c ∷ cs), after_token d (c ∷ cs))

-- `strtok` with one delimiter: the token, and the text where the next call goes on.
unfoldable pub strtok : ℕ → Bytes → Option (Bytes × Bytes)
unfolding skip_delimiters token after_token first_token
strtok d s = first_token d (skip_delimiters d s)

-- `strspn`, with the accepted characters as a test.
unfoldable pub strspn : Bytes → (ℕ → Bool) → ℕ
strspn [] accept = 0
strspn (c ∷ cs) accept = if accept c then suc (strspn cs accept) else 0

-- `sprintf(s, "%u", n)` for a `uint8_t`
unfoldable pub print_u8 : ℕ → Bytes
print_u8 n =
    if ltb n 10
    then (b'0' + n) ∷ []
    else if ltb n 100
    then (b'0' + n / 10) ∷ (b'0' + n % 10) ∷ []
    else (b'0' + n / 100) ∷ (b'0' + n / 10 % 10) ∷ (b'0' + n % 10) ∷ []
