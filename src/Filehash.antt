-- ===== src/Filehash.antt =====
-- `_rpc_str_is_filehash` of rpc_helpers.c.
use dtn_rpc.Common.{
  ℕ, zero, suc, ◌≡◌, ◌↔◌, inl, inr, Bool, true, ◌&&◌, ◌||◌, [], ◌∷◌, arith, leb, ◌==◌, Bool-cases,
  Bytes, length, All, Lacks,
}
use dtn_rpc.CString.{strspn}

within : ℕ → ℕ → ℕ → Bool
within lo hi c = leb lo c && leb c hi

-- The characters of "0123456789ABCDEF".
unfoldable pub is_hex_digit : ℕ → Bool
unfolding within
is_hex_digit c = within b'0' b'9' c || within b'A' b'F' c

-- `s[i]` in a string: its terminator stands behind the last character.
abbrev pub char_at : Bytes → ℕ → ℕ
char_at [] i = 0
char_at (c ∷ s) zero = c
char_at (c ∷ s) (suc i) = char_at s i

unfoldable pub rpc_str_is_filehash : Bytes → Bool
rpc_str_is_filehash hash =
    let len_ok = length hash == 128 in
    let is_hex = char_at hash (strspn hash is_hex_digit) == 0 in len_ok && is_hex

abbrev pub IsHex : Bytes → Type 0
IsHex = All (λ c. is_hex_digit c ≡ true)

-- `strspn` runs to the terminator exactly if every character is accepted.
strspn-terminator :
    (s : Bytes) → Lacks 0 s → ((char_at s (strspn s is_hex_digit) == 0) ≡ true) ↔ IsHex s
unfolding strspn
strspn-terminator [] h = ground arith
strspn-terminator (c ∷ s) (hc, hs) = elim (Bool-cases (is_hex_digit c)) [
  | inl hex ↦ rw hex (ground (arith, strspn-terminator s hs))
  | inr other ↦ rw other (ground arith)
]

-- A string is taken for a file hash exactly if it is 128 upper-case hexadecimal digits.
pub rpc_str_is_filehash_iff :
    (hash : Bytes)
    → Lacks 0 hash
    → (rpc_str_is_filehash hash ≡ true) ↔ ((length hash ≡ 128) × IsHex hash)
unfolding rpc_str_is_filehash
rpc_str_is_filehash_iff hash clean = ground (arith, strspn-terminator hash clean)
