-- ===== src/CString/Tokens.antt =====
-- What `strtok` returns on text that is built from tokens.
use dtn_rpc.Common.{
  sym, ℕ, ◌≤◌, ◌<◌, ◌≡◌, ◌≢◌, refl, some, List, [], ◌∷◌, ◌++◌, arith, Bytes, length, Lacks,
}
use dtn_rpc.Result.{ok}
use dtn_rpc.CString.{c_string, skip_delimiters, token, after_token, first_token, strtok}

-- Each item with its delimiter in front, as `_rpc_flatten_params` writes it.
abbrev pub join : ℕ → List Bytes → Bytes
join d [] = []
join d (p ∷ ps) = d ∷ (p ++ join d ps)

-- The same text behind its first delimiter.
abbrev pub join_rest : ℕ → List Bytes → Bytes
join_rest d [] = []
join_rest d (p ∷ ps) = p ++ join d ps

-- A token: not empty, with no delimiter and no terminator in it.
pub record IsToken (d : ℕ) (t : Bytes) : Type 0 where
  pub ne_nil : t ≢ []
  pub no_delimiter : Lacks d t
  pub no_terminator : Lacks 0 t

token-append : (d : ℕ) (t : Bytes) (ps : List Bytes) → Lacks d t → token d (t ++ join d ps) ≡ t
unfolding token
token-append d [] [] h = refl
token-append d [] (p ∷ ps) h = ground arith
token-append d (c ∷ t) ps (hc, ht) = ground (arith, token-append d t ps ht)

after_token-append :
    (d : ℕ) (t : Bytes) (ps : List Bytes)
    → Lacks d t
    → after_token d (t ++ join d ps) ≡ join_rest d ps
unfolding after_token
after_token-append d [] [] h = refl
after_token-append d [] (p ∷ ps) h = ground arith
after_token-append d (c ∷ t) ps (hc, ht) = ground (arith, after_token-append d t ps ht)

-- The first token of joined text is its first item, and the next call starts at the second.
pub strtok-join :
    (d : ℕ) (t : Bytes) (ps : List Bytes)
    → t ≢ []
    → Lacks d t
    → strtok d (t ++ join d ps) ≡ some (t, join_rest d ps)
unfolding strtok skip_delimiters first_token
strtok-join d [] ps ne h = absurd (ne refl)
strtok-join d (c ∷ t) ps ne (hc, ht) =
    ground (arith, token-append d (c ∷ t) ps (hc, ht), after_token-append d (c ∷ t) ps (hc, ht))

length-skip_delimiters : (d : ℕ) (s : Bytes) → length (skip_delimiters d s) ≤ length s
unfolding skip_delimiters
length-skip_delimiters d [] = omega arith
length-skip_delimiters d (c ∷ s) = ground (arith, length-skip_delimiters d s)

length-after_token : (d c : ℕ) (s : Bytes) → length (after_token d (c ∷ s)) ≤ length s
unfolding after_token
length-after_token d c [] = ground arith
length-after_token d c (c' ∷ s) = ground (arith, length-after_token d c' s)

length-first_token :
    (d : ℕ) (s : Bytes) {t r : Bytes} → first_token d s ≡ some (t, r) → length r < length s
unfolding first_token
length-first_token d [] h = cc
length-first_token d (c ∷ s) h = ground (arith, length-after_token d c s)

-- Each call that returns a token leaves less text.
pub length-strtok :
    (d : ℕ) (s : Bytes) {t r : Bytes} → strtok d s ≡ some (t, r) → length r < length s
unfolding strtok
length-strtok d s h =
    omega (arith, length-first_token d (skip_delimiters d s) h, length-skip_delimiters d s)

-- A string is read back from a buffer that holds it and a terminator.
pub c_string-append : (s rest : Bytes) → Lacks 0 s → c_string (s ++ 0 ∷ rest) ≡ ok s
unfolding c_string
c_string-append [] rest h = refl
c_string-append (c ∷ s) rest (hc, hs) = ground (arith, c_string-append s rest hs)

-- A delimiter in front of a token is skipped.
pub strtok-delimiter : (d : ℕ) (s : Bytes) → strtok d (d ∷ s) ≡ strtok d s
unfolding strtok
strtok-delimiter d s = ground arith

-- So the text of joined items starts in effect at the first of them.
pub strtok-join_rest : (d : ℕ) (ps : List Bytes) → strtok d (join_rest d ps) ≡ strtok d (join d ps)
strtok-join_rest d [] = refl
strtok-join_rest d (p ∷ ps) = sym (strtok-delimiter d (p ++ join d ps))
