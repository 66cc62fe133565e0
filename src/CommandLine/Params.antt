-- ===== src/CommandLine/Params.antt =====
-- The loop that takes the parameters of a call from the arguments.
use dtn_rpc.Common.{
  ℕ, zero, suc, ◌+◌, ◌-◌, ◌%◌, ◌<◌, ◌≡◌, refl, true, false, some, List, [], ◌∷◌, ◌++◌, map,
  append_assoc, arith, ltb, ◌==◌, Bytes, length, length-append,
}
use dtn_rpc.Result.{ok}
use dtn_rpc.Requirements.{u32_mod}
use dtn_rpc.CommandLine.Call.{argument, more_params, call_params}

argument-append :
    (before after : List Bytes) (arg : Bytes) (n : ℕ)
    → length before ≡ n
    → argument (before ++ arg ∷ after) n ≡ ok (some arg)
unfolding argument
argument-append [] after arg n at = rw (← at) refl
argument-append (first ∷ before) after arg zero at = absurd (omega arith)
argument-append (first ∷ before) after arg (suc n) at =
    argument-append before after arg n (omega arith)

-- The last one of the arguments.
abbrev pub last_of : Bytes → List Bytes → Bytes
last_of arg [] = arg
last_of arg (next ∷ argv) = last_of next argv

argument_last :
    (arg : Bytes) (argv : List Bytes)
    → argument (arg ∷ argv) (length argv) ≡ ok (some (last_of arg argv))
unfolding argument
argument_last arg [] = refl
argument_last arg (next ∷ argv) = argument_last next argv

pub argument_end :
    (arg : Bytes) (argv : List Bytes)
    → argument (arg ∷ argv) (length (arg ∷ argv) - 1) ≡ ok (some (last_of arg argv))
argument_end arg argv =
    let e : length (arg ∷ argv) - 1 ≡ length argv = omega arith in rw e (argument_last arg argv)

pub last_of-snoc :
    (arg : Bytes) (argv : List Bytes) (last : Bytes) → last_of arg (argv ++ last ∷ []) ≡ last
last_of-snoc arg [] last = refl
last_of-snoc arg (next ∷ argv) last = last_of-snoc next argv last

-- The loop takes the arguments from its place on.
more_params-append :
    (others before after : List Bytes) (i size offset : ℕ)
    → length before ≡ offset + 3 + i
    → i + length others < size
    → more_params (length others) i size offset (before ++ (others ++ after)) ≡ ok (map some others)
unfolding more_params
more_params-append [] before after i size offset at fits = refl
more_params-append (other ∷ others) before after i size offset at fits =
    let here = argument-append before (others ++ after) other (offset + 3 + i) at in
    let small : ltb (i + 1) size ≡ true = ground (arith, fits) in
    let again =
      more_params-append others (before ++ other ∷ []) after (i + 1) size offset
        (omega (arith, length-append before (other ∷ []))) (omega arith) in
    rw (here, small, simp append_assoc at again) refl

-- The parameters of a call, from the argument behind its name up to `after`.
pub call_params-append :
    (first : Bytes) (others before after : List Bytes) (offset : ℕ)
    → length before ≡ offset + 2
    → length (first ∷ others) + 1 < u32_mod
    → call_params
        (length (first ∷ others))
        (some first)
        offset
        (before ++ ((first ∷ others) ++ after))
      ≡ ok (map some (first ∷ others))
unfolding call_params
call_params-append first others before after offset at few =
    let size : (length (first ∷ others) + 1) % u32_mod ≡ length (first ∷ others) + 1 =
      omega arith in
    let rounds : (length (first ∷ others) + u32_mod - 1) % u32_mod ≡ length others = omega arith in
    let some_size : (length (first ∷ others) + 1 == 0) ≡ false = ground arith in
    let stored =
      more_params-append others (before ++ first ∷ []) after 0 (length (first ∷ others) + 1) offset
        (omega (arith, at, length-append before (first ∷ []))) (omega arith) in
    rw (size, rounds, some_size, simp append_assoc at stored) refl
