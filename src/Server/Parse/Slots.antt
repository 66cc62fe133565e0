-- ===== src/Server/Parse/Slots.antt =====
-- The loop of `_rpc_server_parse_call` that stores the parameters, on text that holds tokens.
use dtn_rpc.Common.{
  ℕ, zero, suc, ◌+◌, ◌<◌, ◌≡◌, refl, sym, ◌∙◌, true, false, Option, some, List, [], ◌∷◌, ◌++◌, map,
  append_assoc, arith, ltb, Bytes, length, set, length-append, set-append_length, All, Lacks,
}
use dtn_rpc.Result.{out_of_bounds, ok, err}
use dtn_rpc.CString.{strtok}
use dtn_rpc.CString.Tokens.{join, join_rest, IsToken, strtok-join, length-strtok}
use dtn_rpc.CString.Tokens.{strtok-join_rest, strtok-delimiter}
use dtn_rpc.Server.Parse.{store_params}

abbrev pub AreTokens : List Bytes → Type 0
AreTokens = All (IsToken b'|')

-- Each token goes into the next slot, and the slots behind the last token stay as they are.
pub store_params-slots :
    (fuel : ℕ) (ps : List Bytes) (stored slots spare : List (Option Bytes))
    → AreTokens ps
    → length (join_rest b'|' ps) < fuel
    → length slots ≡ length ps
    → store_params fuel (join_rest b'|' ps) (length stored) (stored ++ (slots ++ spare))
      ≡ ok (stored ++ (map some ps ++ spare))
unfolding store_params
store_params-slots zero ps stored slots spare tokens fits same = absurd (omega arith)
store_params-slots (suc fuel) [] stored [] spare tokens fits same = unfold strtok in refl
store_params-slots (suc fuel) [] stored (x ∷ slots) spare tokens fits same = absurd (omega arith)
store_params-slots (suc fuel) (p ∷ ps) stored [] spare tokens fits same = absurd (omega arith)
store_params-slots (suc fuel) (p ∷ ps) stored (x ∷ slots) spare (t, ts) fits same =
    let read = strtok-join b'|' p ps t.ne_nil t.no_delimiter in
    let room : ltb (length stored) (length (stored ++ (x ∷ (slots ++ spare)))) ≡ true =
      ground (arith, length-append stored (x ∷ (slots ++ spare))) in
    let less = length-strtok b'|' (join_rest b'|' (p ∷ ps)) read in
    let next =
      store_params-slots fuel ps (stored ++ some p ∷ []) slots spare ts (omega arith)
        (omega arith) in
    let one : length (stored ++ some p ∷ []) ≡ length stored + 1 =
      omega (arith, length-append stored (some p ∷ [])) in
    rw (read, store_params)
      (rw (room, set-append_length stored x (some p) (slots ++ spare))
        (rw one at (simp append_assoc at next)))

-- A token for which no slot is left is written behind the array.
pub store_params_overflow :
    (fuel : ℕ) (ps : List Bytes) (stored slots : List (Option Bytes))
    → AreTokens ps
    → length (join_rest b'|' ps) < fuel
    → length slots < length ps
    → store_params fuel (join_rest b'|' ps) (length stored) (stored ++ slots) ≡ err out_of_bounds
unfolding store_params
store_params_overflow zero ps stored slots tokens fits few = absurd (omega arith)
store_params_overflow (suc fuel) [] stored slots tokens fits few = absurd (omega arith)
store_params_overflow (suc fuel) (p ∷ ps) stored [] (t, ts) fits few =
    let full : ltb (length stored) (length (stored ++ [])) ≡ false =
      ground (arith, length-append stored []) in
    rw (strtok-join b'|' p ps t.ne_nil t.no_delimiter, store_params) (rw full)
store_params_overflow (suc fuel) (p ∷ ps) stored (x ∷ slots) (t, ts) fits few =
    let read = strtok-join b'|' p ps t.ne_nil t.no_delimiter in
    let room : ltb (length stored) (length (stored ++ x ∷ slots)) ≡ true =
      ground (arith, length-append stored (x ∷ slots)) in
    let less = length-strtok b'|' (join_rest b'|' (p ∷ ps)) read in
    let next =
      store_params_overflow fuel ps (stored ++ some p ∷ []) slots ts (omega arith) (omega arith) in
    let one : length (stored ++ some p ∷ []) ≡ length stored + 1 =
      omega (arith, length-append stored (some p ∷ [])) in
    rw (read, store_params)
      (rw (room, set-append_length stored x (some p) slots) (rw one at (simp append_assoc at next)))

-- The parameters that are not empty.
abbrev pub nonempty : List Bytes → List Bytes
nonempty [] = []
nonempty ([] ∷ ps) = nonempty ps
nonempty ((c ∷ p) ∷ ps) = (c ∷ p) ∷ nonempty ps

-- The loop looks at its text only through `strtok`.
store_params-strtok :
    (fuel : ℕ) (s t : Bytes) (i : ℕ) (params : List (Option Bytes))
    → strtok b'|' s ≡ strtok b'|' t
    → store_params fuel s i params ≡ store_params fuel t i params
unfolding store_params
store_params-strtok zero s t i params e = refl
store_params-strtok (suc fuel) s t i params e = rw (e, store_params)

-- Empty parameters leave no trace in what is stored.
pub store_params-nonempty :
    (fuel : ℕ) (ps : List Bytes) (i : ℕ) (params : List (Option Bytes))
    → All (Lacks b'|') ps
    → store_params fuel (join b'|' ps) i params
      ≡ store_params fuel (join b'|' (nonempty ps)) i params
unfolding store_params
store_params-nonempty zero ps i params h = unfold store_params in refl
store_params-nonempty (suc fuel) [] i params h = refl
store_params-nonempty (suc fuel) ([] ∷ ps) i params (_, hs) =
    store_params-strtok (suc fuel) _ _ i params (strtok-delimiter b'|' (join b'|' ps))
    ∙ store_params-nonempty (suc fuel) ps i params hs
store_params-nonempty (suc fuel) ((c ∷ p) ∷ ps) i params (hp, hs) =
    let q = set params i (some (c ∷ p)) in
    let same =
      store_params-strtok fuel (join_rest b'|' ps) (join b'|' ps) (i + 1) q
        (strtok-join_rest b'|' ps)
      ∙ store_params-nonempty fuel ps (i + 1) q hs
      ∙ store_params-strtok fuel (join b'|' (nonempty ps)) (join_rest b'|' (nonempty ps)) (i + 1) q
          (sym (strtok-join_rest b'|' (nonempty ps))) in
    rw
      (
        strtok-delimiter b'|' ((c ∷ p) ++ join b'|' ps),
        strtok-delimiter b'|' ((c ∷ p) ++ join b'|' (nonempty ps)),
        strtok-join b'|' (c ∷ p) ps (cc) hp,
        strtok-join b'|' (c ∷ p) (nonempty ps) (cc) hp,
        store_params,
      )
      (rw same)

-- The same behind the first delimiter.
pub store_params-nonempty_rest :
    (fuel : ℕ) (ps : List Bytes) (i : ℕ) (params : List (Option Bytes))
    → All (Lacks b'|') ps
    → store_params fuel (join_rest b'|' ps) i params
      ≡ store_params fuel (join_rest b'|' (nonempty ps)) i params
store_params-nonempty_rest fuel ps i params h =
    store_params-strtok fuel (join_rest b'|' ps) (join b'|' ps) i params (strtok-join_rest b'|' ps)
    ∙ store_params-nonempty fuel ps i params h
    ∙ store_params-strtok fuel (join b'|' (nonempty ps)) (join_rest b'|' (nonempty ps)) i params
        (sym (strtok-join_rest b'|' (nonempty ps)))
