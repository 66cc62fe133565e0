-- ===== src/Wire/Params.antt =====
-- What `_rpc_flatten_params` writes.
use dtn_rpc.Common.{
  zero, suc, ℕ, ◌+◌, ◌≡◌, ◌∙◌, some, List, [], ◌∷◌, ◌++◌, map, arith, Bytes, length, length-append,
  append-nil, append_assoc,
}
use dtn_rpc.Result.{ok}
use dtn_rpc.CString.Tokens.{join}
use dtn_rpc.Common.{◌<◌, none, Option}
use dtn_rpc.Result.{err, null_pointer}
use dtn_rpc.Wire.{params_size, append_params, rpc_flatten_params}

abbrev total_length : List Bytes → ℕ
total_length [] = 0
total_length (p ∷ ps) = length p + total_length ps

params_size-some :
    (ps : List Bytes) (size : ℕ)
    → params_size (length ps) (map some ps) size ≡ ok (size + total_length ps)
unfolding params_size
params_size-some [] size = ap_ok size
  where
    ap_ok : (size : ℕ) → ok size ≡ ok (size + 0)
    ap_ok size = ground arith
params_size-some (p ∷ ps) size = params_size-some ps (size + length p) ∙ ground arith

append_params-some :
    (d : ℕ) (ps : List Bytes) (flat : Bytes)
    → append_params (length ps) (map some ps) (d ∷ []) flat ≡ ok (flat ++ join d ps)
unfolding append_params
append_params-some d [] flat = rw append-nil
append_params-some d (p ∷ ps) flat =
    append_params-some d ps ((flat ++ d ∷ []) ++ p) ∙ simp append_assoc

length-join : (d : ℕ) (ps : List Bytes) → length (join d ps) ≡ total_length ps + length ps
length-join d [] = omega arith
length-join d (p ∷ ps) = omega (arith, length-append p (join d ps), length-join d ps)

-- With as many parameters as the count says and none of them null, the string is each parameter
-- behind a delimiter, and the allocation is exactly its characters and the terminator.
pub rpc_flatten_params_lem :
    (d : ℕ) (ps : List Bytes)
    → rpc_flatten_params (length ps) (map some ps) (d ∷ []) ≡ ok (join d ps, length (join d ps) + 1)
unfolding rpc_flatten_params
rpc_flatten_params_lem d ps =
    rw (params_size-some ps 0, append_params-some d ps []) (ground (arith, length-join d ps))

params_size-null :
    (n : ℕ) (given : List Bytes) (rest : List (Option Bytes)) (size : ℕ)
    → length given < n
    → params_size n (map some given ++ none ∷ rest) size ≡ err null_pointer
unfolding params_size
params_size-null zero given rest size h = absurd (omega arith)
params_size-null (suc n) [] rest size h = λ i. err null_pointer
params_size-null (suc n) (p ∷ given) rest size h =
    params_size-null n given rest (size + length p) (omega arith)

-- A null parameter among the first `paramc` is read through.
pub rpc_flatten_params_null :
    (n : ℕ) (given : List Bytes) (rest : List (Option Bytes)) (delim : Bytes)
    → length given < n
    → rpc_flatten_params n (map some given ++ none ∷ rest) delim ≡ err null_pointer
unfolding rpc_flatten_params
rpc_flatten_params_null n given rest delim h = rw (params_size-null n given rest 0 h)
