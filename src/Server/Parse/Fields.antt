-- ===== src/Server/Parse/Fields.antt =====
-- What the parser makes of parameters that are empty or too many.
use dtn_rpc.Common.{
  All-append, ℕ, zero, suc, ◌-◌, ◌%◌, ◌≤◌, ◌<◌, ◌≡◌, ap, Option, none, some, List, [], ◌∷◌, ◌++◌,
  map, arith, Bytes, length, replicate, length-append, length-replicate, All, Lacks,
}
use dtn_rpc.Result.{out_of_bounds, ok, err}
use dtn_rpc.CString.Tokens.{join, join_rest, IsToken, strtok-join}
use dtn_rpc.Serval.{Words}
use dtn_rpc.Wire.Call.{call_packet}
use dtn_rpc.Server.Parse.Slots.{
  AreTokens, nonempty, store_params-slots, store_params_overflow, store_params-nonempty_rest,
}
use dtn_rpc.Server.Parse.RoundTrip.{rpc_server_parse_call-text, Lacks-join, parsed_call}
use dtn_rpc.Server.Parse.{parse_text, rpc_server_parse_call}

replicate_split {ℓ} :
    {A : Type ℓ} (m n : ℕ) (a : A) → m ≤ n → replicate n a ≡ replicate m a ++ replicate (n - m) a
replicate_split zero n a h = let e : n - 0 ≡ n = omega arith in rw e
replicate_split (suc m) zero a h = absurd (omega arith)
replicate_split (suc m) (suc n) a h =
    let e : suc n - suc m ≡ n - m = omega arith in
    rw e (ap (◌∷◌ a) (replicate_split m n a (omega arith)))

length-nonempty : (ps : List Bytes) → length (nonempty ps) ≤ length ps
length-nonempty [] = omega arith
length-nonempty ([] ∷ ps) = omega (arith, length-nonempty ps)
length-nonempty ((c ∷ p) ∷ ps) = omega (arith, length-nonempty ps)

length-join-nonempty :
    (d : ℕ) (ps : List Bytes) → length (join d (nonempty ps)) ≤ length (join d ps)
length-join-nonempty d [] = omega arith
length-join-nonempty d ([] ∷ ps) = omega (arith, length-join-nonempty d ps)
length-join-nonempty d ((c ∷ p) ∷ ps) = omega (
  arith,
  length-append p (join d ps),
  length-append p (join d (nonempty ps)),
  length-join-nonempty d ps,
)

length-join_rest : (d : ℕ) (ps : List Bytes) → length (join_rest d ps) ≤ length (join d ps)
length-join_rest d [] = omega arith
length-join_rest d (p ∷ ps) = omega arith

-- The rest of the joined text is as long, but for the first delimiter.
length-join_rest-nonempty :
    (d : ℕ) (ps : List Bytes) → length (join_rest d (nonempty ps)) ≤ length (join_rest d ps)
length-join_rest-nonempty d [] = omega arith
length-join_rest-nonempty d ([] ∷ ps) =
    omega (arith, length-join_rest d (nonempty ps), length-join-nonempty d ps)
length-join_rest-nonempty d ((c ∷ p) ∷ ps) = omega (
  arith,
  length-append p (join d ps),
  length-append p (join d (nonempty ps)),
  length-join-nonempty d ps,
)

AreTokens-nonempty :
    (ps : List Bytes) → All (Lacks b'|') ps → All (Lacks 0) ps → AreTokens (nonempty ps)
AreTokens-nonempty [] h k = tt
AreTokens-nonempty ([] ∷ ps) (_, hs) (_, ks) = AreTokens-nonempty ps hs ks
AreTokens-nonempty ((c ∷ p) ∷ ps) (h, hs) (k, ks) =
    (record { ne_nil = cc; no_delimiter = h; no_terminator = k }, AreTokens-nonempty ps hs ks)

-- The slots of the parameters that are empty stay null, behind all others.
abbrev pub shifted_params : List Bytes → List (Option Bytes)
shifted_params ps = map some (nonempty ps) ++ replicate (length ps - length (nonempty ps)) none

-- A call with empty parameters is parsed without them: the parameters behind them move up, and the
-- last slots stay null.
pub rpc_server_parse_call_shifts :
    (W : Words) (requirements : ℕ) (name : Bytes) (ps : List Bytes) (garbage : Bytes)
    → IsToken b'|' name
    → All (Lacks b'|') ps
    → All (Lacks 0) ps
    → length ps < 256
    → rpc_server_parse_call
        (call_packet W requirements (length ps) name (join b'|' ps) ++ garbage)
        (length (call_packet W requirements (length ps) name (join b'|' ps)))
      ≡ ok (record (parsed_call name ps) { params = shifted_params ps })
unfolding parse_text
rpc_server_parse_call_shifts W requirements name ps garbage t hs ks few =
    let exact : length ps % 256 ≡ length ps = omega arith in
    let clean =
      All-append _ name (join b'|' ps) t.no_terminator (Lacks-join 0 b'|' ps (omega arith) ks) in
    let k = length (nonempty ps) in
    let stored =
      store_params-slots (suc (length (join_rest b'|' ps))) (nonempty ps) [] (replicate k none)
        (replicate (length ps - k) none) (AreTokens-nonempty ps hs ks)
        (omega (arith, length-join_rest-nonempty b'|' ps)) (length-replicate k none) in
    rw (rpc_server_parse_call-text W requirements name ps garbage clean, exact)
      (rw (
        strtok-join b'|' name ps t.ne_nil t.no_delimiter,
        replicate_split {A = Option Bytes} k (length ps) none (length-nonempty ps),
        store_params-nonempty_rest (suc (length (join_rest b'|' ps))) ps 0
            (replicate k none ++ replicate (length ps - k) none) hs,
        stored,
      ))

-- A call of which more parameters are not empty than its count modulo 256 makes the server write behind
-- its parameter array, since the count in the packet, and with it the array, is taken modulo 256. Among
-- 256 parameters one that is not empty is enough.
pub rpc_server_parse_call_overflow :
    (W : Words) (requirements : ℕ) (name : Bytes) (ps : List Bytes) (garbage : Bytes)
    → IsToken b'|' name
    → All (Lacks b'|') ps
    → All (Lacks 0) ps
    → length ps % 256 < length (nonempty ps)
    → rpc_server_parse_call
        (call_packet W requirements (length ps) name (join b'|' ps) ++ garbage)
        (length (call_packet W requirements (length ps) name (join b'|' ps)))
      ≡ err out_of_bounds
unfolding parse_text
rpc_server_parse_call_overflow W requirements name ps garbage t hs ks many =
    let clean =
      All-append _ name (join b'|' ps) t.no_terminator (Lacks-join 0 b'|' ps (omega arith) ks) in
    let n = length ps % 256 in
    let stored =
      store_params_overflow (suc (length (join_rest b'|' ps))) (nonempty ps) [] (replicate n none)
        (AreTokens-nonempty ps hs ks) (omega (arith, length-join_rest-nonempty b'|' ps))
        (omega (arith, length-replicate {A = Option Bytes} n none)) in
    rw (rpc_server_parse_call-text W requirements name ps garbage clean) (
      rw (
        strtok-join b'|' name ps t.ne_nil t.no_delimiter,
        store_params-nonempty_rest (suc (length (join_rest b'|' ps))) ps 0 (replicate n none) hs,
        stored,
      ))
