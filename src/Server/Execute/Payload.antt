-- ===== src/Server/Execute/Payload.antt =====
-- The result packet that a successful run leaves in `result_payload`.
use dtn_rpc.Common.{
  ap, ℕ, zero, suc, ◌+◌, ◌-◌, ◌≤◌, ◌≡◌, refl, true, [], ◌∷◌, ◌++◌, append_assoc, arith, Bytes,
  length, replicate, length-append, length-replicate,
}
use dtn_rpc.Memory.{memcpy_inside, Buffer, fresh, memcpy}
use dtn_rpc.Memory.{memcpy_behind, memcpy_zeroed}
use dtn_rpc.Wire.{rpc_pkt_call_response, rpc_pkt_size, write_uint8}
use dtn_rpc.Server.Execute.{line_of, read_line}

pub length-line_of : (n : ℕ) (out : Bytes) → length (line_of n out) ≤ n
unfolding line_of
length-line_of zero out = omega arith
length-line_of (suc n) [] = omega arith
length-line_of (suc n) (c ∷ out) = ground (arith, length-line_of n out)

-- The three writes, over an array of any size.
filled_payload :
    (n : ℕ) (line : Bytes)
    → length line + 1 ≤ n
    → memcpy
        (memcpy (memcpy (fresh (0 ∷ replicate n 0)) 0 (2 ∷ [])) 1 (line ++ 0 ∷ []))
        (suc n)
        (0 ∷ [])
      ≡ record { bytes = 2 ∷ (line ++ replicate (n - length line) 0); overrun = true }
filled_payload n line fits =
    let text = line ++ 0 ∷ [] in
    let long = length-append line (0 ∷ []) in
    let typed = memcpy_inside [] (0 ∷ []) (replicate n 0) (2 ∷ []) refl in
    let filled = memcpy_zeroed (2 ∷ []) text 1 n refl (omega (arith, long)) in
    let count : n - length line ≡ suc (n - length text) = omega (arith, long) in
    let tail : text ++ replicate (n - length text) 0 ≡ line ++ replicate (n - length line) 0 =
      rw (append_assoc, count) in
    let size : length (2 ∷ (line ++ replicate (n - length line) 0)) ≡ suc n = omega (
      arith,
      length-append line (replicate (n - length line) 0),
      length-replicate {A = ℕ} (n - length line) 0,
    ) in
    rw (typed, filled, tail) (memcpy_behind _ (suc n) 0 [] size)

-- What a run that prints `out` leaves in the array, before a file path is replaced.
unfoldable pub printed_payload : Bytes → Buffer
unfolding read_line
printed_payload out =
    memcpy (read_line (write_uint8 (fresh (replicate rpc_pkt_size 0)) 0 rpc_pkt_call_response) out)
      rpc_pkt_size (0 ∷ [])

-- A run that prints something leaves the packet type, the first line of the output up to 958 bytes,
-- and zeros in the result array; the terminator that is written last goes one byte behind the
-- array, always.
pub printed_payload_lem :
    (c : ℕ) (out : Bytes)
    → let line = line_of 958 (c ∷ out) in
      printed_payload (c ∷ out)
      ≡ record { bytes = 2 ∷ (line ++ replicate (959 - length line) 0); overrun = true }
unfolding printed_payload write_uint8
printed_payload_lem c out =
    filled_payload 959 (line_of 958 (c ∷ out)) (omega (arith, length-line_of 958 (c ∷ out)))

pub length-printed_payload : (out : Bytes) → length (printed_payload out).bytes ≡ rpc_pkt_size
unfolding printed_payload write_uint8 memcpy
length-printed_payload [] = refl
length-printed_payload (c ∷ out) =
    let line = line_of 958 (c ∷ out) in
    let layout = ap (λ (b : Buffer). length b.bytes) (printed_payload_lem c out) in
    let fits = length-line_of 958 (c ∷ out) in
    omega (
      arith,
      layout,
      fits,
      length-append line (replicate (959 - length line) 0),
      length-replicate {A = ℕ} (959 - length line) 0,
    )
