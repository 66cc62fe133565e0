-- ===== src/Curl/Chunks.antt =====
-- What the memory holds after any number of chunks.
use dtn_rpc.Common.{
  ℕ, suc, ◌+◌, ◌≡◌, refl, sym, ap, ◌∙◌, true, some, List, [], ◌∷◌, ◌++◌, append-nil, append_assoc,
  arith, Bytes, length, take, replicate, length-append, length-replicate,
}
use dtn_rpc.Memory.{fresh, Filled, Filled-memcpy, Filled-full, length-take}
use dtn_rpc.Curl.{CurlResultMemory, rpc_curl_init_memory, resized, rpc_curl_write_response}

-- A whole response: the chunks, each with what the new memory holds before it is written.
pub responded : List (Bytes × Bytes) → CurlResultMemory → CurlResultMemory
responded [] mem = mem
responded ((garbage, contents) ∷ chunks) mem =
    responded chunks (rpc_curl_write_response true garbage contents mem).1

abbrev pub contents_of : List (Bytes × Bytes) → Bytes
contents_of [] = []
contents_of ((garbage, contents) ∷ chunks) = contents ++ contents_of chunks

-- The bytes received and a terminator.
abbrev pub holding : Bytes → CurlResultMemory
holding bytes = record { memory = some (bytes ++ 0 ∷ []); size = length bytes }

take-append : (xs ys : Bytes) (k : ℕ) → take (length xs + k) (xs ++ ys) ≡ xs ++ take k ys
take-append [] ys k = let e : 0 + k ≡ k = omega arith in rw e refl
take-append (x ∷ xs) ys k =
    let e : suc (length xs) + k ≡ suc (length xs + k) = omega arith in
    rw e (ap (◌∷◌ x) (take-append xs ys k))

-- The resized memory begins with the bytes that were there.
resized-Filled :
    (bytes garbage : Bytes) (room : ℕ)
    → Filled
        (fresh (resized (length bytes + room + 1) garbage (bytes ++ 0 ∷ [])))
        bytes
        (length bytes)
        (room + 1)
unfolding resized
resized-Filled bytes garbage room =
    let n : ℕ = length bytes + room + 1 in
    let pad : Bytes = take n (garbage ++ replicate n 0) in
    let long : length pad ≡ n =
      length-take n (garbage ++ replicate n 0)
        (omega (arith, length-append garbage (replicate n 0), length-replicate {A = ℕ} n 0)) in
    let e : length bytes + room + 1 ≡ length bytes + (room + 1) = omega arith in
    let joined : (bytes ++ 0 ∷ []) ++ pad ≡ bytes ++ (0 ∷ pad) = rw append_assoc refl in
    let laid : fresh (take n ((bytes ++ 0 ∷ []) ++ pad))
        ≡ fresh (bytes ++ take (room + 1) (0 ∷ pad)) =
      ap (λ xs. fresh (take n xs)) joined
      ∙ ap (λ k. fresh (take k (bytes ++ (0 ∷ pad)))) e
      ∙ ap fresh (take-append bytes (0 ∷ pad) (room + 1)) in
    record {
      rest = take (room + 1) (0 ∷ pad);
      layout = laid;
      used = refl;
      room = length-take (room + 1) (0 ∷ pad) (omega (arith, long));
    }

write_response-holding :
    (bytes garbage contents : Bytes)
    → rpc_curl_write_response true garbage contents (holding bytes)
      ≡ (length contents, holding (bytes ++ contents))
unfolding rpc_curl_write_response
write_response-holding bytes garbage contents =
    let n = length bytes in
    let m = length contents in
    let start = resized-Filled bytes garbage m in
    let copied = Filled-memcpy contents (n + m) 1 start refl refl in
    let ended = Filled-memcpy (0 ∷ []) (n + m + 1) 0 copied refl refl in
    rw (Filled-full ended) (
      ap (λ k. (m, record { memory = some ((bytes ++ contents) ++ 0 ∷ []); size = k }))
        (sym (length-append bytes contents)))

responded-holding :
    (bytes : Bytes) (chunks : List (Bytes × Bytes))
    → responded chunks (holding bytes) ≡ holding (bytes ++ contents_of chunks)
unfolding responded
responded-holding bytes [] = rw append-nil refl
responded-holding bytes ((garbage, contents) ∷ chunks) =
    rw (write_response-holding bytes garbage contents)
      (responded-holding (bytes ++ contents) chunks ∙ simp append_assoc)

-- After any number of chunks that find enough memory, the response memory holds all of them in
-- order, and a terminator behind them; the size counts the chunks alone.
pub rpc_curl_write_response-chunks :
    (chunks : List (Bytes × Bytes))
    → responded chunks rpc_curl_init_memory ≡ holding (contents_of chunks)
unfolding rpc_curl_init_memory
rpc_curl_write_response-chunks chunks = responded-holding [] chunks
