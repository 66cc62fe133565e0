-- ===== src/Curl.antt =====
-- rpc_curl_helpers.c: the memory that collects the responses of cURL.
pub mod Chunks
use dtn_rpc.Common.{
  ℕ, ◌+◌, Bool, not, Option, none, some, [], ◌∷◌, ◌++◌, if◌then◌else◌, Bytes, length, take,
  replicate,
}
use dtn_rpc.Memory.{fresh, memcpy}

-- `none`: `memory` is `NULL`.
pub record CurlResultMemory : Type 0 where
  pub memory : Option Bytes
  pub size : ℕ

-- `calloc(1, 1)`
unfoldable pub rpc_curl_init_memory : CurlResultMemory
rpc_curl_init_memory = record { memory = some (0 ∷ []); size = 0 }

-- What was there is freed.
unfoldable pub rpc_curl_reinit_memory : CurlResultMemory → CurlResultMemory
rpc_curl_reinit_memory mem = record { memory = some (0 ∷ []); size = 0 }

-- The first `n` bytes stay; what is new holds the bytes of `garbage`.
resized : ℕ → Bytes → Bytes → Bytes
resized n garbage memory = take n (memory ++ take n (garbage ++ replicate n 0))

-- `realloc` of `NULL` is `malloc`.
old_memory : Option Bytes → Bytes
old_memory none = []
old_memory (some memory) = memory

-- `enough`: whether `realloc` succeeds. The return value and the memory.
unfoldable pub rpc_curl_write_response :
    Bool → Bytes → Bytes → CurlResultMemory → ℕ × CurlResultMemory
unfolding resized old_memory
rpc_curl_write_response enough garbage contents mem =
    let realsize = length contents in
    if not enough
    then (0, record mem { memory = none })
    else (let grown = fresh (resized (mem.size + realsize + 1) garbage (old_memory mem.memory)) in
        let copied = memcpy grown mem.size contents in
        let ended = memcpy copied (mem.size + realsize) (0 ∷ []) in
        (realsize, record { memory = some ended.bytes; size = mem.size + realsize }))
