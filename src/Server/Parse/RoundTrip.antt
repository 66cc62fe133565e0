-- ===== src/Server/Parse/RoundTrip.antt =====
-- `rpc_server_parse_call` on what `_rpc_client_prepare_call_payload` writes.
use dtn_rpc.Common.{
  ◌∙◌, sym, get_elem?-append, zero-bit_or, All-append, ℕ, suc, ◌+◌, ◌-◌, ◌%◌, ◌<◌, ◌≡◌, ap, ◌≢◌,
  false, ◌||◌, none, some, List, [], ◌∷◌, ◌++◌, map, append-nil, append_assoc, arith, ltb, Bytes,
  length, take, drop, replicate, length-append, length-replicate, All, Lacks,
}
use dtn_rpc.Result.{ok}
use dtn_rpc.CString.{print_u8}
use dtn_rpc.CString.Tokens.{join, join_rest, IsToken, strtok-join, c_string-append}
use dtn_rpc.Memory.{take-append_length, drop_prefix}
use dtn_rpc.Serval.{Words}
use dtn_rpc.Wire.{rpc_pkt_call, read_uint8}
use dtn_rpc.Wire.Call.{call_packet}
use dtn_rpc.Server.{RpcProcedure, unset_sid}
use dtn_rpc.Server.Parse.Slots.{AreTokens, store_params-slots}
use dtn_rpc.Server.Parse.{parse_text, rpc_server_parse_call}

pub Lacks-join : (b d : ℕ) (ps : List Bytes) → d ≢ b → All (Lacks b) ps → Lacks b (join d ps)
Lacks-join b d [] ne h = tt
Lacks-join b d (p ∷ ps) ne (hp, hs) = (ne, All-append _ p (join d ps) hp (Lacks-join b d ps ne hs))

pub no_terminators : (ps : List Bytes) → AreTokens ps → All (Lacks 0) ps
no_terminators [] h = tt
no_terminators (p ∷ ps) (t, ts) = (t.no_terminator, no_terminators ps ts)

abbrev pub parsed_call : Bytes → List Bytes → RpcProcedure
parsed_call name ps = record {
  name = name;
  paramc_n = length ps;
  paramc_s = print_u8 (length ps);
  params = map some ps;
  caller_sid = unset_sid;
}

parse_text-join :
    (name : Bytes) (ps : List Bytes)
    → IsToken b'|' name
    → AreTokens ps
    → parse_text (length ps) (name ++ join b'|' ps) ≡ ok (parsed_call name ps)
unfolding parse_text
parse_text-join name ps t ts =
    let stored =
      store_params-slots (suc (length (join_rest b'|' ps))) ps [] (replicate (length ps) none) [] ts
        (omega arith) (length-replicate (length ps) none) in
    rw (strtok-join b'|' name ps t.ne_nil t.no_delimiter, simp append-nil at stored)

module _ (W : Words) (requirements : ℕ) (name : Bytes) (ps : List Bytes) (garbage : Bytes) where
  abbrev text : Bytes
  text = name ++ join b'|' ps

  abbrev packet : Bytes
  packet = call_packet W requirements (length ps) name (join b'|' ps)

  abbrev header : Bytes
  header = rpc_pkt_call ∷ (W.write_uint32 requirements ++ (length ps % 256) ∷ [])

  length-header : length header ≡ 6
  length-header = omega (
    arith,
    length-append (W.write_uint32 requirements) ((length ps % 256) ∷ []),
    W.length-write_uint32 requirements,
  )

  packet-split : packet ++ garbage ≡ header ++ ((text ++ 0 ∷ []) ++ garbage)
  packet-split = simp append_assoc

  read_count : read_uint8 (packet ++ garbage) 5 ≡ ok (length ps % 256)
  unfolding read_uint8
  read_count =
      let w = W.write_uint32 requirements in
      let found =
        get_elem?-append 5 (rpc_pkt_call ∷ w) (length ps % 256) ((text ++ 0 ∷ []) ++ garbage)
          (omega (arith, W.length-write_uint32 requirements)) in
      let split : packet ++ garbage
          ≡ (rpc_pkt_call ∷ w) ++ (length ps % 256) ∷ ((text ++ 0 ∷ []) ++ garbage) =
        simp append_assoc in
      rw (split, found, zero-bit_or)

  length-packet : length packet ≡ 6 + length (text ++ 0 ∷ [])
  length-packet =
      let split : packet ≡ header ++ (text ++ 0 ∷ []) = simp append_assoc in
      omega (arith, length-header, length-append header (text ++ 0 ∷ []), ap length split)

  in_bounds : (ltb (length packet) 6 || ltb (length (packet ++ garbage)) (length packet)) ≡ false
  in_bounds = ground (arith, length-packet, length-append packet garbage)

  chunk : take (length packet - 6) (drop 6 (packet ++ garbage)) ≡ text ++ 0 ∷ []
  chunk =
      let n : length packet - 6 ≡ length (text ++ 0 ∷ []) = omega (arith, length-packet) in
      rw (packet-split, n, drop_prefix 6 header ((text ++ 0 ∷ []) ++ garbage) length-header)
        (take-append_length (text ++ 0 ∷ []) garbage)

  -- From the packet the parser comes to the text with the name and the parameters.
  pub rpc_server_parse_call-text :
      Lacks 0 text
      → rpc_server_parse_call (packet ++ garbage) (length packet)
        ≡ parse_text (length ps % 256) text
  unfolding rpc_server_parse_call
  rpc_server_parse_call-text clean =
      rw (read_count, in_bounds, chunk, c_string-append text [] clean)

  -- The packet that a client builds for a call is parsed back to the call: with a name and parameters
  -- that are not empty and hold neither separator nor terminator, and fewer than 256 parameters, the
  -- server has the name, the count and the parameters, whatever lies behind the packet in memory.
  pub rpc_server_parse_call-packet :
      IsToken b'|' name
      → AreTokens ps
      → length ps < 256
      → rpc_server_parse_call (packet ++ garbage) (length packet) ≡ ok (parsed_call name ps)
  rpc_server_parse_call-packet t ts few =
      let exact : length ps % 256 ≡ length ps = omega arith in
      let clean =
        All-append _ name (join b'|' ps) t.no_terminator
          (Lacks-join 0 b'|' ps (omega arith) (no_terminators ps ts)) in
      rw (rpc_server_parse_call-text clean, exact) (parse_text-join name ps t ts)

-- The same where the packet is all that is in memory.
pub rpc_server_parse_call-exact :
    (W : Words) (requirements : ℕ) (name : Bytes) (ps : List Bytes)
    → IsToken b'|' name
    → AreTokens ps
    → length ps < 256
    → let packet = call_packet W requirements (length ps) name (join b'|' ps) in
      rpc_server_parse_call packet (length packet) ≡ ok (parsed_call name ps)
rpc_server_parse_call-exact W requirements name ps t ts few =
    let packet = call_packet W requirements (length ps) name (join b'|' ps) in
    ap (λ p. rpc_server_parse_call p (length packet)) (sym (append-nil packet))
    ∙ rpc_server_parse_call-packet W requirements name ps [] t ts few
