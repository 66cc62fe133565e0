-- ===== src/Client/Table.antt =====
-- The table of results as a list of entries: what the index functions and an ACK do to it.
pub mod Filled
use dtn_rpc.Common.{
  get_elem?_lt, ℕ, zero, suc, ◌+◌, ◌-◌, ◌≤◌, ◌<◌, ◌≡◌, refl, sym, ap, ◌∙◌, ◌≢◌, inl, inr, true,
  false, List, [], ◌∷◌, ◌++◌, append-nil, append_assoc, arith, ◌==◌, Bool-cases, Option-cases,
  length, get_elem?, replicate, length-append, get_elem?-append_length, set-append_length, All,
}
use dtn_rpc.Common.Int.{pos, ◌==ℤ◌, minus_one, ==ℤ_iff}
use dtn_rpc.Serval.{Sid, sid_any, Sids, is_sid_t_broadcast, is_sid_t_any}
use dtn_rpc.Result.{ok, err, out_of_bounds}
use dtn_rpc.System.{System}
use dtn_rpc.Client.Answers.{record_ack, write_sid}
use dtn_rpc.Client.{
  RpcResult, no_result, insert_loop, sid_loop, rpc_client_result_get_insert_index,
  rpc_client_result_get_sid_index,
}

-- The five places: the entries, and empty places behind them.
abbrev pub padded : List RpcResult → List RpcResult
padded entries = entries ++ replicate (5 - length entries) no_result

zeros_All : (n : ℕ) → All (λ (x : ℕ). x ≡ 0) (replicate n 0)
zeros_All zero = tt
zeros_All (suc n) = (refl, zeros_All n)

write_sid-append :
    (before : List RpcResult) (old : RpcResult) (after : List RpcResult) (remote : Sid)
    → write_sid (before ++ old ∷ after) (pos (length before)) remote
      ≡ ok (before ++ record old { server_sid = remote } ∷ after)
unfolding write_sid
write_sid-append before old after remote =
    rw (get_elem?-append_length before old after, write_sid)
      (ap ok (set-append_length before old (record old { server_sid = remote }) after))

write_sid_behind :
    (table : List RpcResult) (remote : Sid)
    → write_sid table (pos (length table)) remote ≡ err out_of_bounds
unfolding write_sid
write_sid_behind table remote = elim (Option-cases (get_elem? table (length table))) [
  | inl e ↦ rw (e, write_sid) refl
  | inr (r, e) ↦ absurd (omega (arith, get_elem?_lt table (length table) e))
]

module _ (S : Sids) where
  -- A place that is taken.
  abbrev pub IsEntry : RpcResult → Type 0
  IsEntry result = is_sid_t_any S result.server_sid ≡ false

  any_is_any : is_sid_t_any S sid_any ≡ true
  unfolding is_sid_t_any
  any_is_any = (S.is_all_matching_iff sid_any 0).1 (zeros_All 32)

  insert_loop-append :
      (entries : List RpcResult) (i k : ℕ)
      → All IsEntry entries
      → i + length entries + k ≡ 5
      → insert_loop S (entries ++ replicate k no_result) i ≡ pos (i + length entries)
  unfolding insert_loop
  insert_loop-append [] i zero h five =
      let at : i ≡ 5 = omega arith in
      let same : (i == 5) ≡ true = ground arith in rw same (ap pos (omega arith))
  insert_loop-append [] i (suc k) h five = rw any_is_any (ap pos (omega arith))
  insert_loop-append (entry ∷ entries) i k (h, hs) five =
      rw h (insert_loop-append entries (i + 1) k hs (omega arith) ∙ ap pos (omega arith))

  -- With entries at the front and empty places behind them, the place for a new entry is the one
  -- behind the entries; with five of them it is 5, which is no place.
  pub rpc_client_result_get_insert_index-padded :
      (entries : List RpcResult)
      → All IsEntry entries
      → length entries ≤ 5
      → rpc_client_result_get_insert_index S (padded entries) ≡ pos (length entries)
  unfolding rpc_client_result_get_insert_index
  rpc_client_result_get_insert_index-padded entries h few =
      insert_loop-append entries 0 (5 - length entries) h (omega arith) ∙ ap pos (omega arith)

  pub other_sid : (a b : Sid) → a ≢ b → (S.cmp_sid_t a b ==ℤ pos 0) ≡ false
  other_sid a b ne = elim (Bool-cases (S.cmp_sid_t a b ==ℤ pos 0)) [
    | inl same ↦ absurd (ne ((S.cmp_sid_t_iff a b).0 ((==ℤ_iff (S.cmp_sid_t a b) (pos 0)).0 same)))
    | inr other ↦ other
  ]

  sid_loop-absent :
      (table : List RpcResult) (sid : Sid) (i : ℕ)
      → All (λ r. r.server_sid ≢ sid) table
      → sid_loop S table sid i ≡ minus_one
  unfolding sid_loop
  sid_loop-absent [] sid i h = refl
  sid_loop-absent (r ∷ table) sid i (h, hs) =
      rw (other_sid sid r.server_sid (λ e. h (sym e))) (sid_loop-absent table sid (i + 1) hs)

  absent_padded :
      (entries : List RpcResult) (k : ℕ) (sid : Sid)
      → All (λ r. r.server_sid ≢ sid) entries
      → sid ≢ sid_any
      → All (λ r. r.server_sid ≢ sid) (entries ++ replicate k no_result)
  absent_padded [] zero sid h ne = tt
  absent_padded [] (suc k) sid h ne = ((λ e. ne (sym e)), absent_padded [] k sid h ne)
  absent_padded (r ∷ entries) k sid (h, hs) ne = (h, absent_padded entries k sid hs ne)

  -- A server without an entry is not found.
  pub rpc_client_result_get_sid_index-absent :
      (entries : List RpcResult) (sid : Sid)
      → All (λ r. r.server_sid ≢ sid) entries
      → sid ≢ sid_any
      → rpc_client_result_get_sid_index S (padded entries) sid ≡ minus_one
  unfolding rpc_client_result_get_sid_index
  rpc_client_result_get_sid_index-absent entries sid h ne =
      sid_loop-absent (padded entries) sid 0 (absent_padded entries (5 - length entries) sid h ne)

  module _ (system : System) (server_sid : Sid) (entries : List RpcResult) (remote : Sid) where
    -- What holds of the table of a broadcast call: its places are filled from the first one on, and the
    -- broadcast identifier is none of the servers.
    pub record IsBroadcastTable : Type 0 where
      pub is_broadcast : is_sid_t_broadcast S server_sid ≡ true
      pub ne_any : server_sid ≢ sid_any
      pub taken : All IsEntry entries
      pub no_server : All (λ r. r.server_sid ≢ server_sid) entries

    -- An ACK on a broadcast call makes a new entry behind the others, whether or not its server has
    -- one: the test looks for the identifier that was called, and not for the server.
    pub record_ack-padded :
        IsBroadcastTable
        → length entries < 5
        → record_ack S system server_sid (padded entries) remote
          ≡ ok (padded (entries ++ record no_result { server_sid = remote } ∷ []))
    unfolding record_ack write_sid
    record_ack-padded t few =
        let n = length entries in
        let entry : RpcResult = record no_result { server_sid = remote } in
        let spare : 5 - n ≡ suc (4 - n) = omega arith in
        let less : 5 - length (entries ++ entry ∷ []) ≡ 4 - n =
          omega (arith, length-append entries (entry ∷ [])) in
        rw
          (
            t.is_broadcast,
            rpc_client_result_get_sid_index-absent entries server_sid t.no_server t.ne_any,
            rpc_client_result_get_insert_index-padded entries t.taken (omega arith),
          )
          (rw (spare, less, append_assoc)
            (write_sid-append entries no_result (replicate (4 - n) no_result) remote))

    -- With five entries the next ACK on a broadcast call is written behind the table.
    pub record_ack_full :
        IsBroadcastTable
        → length entries ≡ 5
        → record_ack S system server_sid (padded entries) remote ≡ err out_of_bounds
    unfolding record_ack write_sid
    record_ack_full t full =
        let none_spare : 5 - length entries ≡ 0 = omega arith in
        rw
          (
            t.is_broadcast,
            rpc_client_result_get_sid_index-absent entries server_sid t.no_server t.ne_any,
            rpc_client_result_get_insert_index-padded entries t.taken (omega arith),
          )
          (rw (none_spare, append-nil) (write_sid_behind entries remote))
