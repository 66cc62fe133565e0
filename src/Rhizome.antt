-- ===== src/Rhizome.antt =====
-- rpc_helpers.c: files that travel through the Rhizome store.
pub mod Insert
use dtn_rpc.Common.{
  ℕ, zero, suc, ◌+◌, ◌/◌, ◌%◌, Bool, true, false, ◌&&◌, ◌||◌, Option, none, some, List, [], ◌∷◌,
  ◌++◌, ltb, leb, if◌then◌else◌, Bytes, codes, length,
}
use dtn_rpc.Common.Int.{ℤ, pos, ◌==ℤ◌, minus_one}
use dtn_rpc.Result.{Result, ok, err, out_of_fuel, null_pointer, out_of_bounds, deref, ◌>>=◌}
use dtn_rpc.CString.{str_eq, strn_eq}
use dtn_rpc.Serval.{Sid, sid_broadcast, Sids, is_sid_t_broadcast}
use dtn_rpc.System.{Bundle, Poll}

-- `sprintf(s, "%" PRId64, n)` of a time, which is not negative: the digits in front of `out`.
print_digits : ℕ → ℕ → Bytes → Bytes
print_digits zero n out = out
print_digits (suc fuel) n out =
    let next = print_digits fuel (n / 10) ((b'0' + n % 10) ∷ out) in
    if ltb n 10 then (b'0' + n) ∷ out else next

-- 20 digits hold every 64-bit number.
abbrev print_int64 : ℕ → Bytes
print_int64 n = print_digits 20 n []

module _ (S : Sids) where
  abbrev pub hex_mine : Bytes
  hex_mine = S.alloca_tohex_sid_t S.my_sid

  -- `recipient ? !strcmp(recipient, mine) : 1`
  unfoldable pub is_for_me : Option Bytes → Bool
  is_for_me none = true
  is_for_me (some recipient) = str_eq recipient hex_mine

  right_client : Bytes → Option Bytes → Bool
  right_client sid none = false
  right_client sid (some sender) =
      strn_eq (S.alloca_tohex_sid_t sid_broadcast) sid (length sid)
      || strn_eq sender sid (length sid)

  -- The four tests of one round of the loop in `_rpc_download_file`.
  is_wanted : Bytes → Bytes → Bundle → Result Bool
  unfolding is_for_me right_client
  is_wanted rpc_name sid file = do
    service ← deref file.service
    name ← deref file.name
    let rpc_cmp_name = codes "f_" ++ rpc_name
    let service_is_rpc = strn_eq service (codes "RPC") 3
    let filename_is_right = strn_eq name rpc_cmp_name (length rpc_cmp_name)
    let right = right_client sid file.sender
    ok (service_is_rpc && is_for_me file.recipient && filename_is_right && right)

  -- "%s%s" of RPC_TMP_FOLDER and `rpc_down_name`. That array has 4 bytes, those of the name, and 8 each
  -- for `sizeof(in_time)` and `sizeof(sender)`, a pointer; what is printed into it must fit. A sender of
  -- NULL is never wanted.
  download_path : Bytes → Bundle → Option Bytes → Result Bytes
  unfolding print_digits
  download_path rpc_name file none = err null_pointer
  download_path rpc_name file (some sender) =
      let stamp = print_int64 file.in_time in
      let rpc_down_name = codes "f_" ++ (rpc_name ++ (b'_' ∷ (stamp ++ (b'_' ∷ sender)))) in
      if leb (4 + length rpc_name + 8 + 8) (length rpc_down_name)
      then err out_of_bounds
      else ok (codes "/tmp/rpc_tmp/" ++ rpc_down_name)

  -- The body for a wanted file: the return code, and the path with what was written there.
  fetch_file : Poll → Bytes → Bundle → Result (ℤ × Option (Bytes × Bytes))
  unfolding download_path
  fetch_file poll rpc_name file =
      if poll.handle_again
      then (do
        path ← download_path rpc_name file file.sender
        ok (elim (poll.decrypted file.id) [
          | none ↦ (minus_one, none)
          | some content ↦ (pos 1, some (path, content))
        ]))
      else ok (minus_one, none)

  -- `for (i = 0; i < num_rows; i++)`, left at the first wanted file.
  download_loop : Poll → Bytes → Bytes → List Bundle → Result (ℤ × Option (Bytes × Bytes))
  unfolding is_wanted fetch_file
  download_loop poll rpc_name sid [] = ok (minus_one, none)
  download_loop poll rpc_name sid (file ∷ files) = do
    let next = download_loop poll rpc_name sid files
    wanted ← is_wanted rpc_name sid file
    if wanted then fetch_file poll rpc_name file else next

  list_files : Poll → Bytes → Bytes → Option (List Bundle) → Result (ℤ × Option (Bytes × Bytes))
  unfolding download_loop
  list_files poll rpc_name sid none = ok (minus_one, none)
  list_files poll rpc_name sid (some []) = ok (pos 0, none)
  list_files poll rpc_name sid (some (file ∷ files)) =
      download_loop poll rpc_name sid (file ∷ files)

  unfoldable pub rpc_download_file : Poll → Bytes → Bytes → Result (ℤ × Option (Bytes × Bytes))
  unfolding list_files
  rpc_download_file poll rpc_name sid =
      if poll.handle then list_files poll rpc_name sid poll.bundles else ok (minus_one, none)

  -- `while (_rpc_download_file(fpath, …) != 1) sleep(1);` over the looks at the store that the run
  -- makes: the path, or `out_of_fuel` where none of them found the file.
  unfoldable pub await_download : List Poll → Bytes → Bytes → Result Bytes
  await_download [] rpc_name sid = err out_of_fuel
  await_download (poll ∷ polls) rpc_name sid = do
    let again = await_download polls rpc_name sid
    (code, file) ← rpc_download_file poll rpc_name sid
    elim file [ none ↦ again | some (path, _) ↦ if code ==ℤ pos 1 then ok path else again ]

  -- The manifest of a file; a broadcast has no recipient. `manifest_str` has no byte for the terminator.
  unfoldable pub file_manifest : Sid → Bytes → Bytes
  file_manifest sid rpc_name =
      let head = codes "service=RPC\nname=f_" ++ (rpc_name ++ (codes "\nsender=" ++ hex_mine)) in
      if is_sid_t_broadcast S sid
      then head ++ codes "\n"
      else head ++ (codes "\nrecipient=" ++ (S.alloca_tohex_sid_t sid ++ codes "\n"))
