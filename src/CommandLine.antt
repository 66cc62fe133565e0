-- ===== src/CommandLine.antt =====
-- The command line: main.c.
pub mod Options
pub mod Values
pub mod Call
pub mod Main
pub mod Params
pub mod Arguments
pub mod Run
use dtn_rpc.Common.{
  ℕ, zero, suc, ◌+◌, ◌-◌, ◌*◌, Bool, ◌&&◌, ◌||◌, none, some, List, [], ◌∷◌, ◌++◌, leb, ◌==◌,
  if◌then◌else◌, Bytes, codes, length, set,
}
use dtn_rpc.Common.Int.{ℤ, pos, negsuc}
use dtn_rpc.CString.{strn_eq, strtok}

-- `_check_cli`: whether the argument starts like the option, or like its abbreviation. The arrays of
-- the source have no byte for the terminator that `sprintf` writes; here it is behind them.
unfoldable pub check_cli : Bytes → Bytes → Bytes → Bool
check_cli arg option abbreviation =
    let lng_option = codes "--" ++ option in
    let lng_abbrev = codes "-" ++ abbreviation in
    strn_eq arg lng_option (length lng_option) || strn_eq arg lng_abbrev (length lng_abbrev)

is_space : ℕ → Bool
is_space c = c == 32 || (leb 9 c && leb c 13)

skip_spaces : Bytes → Bytes
unfolding is_space
skip_spaces [] = []
skip_spaces (c ∷ cs) = if is_space c then skip_spaces cs else c ∷ cs

digits_value : ℕ → Bytes → ℕ
digits_value n [] = n
digits_value n (c ∷ cs) =
    if leb b'0' c && leb c b'9' then digits_value (n * 10 + (c - b'0')) cs else n

negative : ℕ → ℤ
negative zero = pos 0
negative (suc n) = negsuc n

signed_value : Bytes → ℤ
unfolding digits_value negative
signed_value [] = pos 0
signed_value (c ∷ cs) =
    if c == b'-'
    then negative (digits_value 0 cs)
    else if c == b'+'
    then pos (digits_value 0 cs)
    else pos (digits_value 0 (c ∷ cs))

-- `atoi`. A number that no `int` holds is undefined in C; here it is the number.
unfoldable pub atoi : Bytes → ℤ
unfolding skip_spaces signed_value
atoi s = signed_value (skip_spaces s)

-- `while (val_str && i < 8)`, by the rounds that are left.
unfoldable pub str_loop : ℕ → ℕ → Bytes → List ℤ → List ℤ
unfolding atoi
str_loop zero i text values = values
str_loop (suc rounds) i text values = elim (strtok b',' text) [
  | none ↦ values
  | some (val_str, rest) ↦ str_loop rounds (i + 1) rest (set values i (atoi val_str))
]

-- `_str_to_int_arr`
unfoldable pub str_to_int_arr : List ℤ → Bytes → List ℤ
unfolding str_loop
str_to_int_arr values input_string = str_loop 8 0 input_string values

-- The loop that counts the commas of the last argument. Its pointer and its count move the place that
-- it looks at by one in turn.
unfoldable pub count_commas : ℕ → Bytes → ℕ
count_commas num_commas [] = num_commas
count_commas num_commas (c ∷ cs) =
    if c == b',' then count_commas (num_commas + 1) cs else count_commas num_commas cs

-- `num_commas == 7 && last_arg_len == 15`
unfoldable pub has_requirements : Bytes → Bool
unfolding count_commas
has_requirements last_arg = count_commas 0 last_arg == 7 && length last_arg == 15

-- The array `values` of a call, which `main` leaves to what was in memory.
unfoldable pub call_values : List ℤ → Bytes → List ℤ
unfolding has_requirements str_to_int_arr
call_values old last_arg =
    if has_requirements last_arg
    then str_to_int_arr old last_arg
    else str_to_int_arr old (codes "0,0,0,0,0,0,0,0")

-- The server that the arguments behind the program's name ask for.
pub data ServerCommand : Type 0 where
  listen_msp listen_mdp listen_rhizome listen_all bad_option too_many : ServerCommand

-- The branch of `main` for the server, from the arguments behind the first.
unfoldable pub server_command : List Bytes → ServerCommand
unfolding check_cli
server_command [] = listen_all
server_command (option ∷ []) =
    if check_cli option (codes "msp") (codes "s")
    then listen_msp
    else if check_cli option (codes "mdp") (codes "d")
    then listen_mdp
    else if check_cli option (codes "rhizome") (codes "r")
    then listen_rhizome
    else bad_option
server_command (option ∷ more ∷ rest) = too_many
