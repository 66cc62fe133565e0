-- ===== src/CommandLine/Options.antt =====
-- The options on the command line of main.c.
use dtn_rpc.Common.{◌≡◌, refl, ◌↔◌, ◌⊎◌, inl, inr, true, ◌++◌, Bool-cases, Bytes, codes, length}
use dtn_rpc.CString.{strn_eq}
use dtn_rpc.CString.Compare.{strn_eq-prefix}
use dtn_rpc.CommandLine.{check_cli}

-- The argument begins with the prefix.
abbrev pub Begins : Bytes → Bytes → Type 0
Begins arg prefix = (rest : Bytes) × (arg ≡ prefix ++ rest)

-- An argument is taken for an option exactly if it begins with its long or its short form, whatever
-- stands behind that.
pub check_cli_iff :
    (arg option abbreviation : Bytes)
    → (check_cli arg option abbreviation ≡ true)
      ↔ (Begins arg (codes "--" ++ option) ⊎ Begins arg (codes "-" ++ abbreviation))
unfolding check_cli
check_cli_iff arg option abbreviation =
    let long = codes "--" ++ option in
    let short = codes "-" ++ abbreviation in
    let (long_to, long_from) = strn_eq-prefix long arg in
    let (short_to, short_from) = strn_eq-prefix short arg in
    (
      (λ h. elim (Bool-cases (strn_eq arg long (length long))) [
        | inl equal ↦ inl (long_to equal)
        | inr differs ↦ inr (short_to (rw differs at h))
      ]),
      (λ h. elim h [
        | inl begins ↦ rw (long_from begins) refl
        | inr begins ↦ elim (Bool-cases (strn_eq arg long (length long))) [
          | inl equal ↦ rw equal refl
          | inr differs ↦ rw differs (short_from begins)
        ]
      ]),
    )
