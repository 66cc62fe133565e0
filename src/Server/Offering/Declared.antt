-- ===== src/Server/Offering/Declared.antt =====
-- Which procedures a server offers.
use dtn_rpc.Common.{
  ℕ, ◌≡◌, refl, ◌≢◌, ◌↔◌, ◌⊎◌, inl, inr, false, some, List, [], ◌∷◌, ◌++◌, arith, ◌==◌,
  if◌then◌else◌, Bool-cases, Bytes, length, All,
}
use dtn_rpc.Result.{ok}
use dtn_rpc.CString.{strn_eq, strtok}
use dtn_rpc.CString.Compare.{strn_eq-length}
use dtn_rpc.Server.{RpcProcedure}
use dtn_rpc.Server.Offering.{getlines, rpc_server_offering, offering_line, offering_loop}

-- A line with at least two words.
pub record IsDeclaration (line : Bytes) : Type 0 where
  pub name : Bytes
  pub behind_name : Bytes
  pub paramc : Bytes
  pub behind_paramc : Bytes
  pub name_read : strtok b' ' line ≡ some (name, behind_name)
  pub paramc_read : strtok b' ' behind_name ≡ some (paramc, behind_paramc)

abbrev pub IsPrefixOf : Bytes → Bytes → Type 0
IsPrefixOf a b = (rest : Bytes) × (b ≡ a ++ rest)

-- The line's first word begins the procedure's name.
abbrev pub Names : RpcProcedure → {line : Bytes} → IsDeclaration line → Type 0
Names rp d = IsPrefixOf d.name rp.name

-- The line's second word begins the decimal number of parameters, too.
abbrev pub Offers : RpcProcedure → {line : Bytes} → IsDeclaration line → Type 0
Offers rp d = Names rp d × IsPrefixOf d.paramc rp.paramc_s

abbrev verdict : RpcProcedure → {line : Bytes} → IsDeclaration line → ℕ
verdict rp d =
    if strn_eq d.name rp.name (length d.name)
    then (if strn_eq d.paramc rp.paramc_s (length d.paramc) then 2 else 1)
    else 0

module _ (rp : RpcProcedure) where
  offering_line-verdict :
      (line : Bytes) (d : IsDeclaration line) → offering_line rp line ≡ ok (verdict rp d)
  unfolding offering_line
  offering_line-verdict line d =
      rw d.name_read (elim (Bool-cases (strn_eq d.name rp.name (length d.name))) [
        | inl named ↦ rw (named, d.paramc_read)
        | inr other ↦ rw other
      ])

  verdict-Offers : {line : Bytes} (d : IsDeclaration line) → (verdict rp d ≡ 2) ↔ Offers rp d
  verdict-Offers d =
      ground (arith, strn_eq-length d.name rp.name, strn_eq-length d.paramc rp.paramc_s)

  verdict_named :
      {line : Bytes} (d : IsDeclaration line) → Names rp d → ¬ Offers rp d → verdict rp d ≡ 1
  verdict_named d named not_offered =
      let starts = (strn_eq-length d.name rp.name).1 named in
      elim (Bool-cases (strn_eq d.paramc rp.paramc_s (length d.paramc))) [
        | inl counted ↦
            absurd (not_offered (named, (strn_eq-length d.paramc rp.paramc_s).0 counted))
        | inr other ↦ rw (starts, other)
      ]

  not_two : {line : Bytes} (d : IsDeclaration line) → ¬ Offers rp d → (verdict rp d == 2) ≡ false
  not_two d not_offered =
      let other : verdict rp d ≢ 2 = λ e. not_offered ((verdict-Offers d).0 e) in ground arith

  abbrev pub SomeOffers : (lines : List Bytes) → All IsDeclaration lines → Type 0
  SomeOffers [] ds = ⊥
  SomeOffers (line ∷ lines) (d, ds) = Offers rp d ⊎ SomeOffers lines ds

  offering_loop-eq-two :
      (lines : List Bytes) (ds : All IsDeclaration lines) (ret : ℕ)
      → ret ≢ 2
      → (offering_loop rp lines ret ≡ ok 2) ↔ SomeOffers lines ds
  unfolding offering_loop
  offering_loop-eq-two [] ds ret ne = ground arith
  offering_loop-eq-two (line ∷ lines) (d, ds) ret ne =
      rw (offering_line-verdict line d) (elim (Bool-cases (verdict rp d == 2)) [
        | inl yes_two ↦
            let two : verdict rp d ≡ 2 = ground arith in
            rw two ((λ h. inl ((verdict-Offers d).0 two)), (λ h. refl))
        | inr less ↦
            let other : verdict rp d ≢ 2 = ground arith in
            rw less (
              (λ h. inr ((offering_loop-eq-two lines ds (verdict rp d) other).0 h)),
              (λ h. elim h [
                | inl offers ↦ absurd (other ((verdict-Offers d).1 offers))
                | inr later ↦ (offering_loop-eq-two lines ds (verdict rp d) other).1 later
              ]),
            )
      ])

  -- On a configuration of lines with at least two words the result is 2 exactly if some line's name
  -- is a prefix of the name of the call and its count a prefix of the count of the call.
  pub rpc_server_offering-eq-two :
      (conf_file : Bytes) (ds : All IsDeclaration (getlines conf_file))
      → (rpc_server_offering (some conf_file) rp ≡ ok 2) ↔ SomeOffers (getlines conf_file) ds
  unfolding rpc_server_offering
  rpc_server_offering-eq-two conf_file ds =
      offering_loop-eq-two (getlines conf_file) ds 0 (omega arith)

  offering_loop_last :
      (lines : List Bytes) (ds : All IsDeclaration lines) (line : Bytes) (d : IsDeclaration line)
      (ret : ℕ)
      → ¬ SomeOffers lines ds
      → Names rp d
      → ¬ Offers rp d
      → offering_loop rp (lines ++ line ∷ []) ret ≡ ok 1
  unfolding offering_loop
  offering_loop_last [] ds line d ret none_offers named not_offered =
      rw (offering_line-verdict line d, verdict_named d named not_offered)
  offering_loop_last (l ∷ lines) (dl, ds) line d ret none_offers named not_offered =
      rw (offering_line-verdict l dl, not_two dl (λ offers. none_offers (inl offers)))
        (offering_loop_last lines ds line d (verdict rp dl) (λ later. none_offers (inr later)) named
          not_offered)

  -- A call that no line offers is answered by 1, which the callers take for an offer, if the name
  -- in the last line is a prefix of the name of the call.
  pub rpc_server_offering_last_line :
      (conf_file : Bytes) (lines : List Bytes) (ds : All IsDeclaration lines) (line : Bytes)
      (d : IsDeclaration line)
      → getlines conf_file ≡ lines ++ line ∷ []
      → ¬ SomeOffers lines ds
      → Names rp d
      → ¬ Offers rp d
      → rpc_server_offering (some conf_file) rp ≡ ok 1
  unfolding rpc_server_offering
  rpc_server_offering_last_line conf_file lines ds line d split none_offers named not_offered =
      rw split (offering_loop_last lines ds line d 0 none_offers named not_offered)
