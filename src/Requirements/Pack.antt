-- ===== src/Requirements/Pack.antt =====
-- What the packed number is.
use dtn_rpc.Common.{
  get_elem?_inside, get_elem?_lt, ℕ, zero, suc, ◌+◌, ◌*◌, ◌%◌, ◌^◌, ◌≤◌, ◌<◌, bit_or, ◌≡◌, refl, ap,
  ◌∙◌, inl, inr, true, false, ◌||◌, some, List, [], ◌∷◌, map, arith, ltb, ◌==◌, Bool-cases, length,
  get_elem?, All,
}
use dtn_rpc.Common.{bit_or_nibble}
use dtn_rpc.Common.Int.{ℤ, pos}
use dtn_rpc.Result.{ok}
use dtn_rpc.Requirements.{
  u32_mod, out_of_range, to_u32, pack_pair, pack_loop, rpc_client_prepare_requirements,
}

abbrev pub IsNibble : ℕ → Type 0
IsNibble v = v < 16

-- The digits of a base-16 number behind the number read so far.
abbrev pub hex_value : ℕ → List ℕ → ℕ
hex_value n [] = n
hex_value n (v ∷ vs) = hex_value (n * 16 + v) vs

module _ (i n high low : ℕ) (hh : IsNibble high) (hl : IsNibble low) where
  with_low_value :
      n < 2 ^ 24
      → bit_or (bit_or (n * 16) (to_u32 (pos high)) * 16 % u32_mod) (to_u32 (pos low))
        ≡ (n * 16 + high) * 16 + low
  unfolding to_u32
  with_low_value hn =
      let eh : high % u32_mod ≡ high = omega arith in
      let el : low % u32_mod ≡ low = omega arith in
      let es : (n * 16 + high) * 16 % u32_mod ≡ (n * 16 + high) * 16 = omega arith in
      rw (eh, el, bit_or_nibble n high hh, es) (bit_or_nibble (n * 16 + high) low hl)

  pack_pair_last :
      (i == 6) ≡ true
      → n < 2 ^ 24
      → pack_pair i (n * 16) (pos high) (pos low) ≡ (n * 16 + high) * 16 + low
  unfolding pack_pair
  pack_pair_last at hn = ground (arith, with_low_value hn)

  pack_pair_more :
      (i == 6) ≡ false
      → n < 2 ^ 20
      → pack_pair i (n * 16) (pos high) (pos low) ≡ ((n * 16 + high) * 16 + low) * 16
  unfolding pack_pair
  pack_pair_more at hn = ground (arith, with_low_value (omega arith))

-- One round on values in range.
pack_loop_step :
    (rounds i n : ℕ) (values : List ℤ) (high low : ℕ)
    → get_elem? values i ≡ some (pos high)
    → get_elem? values (i + 1) ≡ some (pos low)
    → IsNibble high
    → IsNibble low
    → pack_loop (suc rounds) i values n
      ≡ pack_loop rounds (i + 2) values (pack_pair i n (pos high) (pos low))
unfolding pack_loop out_of_range
pack_loop_step rounds i n values high low ph pl hh hl =
    let eh : ltb 15 high ≡ false = ground arith in
    let el : ltb 15 low ≡ false = ground arith in rw (ph, pl, eh, el)

hex_value-lt :
    (n k : ℕ) (v w : ℕ) → n < k → IsNibble v → IsNibble w → (n * 16 + v) * 16 + w < k * 256
hex_value-lt n k v w h hv hw = omega arith

pack_eight :
    (a b c d e f g h : ℕ)
    → All IsNibble (a ∷ b ∷ c ∷ d ∷ e ∷ f ∷ g ∷ h ∷ [])
    → rpc_client_prepare_requirements (map pos (a ∷ b ∷ c ∷ d ∷ e ∷ f ∷ g ∷ h ∷ []))
      ≡ ok (hex_value 0 (a ∷ b ∷ c ∷ d ∷ e ∷ f ∷ g ∷ h ∷ []))
unfolding rpc_client_prepare_requirements
pack_eight a b c d e f g h (ha, (hb, (hc, (hd, (he, (hf, (hg, (hh, _)))))))) =
    let vs = map pos (a ∷ b ∷ c ∷ d ∷ e ∷ f ∷ g ∷ h ∷ []) in
    let n₁ : ℕ = (0 * 16 + a) * 16 + b in
    let n₂ : ℕ = (n₁ * 16 + c) * 16 + d in
    let n₃ : ℕ = (n₂ * 16 + e) * 16 + f in
    pack_loop_step 3 0 0 vs a b refl refl ha hb
    ∙ ap (pack_loop 3 2 vs) (pack_pair_more 0 0 a b ha hb refl (omega arith))
    ∙ pack_loop_step 2 2 (n₁ * 16) vs c d refl refl hc hd
    ∙ ap (pack_loop 2 4 vs) (pack_pair_more 2 n₁ c d hc hd refl (omega arith))
    ∙ pack_loop_step 1 4 (n₂ * 16) vs e f refl refl he hf
    ∙ ap (pack_loop 1 6 vs) (pack_pair_more 4 n₂ e f he hf refl (omega arith))
    ∙ pack_loop_step 0 6 (n₃ * 16) vs g h refl refl hg hh
    ∙ ap (pack_loop 0 8 vs) (pack_pair_last 6 n₃ g h hg hh refl (omega arith))
    ∙ unfold pack_loop in refl

-- Eight values from 0 to 15 are packed as the digits of a base-16 number, the first one highest.
pub prepare_requirements_value :
    (vs : List ℕ)
    → length vs ≡ 8
    → All IsNibble vs
    → rpc_client_prepare_requirements (map pos vs) ≡ ok (hex_value 0 vs)
prepare_requirements_value (a ∷ b ∷ c ∷ d ∷ e ∷ f ∷ g ∷ h ∷ []) len all =
    pack_eight a b c d e f g h all
prepare_requirements_value vs len all = absurd (omega arith)

-- The packed number is a `uint32_t`.
hex_value-lt_eight : (vs : List ℕ) → length vs ≡ 8 → All IsNibble vs → hex_value 0 vs < 2 ^ 32
hex_value-lt_eight (a ∷ b ∷ c ∷ d ∷ e ∷ f ∷ g ∷ h ∷ []) len all = omega arith
hex_value-lt_eight vs len all = absurd (omega arith)

pack_loop_rejects :
    (rounds i n : ℕ) (values : List ℤ) (j : ℕ) (v : ℤ)
    → length values ≡ i + 2 * rounds
    → i ≤ j
    → get_elem? values j ≡ some v
    → out_of_range v ≡ true
    → pack_loop rounds i values n ≡ ok 0
unfolding pack_loop
pack_loop_rejects zero i n values j v len le at bad =
    absurd (omega (arith, get_elem?_lt values j at))
pack_loop_rejects (suc rounds) i n values j v len le at bad =
    let (high, eh) = get_elem?_inside values i (omega arith) in
    let (low, el) = get_elem?_inside values (i + 1) (omega arith) in
    rw (eh, el)
      (elim (Bool-cases (out_of_range high || out_of_range low)) [
        | inl stop ↦ rw stop
        | inr go ↦ rw go (
            pack_loop_rejects rounds (i + 2) (pack_pair i n high low) values j v (omega arith)
              (later high low eh el go) at bad)
      ])
  where
    later :
        (high low : ℤ)
        → get_elem? values i ≡ some high
        → get_elem? values (i + 1) ≡ some low
        → (out_of_range high || out_of_range low) ≡ false
        → i + 2 ≤ j
    later high low eh el go = elim (Bool-cases (j == i)) [
      | inl same ↦ let e : j ≡ i = ground arith in ground (arith, ap (get_elem? values) e)
      | inr other ↦ elim (Bool-cases (j == i + 1)) [
        | inl same ↦ let e : j ≡ i + 1 = ground arith in ground (arith, ap (get_elem? values) e)
        | inr another ↦ ground arith
      ]
    ]

-- An array of eight with any value below 0 or above 15 gives 0.
pub prepare_requirements_rejects :
    (values : List ℤ) (j : ℕ) (v : ℤ)
    → length values ≡ 8
    → get_elem? values j ≡ some v
    → out_of_range v ≡ true
    → rpc_client_prepare_requirements values ≡ ok 0
unfolding rpc_client_prepare_requirements
prepare_requirements_rejects values j v len at bad =
    pack_loop_rejects 4 0 0 values j v (omega arith) (omega arith) at bad
