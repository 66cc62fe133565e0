-- ===== src/System/Sample.antt =====
-- A host on which a procedure "add" is declared and installed, for tests.
use dtn_rpc.Common.{true, Bool, Option, Bytes, codes, some, none, replicate, []}
use dtn_rpc.Common.Int.{ℤ, pos}
use dtn_rpc.CString.{str_eq}
use dtn_rpc.Memory.{length-drop}
use dtn_rpc.Common.{
  ℕ, ◌+◌, ◌≤◌, ◌≡◌, arith, leb, ltb, length, take, drop, if◌then◌else◌, Bool-cases, inl, inr, ◌||◌,
  ◌∷◌, ◌++◌,
}
use dtn_rpc.Common.Int.{minus_one}
use dtn_rpc.System.{Overlay, Overlays, System}

abbrev pub take_bytes : ℕ → Overlay → Option Bytes × Overlay
take_bytes n buff =
    if leb n (length buff.rest)
    then (some (take n buff.rest), record buff { rest = drop n buff.rest })
    else (none, record buff { overrun = true })

abbrev pub take_byte : Bytes → Bool → ℤ × Overlay
take_byte [] overrun = (minus_one, record { rest = []; overrun = true })
take_byte (c ∷ cs) overrun = (pos c, record { rest = cs; overrun = overrun })

abbrev pub skip_bytes : ℕ → Overlay → Overlay
skip_bytes n buff = record {
  rest = drop n buff.rest;
  overrun = buff.overrun || ltb (length buff.rest) n;
}

pub take_bytes_shorter :
    (n : ℕ) (buff : Overlay) → length (take_bytes n buff).1.rest ≤ length buff.rest
take_bytes_shorter n buff = elim (Bool-cases (leb n (length buff.rest))) [
  | inl fits ↦ rw fits (omega (arith, length-drop n buff.rest))
  | inr short ↦ rw short (omega arith)
]

pub take_byte_shorter :
    (rest : Bytes) (overrun : Bool) (n : ℕ)
    → (take_byte rest overrun).0 ≡ pos n
    → length (take_byte rest overrun).1.rest + 1 ≤ length rest
take_byte_shorter [] overrun n h = absurd cc
take_byte_shorter (c ∷ cs) overrun n h = omega arith

abbrev pub sample_overlays : Overlays
sample_overlays = record {
  ob_get_bytes_ptr = take_bytes;
  ob_get = λ buff. take_byte buff.rest buff.overrun;
  ob_skip = skip_bytes;
  identity_size = 32;
  length-ob_get_bytes_ptr = take_bytes_shorter;
  length-ob_get = λ buff. take_byte_shorter buff.rest buff.overrun;
  length-ob_skip = λ n buff. omega (arith, length-drop n buff.rest);
}

-- One program is there; it prints "3" and a newline, and ends with status 0.
abbrev pub sample_system : System
sample_system = record {
  sysconfdir = codes "/etc";
  conf_file = some (codes "add 2 int int\n");
  exists = λ path. str_eq path (codes "/etc/serval/rpc_bin/add");
  popen = λ command. some (codes "3\n", 0);
  polls = [];
  insert = λ manifest. some (codes "id=1\n");
  overlays = sample_overlays;
  routes = some (some (replicate 32 1 ++ 0 ∷ 2 ∷ []) ∷ []);
  uninit = replicate 960 9;
  behind = replicate 1000 9;
}

-- The same host, where the configuration file is missing.
abbrev pub bare_system : System
bare_system = record sample_system { conf_file = none }
