-- ===== src/System.antt =====
-- What the program meets outside itself while one of its functions runs, and what it does there.
-- Serval, cURL, the JSON parser and the operating system are inputs: each field says what the calls
-- return. The actions are recorded in order.
pub mod Sample
pub mod Ensures
use dtn_rpc.Common.{ℕ, ◌+◌, ◌≤◌, ◌≡◌, Bool, Option, List, [], ◌∷◌, ◌++◌, Bytes, length}
use dtn_rpc.Common.Int.{ℤ, pos}
use dtn_rpc.Result.{Result, ok, err}
use dtn_rpc.Serval.{Sid}

-- One row of Serval's `bundlelist.json`, by the columns that the program reads; a JSON `null` has no
-- `valuestring`.
pub record Bundle : Type 0 where
  pub token : Option Bytes  -- column 0
  pub service : Option Bytes  -- column 2
  pub id : Bytes  -- column 3
  pub in_time : ℕ  -- column 4
  pub inserttime : ℕ  -- column 6
  pub filesize : ℕ  -- column 9
  pub sender : Option Bytes  -- column 11
  pub recipient : Option Bytes  -- column 12
  pub name : Option Bytes  -- column 13

-- One look at the Rhizome store over its HTTP interface.
pub record Poll : Type 0 where
  -- whether `curl_easy_init` gives a handle, the first and the second time
  pub handle : Bool
  pub handle_again : Bool
  -- `none`: `curl_easy_perform` failed
  pub bundles : Option (List Bundle)
  -- the decrypted payload by bundle id; `none`: `curl_easy_perform` failed
  pub decrypted : Bytes → Option Bytes

-- An overlay buffer of Serval: the bytes that are not read yet, and whether a read went past the end.
pub record Overlay : Type 0 where
  pub rest : Bytes
  pub overrun : Bool

-- Serval's reads from such a buffer: what they return, and the buffer afterwards. A byte that is
-- read is used up, and no read gives bytes back.
pub record Overlays : Type 0 where
  pub ob_get_bytes_ptr : ℕ → Overlay → Option Bytes × Overlay
  pub ob_get : Overlay → ℤ × Overlay
  pub ob_skip : ℕ → Overlay → Overlay
  pub identity_size : ℕ
  pub length-ob_get_bytes_ptr :
      (n : ℕ) (buff : Overlay) → length (ob_get_bytes_ptr n buff).1.rest ≤ length buff.rest
  pub length-ob_get :
      (buff : Overlay) (n : ℕ)
      → (ob_get buff).0 ≡ pos n
      → length (ob_get buff).1.rest + 1 ≤ length buff.rest
  pub length-ob_skip : (n : ℕ) (buff : Overlay) → length (ob_skip n buff).rest ≤ length buff.rest

pub record System : Type 0 where
  pub sysconfdir : Bytes
  -- the text of rpc.conf, if it is there
  pub conf_file : Option Bytes
  -- `!access(path, F_OK)`
  pub exists : Bytes → Bool
  -- what a command prints and its exit status; `none`: `popen` gives `NULL`
  pub popen : Bytes → Option (Bytes × ℕ)
  -- the store as each attempt to download a file finds it, one a second
  pub polls : List Poll
  -- the response to an insertion, by its manifest; `none`: no handle, or `curl_easy_perform` failed
  pub insert : Bytes → Option Bytes
  pub overlays : Overlays
  -- the packets of Serval's routing table, `none` where receiving fails; `none`: there is no socket
  pub routes : Option (List (Option Bytes))
  -- the RPC_PKT_SIZE bytes of an array that nothing has written
  pub uninit : Bytes
  -- the memory behind a one-byte array
  pub behind : Bytes

pub data Effect : Type 0 where
  msp_stop msp_shutdown : Effect
  msp_send : Bytes → Effect
  mdp_send : Sid → Bytes → Effect
  -- the command line that is run
  run : Bytes → Effect
  -- manifest and payload that are posted to the store; the payload by its bytes, or by its path
  insert_bytes : Bytes → Bytes → Effect
  insert_file : Bytes → Bytes → Effect

-- A function that acts on the outside, and may fault. The trace holds the actions, the last one last.
abbrev pub Exec : Type 0 → Type 0
Exec A = List Effect → Result (A × List Effect)

abbrev pub pure : {A : Type 0} → A → Exec A
pure a trace = ok (a, trace)

abbrev pub emit : Effect → Exec (Unit {0})
emit e trace = ok (tt, trace ++ e ∷ [])

abbrev pub lift : {A : Type 0} → Result A → Exec A
lift r trace = elim r [ ok a ↦ ok (a, trace) | err e ↦ err e ]

infixl 5 ◌>>=◌ ◌>>◌
abbrev pub ◌>>=◌ : {A B : Type 0} → Exec A → (A → Exec B) → Exec B
◌>>=◌ m f trace = elim (m trace) [ ok (a, trace') ↦ f a trace' | err e ↦ err e ]

abbrev pub ◌>>◌ : {A B : Type 0} → Exec A → Exec B → Exec B
m >> k = m >>= λ _. k
