-- ===== src/Tests/Delayed.antt =====
-- Calls through the Rhizome store at concrete inputs: the code of rpc_client_rhizome.c.
use dtn_rpc.Common.{
  ℕ, ◌≤◌, ◌≡◌, refl, true, false, some, List, [], ◌∷◌, ◌++◌, arith, Bytes, codes, length, replicate,
}
use dtn_rpc.Common.Int.{pos, minus_one}
use dtn_rpc.System.{Bundle, insert_bytes}
use dtn_rpc.Result.{ok}
use dtn_rpc.CString.{c_string, str_eq, strn_eq}
use dtn_rpc.Serval.{Sid, Sids, is_sid_t_broadcast}
use dtn_rpc.Wire.{rpc_pkt_call_ack, rpc_pkt_call_response}
use dtn_rpc.Filehash.{rpc_str_is_filehash}
use dtn_rpc.Serval.Sample.{sample_words, sample_sids, sample_sid}
use dtn_rpc.System.Sample.{sample_system}
use dtn_rpc.Client.{no_results, ClientState}
use dtn_rpc.Client.Rhizome.{StoreTick, RhizomeRun, call_manifest, rpc_client_call_rhizome}
use dtn_rpc.Client.Rhizome.Listing.{IsOther, IsAnswerOf}
use dtn_rpc.Client.Rhizome.Looks.{IsVain}
use dtn_rpc.Client.Rhizome.Found.{IsFound}
use dtn_rpc.Client.Rhizome.Posted.{IsFirst, IsReady}
use dtn_rpc.Client.Rhizome.Answered.{IsAnswered}
use dtn_rpc.Client.Rhizome.Unanswered.{rpc_client_call_rhizome_unanswered}
use dtn_rpc.Tests.Listen.{bundle}
use dtn_rpc.Tests.Mdp.{add_packet, one_no_path}

abbrev pub client_5 : Sid
client_5 = replicate 32 5

-- The identifiers as the client's host has them.
abbrev pub client_sids : Sids
client_sids = record sample_sids { my_sid = client_5 }

-- A bundle that a client posts for all, as the store shows it.
abbrev other_bundle : Bundle
other_bundle = record bundle { token = some (codes "t0") }

-- A bundle of the server for the client.
abbrev answer_bundle : ℕ → Bundle
answer_bundle size = record bundle {
  token = some (codes "t1");
  filesize = size;
  sender = some (replicate 32 8);
  recipient = some (replicate 32 6);
}

abbrev pub ack_bytes : Bytes
ack_bytes = rpc_pkt_call_ack ∷ replicate 958 9

abbrev pub result_bytes : Bytes
result_bytes = rpc_pkt_call_response ∷ codes "3\n" ++ replicate 956 0

abbrev look : ℕ → List Bundle → Bytes → StoreTick
look seconds rows content = record {
  elapsed = seconds;
  now = 6;
  store = record {
    handle = true;
    handle_again = true;
    bundles = some rows;
    decrypted = λ id. some content;
  };
}

abbrev store_run : List StoreTick → RhizomeRun
store_run ticks = record { insert_handle = true; listen_handle = true; ticks = ticks }

abbrev pub state : ClientState
state = record { received = pos 0; rpc_result = no_results }

abbrev pub manifest : Bytes
manifest = call_manifest sample_words client_sids sample_system sample_sid (codes "add")

other_bundle-IsOther :
    IsOther sample_words client_sids sample_system sample_sid (codes "add") other_bundle
other_bundle-IsOther = record {
  service = codes "RPC";
  name = codes "add";
  token = codes "t0";
  has_service = refl;
  has_name = refl;
  has_token = refl;
  not_mine = refl;
}

is_answer_of :
    (seconds : ℕ) (rows : List Bundle) (bytes : Bytes)
    → IsAnswerOf sample_words client_sids sample_system sample_sid
        (codes "add")
        (look seconds rows bytes).store
        6
        sample_sid
        bytes
        (answer_bundle (length bytes))
unfolding strn_eq str_eq
is_answer_of seconds rows bytes = record {
  service = codes "RPC";
  name = codes "add";
  token = codes "t1";
  sender = replicate 32 8;
  has_service = refl;
  is_rpc = refl;
  has_name = refl;
  is_name = refl;
  has_token = refl;
  mine = refl;
  recent = omega arith;
  has_sender = refl;
  has_sid = refl;
  has_size = refl;
  has_content = refl;
}

abbrev answer_look : ℕ → Bytes → StoreTick
answer_look seconds bytes = look seconds (answer_bundle (length bytes) ∷ []) bytes

found :
    (limit seconds : ℕ) (bytes : Bytes)
    → seconds ≤ limit
    → IsFound sample_words client_sids sample_system sample_sid
        (codes "add")
        limit
        sample_sid
        bytes
        (answer_look seconds bytes)
found limit seconds bytes in_time = record {
  before = [];
  file = answer_bundle (length bytes);
  after = [];
  in_time = in_time;
  finds = refl;
  other_before = tt;
  is_answer = is_answer_of seconds (answer_bundle (length bytes) ∷ []) bytes;
  other_after = tt;
}

vain :
    (limit seconds : ℕ)
    → seconds ≤ limit
    → IsVain sample_words client_sids sample_system sample_sid
        (codes "add")
        limit
        (look seconds (other_bundle ∷ []) [])
vain limit seconds in_time = record {
  rows = other_bundle ∷ [];
  in_time = in_time;
  finds = refl;
  all_other = (other_bundle-IsOther, tt);
}

look-IsFirst :
    IsFirst sample_words client_sids sample_system sample_sid
      (codes "add")
      (look 0 (other_bundle ∷ []) [])
look-IsFirst = record {
  file = other_bundle;
  others = [];
  in_time = omega arith;
  finds = refl;
  is_other = other_bundle-IsOther;
}

pub ready :
    (ticks : List StoreTick)
    → IsReady sample_words client_sids sample_system sample_sid
        (codes "add")
        (store_run ticks)
        (codes "1")
        (codes "2" ∷ [])
        0
        state
        []
ready ticks = record {
  response = codes "id=1\n";
  insert_handle = refl;
  listen_handle = refl;
  inserts = refl;
  plain = one_no_path;
  fits = omega arith;
}

abbrev pub answered_run : RhizomeRun
answered_run = store_run (
    look 0 (other_bundle ∷ []) []
    ∷ look 2 (other_bundle ∷ []) []
    ∷ answer_look 4 ack_bytes
    ∷ look 60 (other_bundle ∷ []) []
    ∷ answer_look 90 result_bytes
    ∷ [])

pub answers :
    IsAnswered sample_words client_sids sample_system sample_sid
      (codes "add")
      answered_run
      sample_sid
      ack_bytes
      result_bytes
answers = record {
  first = look 0 (other_bundle ∷ []) [];
  vain = look 2 (other_bundle ∷ []) [] ∷ [];
  ack = answer_look 4 ack_bytes;
  idle = look 60 (other_bundle ∷ []) [] ∷ [];
  result = answer_look 90 result_bytes;
  later = [];
  rounds = refl;
  is_first = look-IsFirst;
  all_vain = (vain 20 2 (omega arith), tt);
  finds_ack = found 20 4 ack_bytes (omega arith);
  all_idle = (vain 120 60 (omega arith), tt);
  finds_result = found 120 90 result_bytes (omega arith);
}

pub one_server : is_sid_t_broadcast client_sids sample_sid ≡ false
unfolding is_sid_t_broadcast
one_server = refl

three_reads : c_string (codes "3\n" ++ replicate 956 0) ≡ ok (codes "3\n")
unfolding c_string
three_reads = refl

pub three_no_file : rpc_str_is_filehash (codes "3\n") ≡ false
unfolding rpc_str_is_filehash
three_no_file = refl

abbrev vain_run : RhizomeRun
vain_run =
    store_run (look 0 (other_bundle ∷ []) [] ∷ look 2 (other_bundle ∷ []) [] ∷ look 21 [] [] ∷ [])

rpc_client_call_rhizome_unanswered_example :
    rpc_client_call_rhizome sample_words client_sids sample_system sample_sid
      (codes "add")
      vain_run
      2
      (some (codes "1") ∷ some (codes "2") ∷ [])
      0
      state
      []
    ≡ ok (
      (minus_one, record { received = pos 0; rpc_result = no_results }),
      insert_bytes manifest add_packet ∷ [],
    )
rpc_client_call_rhizome_unanswered_example =
    rpc_client_call_rhizome_unanswered sample_words client_sids sample_system sample_sid
      (codes "add") vain_run (codes "1") (codes "2" ∷ []) 0 state [] (ready vain_run.ticks)
      (record {
        look = look 0 (other_bundle ∷ []) [];
        vain = look 2 (other_bundle ∷ []) [] ∷ [];
        last = look 21 [] [];
        rounds = refl;
        is_first = look-IsFirst;
        all_vain = (vain 20 2 (omega arith), tt);
        late = omega arith;
      })
