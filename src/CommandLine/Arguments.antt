-- ===== src/CommandLine/Arguments.antt =====
-- The arguments of a call as the program finds them.
use dtn_rpc.Common.{
  ℕ, ◌+◌, ◌-◌, ◌%◌, ◌^◌, ◌≤◌, ◌<◌, ◌≡◌, refl, ◌∙◌, Bool, true, false, ◌||◌, some, List, [], ◌∷◌,
  ◌++◌, map, append-nil, arith, if◌then◌else◌, Bytes, codes, length, replicate, length-append, All,
}
use dtn_rpc.Common.Int.{ℤ}
use dtn_rpc.Result.{out_of_bounds, ok, err}
use dtn_rpc.CString.{str_eq, strn_eq}
use dtn_rpc.CString.Tokens.{join_rest}
use dtn_rpc.Serval.{Sid, Sids, is_sid_t_broadcast, is_sid_t_any}
use dtn_rpc.Requirements.{u32_mod, rpc_client_prepare_requirements}
use dtn_rpc.CommandLine.{check_cli, has_requirements, call_values}
use dtn_rpc.CommandLine.Call.{
  argument, Call, Way, way_msp, way_rhizome, way_mdp, way_transparent, make, more_params,
  call_params, call_sid, call_way, call_command, sid_command, client_command,
}
use dtn_rpc.Requirements.Pack.{IsNibble, hex_value, prepare_requirements_value}
use dtn_rpc.CommandLine.Values.{
  IsDigit, digit_text, has_requirements-digits, call_values-digits, call_values-plain, eight_zeros,
}
use dtn_rpc.CommandLine.Params.{argument_end, last_of, last_of-snoc, call_params-append}

-- What stands in front of "--" for each way.
abbrev pub option_args : Way → List Bytes
option_args way_msp = codes "-s" ∷ []
option_args way_rhizome = codes "-r" ∷ []
option_args way_mdp = codes "-d" ∷ []
option_args way_transparent = []

-- The command line of a call; `after` stands behind the parameters.
abbrev pub command_line : Bytes → Way → Bytes → Bytes → List Bytes → List Bytes → List Bytes
command_line program way sidhex name params after =
    program ∷ codes "-c" ∷ (option_args way ++ (codes "--" ∷ sidhex ∷ name ∷ (params ++ after)))

length-command_line :
    (program sidhex name : Bytes) (way : Way) (params after : List Bytes)
    → length (command_line program way sidhex name params after) ≤ 6 + length (params ++ after)
length-command_line program sidhex name way_msp params after = omega arith
length-command_line program sidhex name way_rhizome params after = omega arith
length-command_line program sidhex name way_mdp params after = omega arith
length-command_line program sidhex name way_transparent params after = omega arith

digits_nibbles : (vs : List ℕ) → All IsDigit vs → All IsNibble vs
digits_nibbles [] all = tt
digits_nibbles (v ∷ vs) (h, all) = (omega arith, digits_nibbles vs all)

-- The call of a name with parameters.
abbrev pub parsed_arguments : Sid → Bytes → List Bytes → ℕ → Call
parsed_arguments sid name params requirements = record {
  sid = sid;
  name = name;
  nfields = length params;
  params = map some params;
  requirements = requirements;
}

module _ (S : Sids) where
  -- A call over MSP goes to one server.
  abbrev pub IsAllowed : Way → Sid → Type 0
  IsAllowed way_msp sid = (is_sid_t_broadcast S sid || is_sid_t_any S sid) ≡ false
  IsAllowed _ sid = Unit {0}

  module _ (values : List ℤ) (name first : Bytes) (others after : List Bytes) (sid : Sid)
      (requirements : ℕ) where
    abbrev params : List Bytes
    params = first ∷ others

    call_command-params :
        (before : List Bytes) (option last_arg : Bytes) (offset : ℕ) (has : Bool)
        → length before ≡ offset + 2
        → length (before ++ (params ++ after)) < u32_mod
        → has_requirements last_arg ≡ has
        → length after ≡ (if has then 1 else 0)
        → rpc_client_prepare_requirements (call_values values last_arg) ≡ ok requirements
        → call_command S values
            (before ++ (params ++ after))
            option
            offset
            sid
            name
            (some first)
            last_arg
          ≡ ok (call_way S option (parsed_arguments sid name params requirements))
    unfolding call_command
    call_command-params before option last_arg offset has at few is_last one packed =
        let total = length-append before (params ++ after) in
        let behind = length-append params after in
        let count : (length (before ++ (params ++ after))
                + u32_mod
                - (if has then offset + 3 else offset + 2))
              % u32_mod
            ≡ length params =
          ground (arith, total, behind) in
        rw
          (
            is_last,
            count,
            call_params-append first others before after offset at (omega (arith, total, behind)),
            packed,
          )
          refl

    -- What the arguments have to meet: the identifier is readable, the way is open for it, and the last
    -- argument is the one behind the parameters if there is one, or no requirements.
    pub record IsCommand (program sidhex : Bytes) (way : Way) (has : Bool) : Type 0 where
      pub has_sid : call_sid S sidhex ≡ some sid
      pub allowed : IsAllowed way sid
      pub few : length (command_line program way sidhex name params after) < u32_mod
      pub is_last : has_requirements (last_of first (others ++ after)) ≡ has
      pub one : length after ≡ (if has then 1 else 0)
      pub packed :
          rpc_client_prepare_requirements (call_values values (last_of first (others ++ after)))
          ≡ ok requirements

    -- The arguments as `main` reads them.
    client_command-read :
        (argv : List Bytes) (option sidhex last_arg : Bytes) (offset : ℕ)
        → argument argv 2 ≡ ok (some option)
        → (if str_eq option (codes "--") then 3 else 4) ≡ offset
        → argument argv offset ≡ ok (some sidhex)
        → argument argv (offset + 1) ≡ ok (some name)
        → argument argv (offset + 2) ≡ ok (some first)
        → call_sid S sidhex ≡ some sid
        → argument argv (length argv - 1) ≡ ok (some last_arg)
        → client_command S values argv
          ≡ call_command S values argv option offset sid name (some first) last_arg
    unfolding client_command sid_command
    client_command-read argv option sidhex last_arg offset e2 eo es en e1 ec el =
        rw (e2, eo, es, en, e1, ec, el) refl

    client_command-way :
        (program sidhex : Bytes) (way : Way) (has : Bool)
        → IsCommand program sidhex way has
        → client_command S values (command_line program way sidhex name params after)
          ≡ ok (make way (parsed_arguments sid name params requirements))
    unfolding argument str_eq call_way check_cli strn_eq
    client_command-way program sidhex way_transparent has c =
        let behind = params ++ after in
        let front = codes "-c" ∷ codes "--" ∷ sidhex ∷ name ∷ [] in
        client_command-read (program ∷ (front ++ behind)) (codes "--") sidhex
          (last_of first (others ++ after)) 3 refl refl refl refl refl c.has_sid
          (argument_end program (front ++ behind))
        ∙ call_command-params (program ∷ front) (codes "--") (last_of first (others ++ after)) 3 has
            refl c.few c.is_last c.one c.packed
    client_command-way program sidhex way_msp has c =
        let behind = params ++ after in
        let front = codes "-c" ∷ codes "-s" ∷ codes "--" ∷ sidhex ∷ name ∷ [] in
        client_command-read (program ∷ (front ++ behind)) (codes "-s") sidhex
          (last_of first (others ++ after)) 4 refl refl refl refl refl c.has_sid
          (argument_end program (front ++ behind))
        ∙ call_command-params (program ∷ front) (codes "-s") (last_of first (others ++ after)) 4 has
            refl c.few c.is_last c.one c.packed
        ∙ rw c.allowed refl
    client_command-way program sidhex way_rhizome has c =
        let behind = params ++ after in
        let front = codes "-c" ∷ codes "-r" ∷ codes "--" ∷ sidhex ∷ name ∷ [] in
        client_command-read (program ∷ (front ++ behind)) (codes "-r") sidhex
          (last_of first (others ++ after)) 4 refl refl refl refl refl c.has_sid
          (argument_end program (front ++ behind))
        ∙ call_command-params (program ∷ front) (codes "-r") (last_of first (others ++ after)) 4 has
            refl c.few c.is_last c.one c.packed
    client_command-way program sidhex way_mdp has c =
        let behind = params ++ after in
        let front = codes "-c" ∷ codes "-d" ∷ codes "--" ∷ sidhex ∷ name ∷ [] in
        client_command-read (program ∷ (front ++ behind)) (codes "-d") sidhex
          (last_of first (others ++ after)) 4 refl refl refl refl refl c.has_sid
          (argument_end program (front ++ behind))
        ∙ call_command-params (program ∷ front) (codes "-d") (last_of first (others ++ after)) 4 has
            refl c.few c.is_last c.one c.packed

  module _ (values : List ℤ) (program sidhex name first : Bytes) (others : List Bytes) (way : Way)
      (sid : Sid) (known : call_sid S sidhex ≡ some sid) (allowed : IsAllowed way sid)
      (room : length values ≡ 8) where
    small :
        (after : List Bytes)
        → length after ≤ 1
        → length others < 2 ^ 31
        → length (command_line program way sidhex name (first ∷ others) after) < u32_mod
    small after one few = omega (
      arith,
      length-command_line program sidhex name way (first ∷ others) after,
      length-append others after,
    )

    -- A command line that ends in eight digits with commas between them: the call is made in the way
    -- that the option names, with the parameters between the name and the digits, and with the digits
    -- as the base-16 number of its requirements. The identifier is readable, and is one server's for
    -- MSP.
    pub client_command-digits :
        (vs : List ℕ)
        → length vs ≡ 8
        → All IsDigit vs
        → length others < 2 ^ 31
        → client_command S values (
            command_line program way sidhex name
              (first ∷ others)
              (join_rest b',' (map digit_text vs) ∷ []))
          ≡ ok (make way (parsed_arguments sid name (first ∷ others) (hex_value 0 vs)))
    client_command-digits vs len digits few =
        let text = join_rest b',' (map digit_text vs) in
        let last = last_of-snoc first others text in
        client_command-way values name first others (text ∷ []) sid (hex_value 0 vs) program sidhex
          way true
          (record {
            has_sid = known;
            allowed = allowed;
            few = small (text ∷ []) (omega arith) few;
            is_last = rw last (has_requirements-digits vs len digits);
            one = refl;
            packed =
                rw (last, call_values-digits vs values len room digits)
                  (prepare_requirements_value vs len (digits_nibbles vs digits));
          })

    -- A command line whose last parameter does not look like requirements: everything behind the name
    -- is a parameter, and the call has no requirements. The identifier is readable, and is one
    -- server's for MSP.
    pub client_command-plain :
        has_requirements (last_of first others) ≡ false
        → length others < 2 ^ 31
        → client_command S values (command_line program way sidhex name (first ∷ others) [])
          ≡ ok (make way (parsed_arguments sid name (first ∷ others) 0))
    client_command-plain plain few =
        client_command-way values name first others [] sid 0 program sidhex way false (record {
          has_sid = known;
          allowed = allowed;
          few = small [] (omega arith) few;
          is_last = rw append-nil plain;
          one = refl;
          packed =
              rw (append-nil, call_values-plain (last_of first others) values plain room)
                (prepare_requirements_value (replicate 8 0) refl
                  (digits_nibbles (replicate 8 0) eight_zeros));
        })

  -- A command line that ends with the name of the call, with an identifier that is readable and a name
  -- that does not look like requirements: the number of parameters is 0, the loop over the others runs
  -- to `0 - 1` as an `unsigned int`, and the program reads behind its arguments.
  pub client_command-none :
      (values : List ℤ) (program sidhex name : Bytes) (way : Way) (sid : Sid)
      → call_sid S sidhex ≡ some sid
      → has_requirements name ≡ false
      → client_command S values (command_line program way sidhex name [] []) ≡ err out_of_bounds
  unfolding client_command sid_command call_command call_params more_params argument str_eq
  client_command-none values program sidhex name way_msp sid known plain = rw (known, plain) refl
  client_command-none values program sidhex name way_rhizome sid known plain =
      rw (known, plain) refl
  client_command-none values program sidhex name way_mdp sid known plain = rw (known, plain) refl
  client_command-none values program sidhex name way_transparent sid known plain =
      rw (known, plain) refl
