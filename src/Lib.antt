-- ===== src/Lib.antt =====
-- ServalRPC: remote procedure calls in delay-tolerant networks, over the protocols of Serval DNA.
--
-- A client packs a call (the packet type, eight requirements, the number of parameters, the name
-- and the parameters behind '|') and sends it over MSP, MDP or the Rhizome store. A server parses
-- it, looks the procedure up in rpc.conf, sends an ACK, runs the binary of the same name with
-- popen, and sends back a packet with the first line of its output.
--
-- Which file models what:
--   Wire          rpc_helpers.c (write_uint8, read_uint8, _rpc_flatten_params) and rpc_client.c
--                 (_rpc_client_prepare_call_payload), the packets of includes/rpc.h
--   Requirements  rpc_client.c (rpc_client_prepare_requirements) and rpc_server.c
--                 (_rpc_server_parse_requirements)
--   Filehash      rpc_helpers.c (_rpc_str_is_filehash)
--   Rhizome       rpc_helpers.c (_rpc_download_file, _rpc_add_file_to_store)
--   Reachable     rpc_helpers.c (_rpc_sid_is_reachable)
--   CommandLine   main.c: the options and the requirements; its child Call is the way from the
--                 arguments to a call, and Main is main over the servers and the calls
--   RemoteCall    rpc_client_mdp.c on one host with rpc_server_mdp.c on another; its child Program
--                 starts from the arguments of main.c, Connected is rpc_client_msp.c with
--                 rpc_server_msp.c, Delayed is rpc_client_rhizome.c with
--                 rpc_server_rhizome.c, Transparent is the same behind rpc_client.c, and Lost is a
--                 result of rpc_server_mdp.c that is posted
--   Server        includes/rpc_server.h; its children Parse, Offering and Execute are rpc_server.c,
--                 SendResult and Rhizome are rpc_server_rhizome.c, Msp is rpc_server_msp.c, Mdp is
--                 rpc_server_mdp.c, Answer has what the three handlers share, Sockets is the setup
--                 and the cleanup of the two files, and Listen is the loops of rpc_server.c
--   Curl          rpc_curl_helpers.c: the memory for responses
--   Client        rpc_client.c: the results, _rpc_client_replace_if_path; its children Mdp, Msp and
--                 Rhizome are rpc_client_mdp.c, rpc_client_msp.c and rpc_client_rhizome.c, Answers is
--                 what they do with an answer, Call is rpc_client_call; Table reads the results as a
--                 list of entries
--   CString, Memory, Result   the C functions on strings and arrays, and faults
--   Serval, System            what is not in the repository, as parameters
--   Tests                     the theorems at concrete inputs
-- All C files are in src/.
--
-- How the code is read. A definition has the name of its C function, without the leading
-- underscore (`rpc_server_execute` is `_rpc_server_excecute`). Memory is a list of bytes; an
-- array keeps its size, and a write behind its end is recorded in the field `overrun` of
-- `Buffer`. A `char *` is the bytes before its terminator. What C leaves undefined ends a
-- function with a `Fault`, with one exception: where `sprintf` prints a text into an array whose
-- size is that of the text without its terminator, the terminator is taken to lie harmlessly
-- behind the array. Those arrays are `manifest_str` of rpc_helpers.c, rpc_server_rhizome.c and
-- rpc_client_rhizome.c, `filepath` of rpc_helpers.c, `bin` and `cmd` of rpc_server.c, and
-- `lng_option` and `lng_abbrev` of main.c. Every run writes behind them, and nothing is proved
-- of what that does. `rpc_down_name` of rpc_helpers.c is some sixty bytes short, which is no
-- such case: a download of a file whose sender has an identifier of 64 digits ends with a
-- `Fault`. A function that acts on its environment is of type `Exec`: it extends a trace of
-- effects (packets sent, commands run, insertions into the store), or it faults. What it meets
-- there is a field of `System`: the file system, the output of commands, the answers of the
-- Rhizome store. Serval's functions on words and subscriber identifiers are the records `Words`
-- and `Sids`, its reads of an overlay buffer the record `Overlays`, with the laws that the
-- program relies on.
--
-- Bounds and fuel. Packet sizes are those of includes/rpc.h and Serval's MDP_MTU of 1160.
-- `uint8_t` and `uint32_t` wrap around where the source does. The tokeniser's fuel is the length
-- of the text, which is enough, since every token takes a character; a packet of the routing
-- table is read in as many rounds as it has bytes, and a round takes one at least. The loop that
-- waits for a file in the store runs over the looks at the store that `System` holds; where they
-- run out it faults with `out_of_fuel`. The loops of the client and of the server run in the same
-- way over the rounds of a run, a list that says for each what the clock shows and what arrives.
--
-- Not modelled: cJSON.c, a copy of a library; the addresses of the sockets, which are constants of
-- Serval, and the sockets of the clients; the keyring; the cURL options and forms. Memory is never
-- freed, and the log messages are left out.
pub mod Common
pub mod Result
pub mod CString
pub mod Memory
pub mod Serval
pub mod Wire
pub mod Requirements
pub mod Filehash
pub mod System
pub mod Rhizome
pub mod CommandLine
pub mod RemoteCall
pub mod Reachable
pub mod Server
pub mod Client
pub mod Curl
pub mod Tests
