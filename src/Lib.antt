-- ===== src/Lib.antt =====
-- A verification library for h2loadrunner, a load generator and mock server for HTTP/1.1 and HTTP/2.
--
-- Mock server (H2Server*.h, header only). A request is matched against services, each a conjunction
-- of rules (H2Server_Request.h); the first service that matches, from the greatest in the order of
-- `operator<` down, draws one of its responses by weight (H2Server.h), whose payload and headers are
-- templates filled in from the request (H2Server_Response.h).
--   Text.antt            strings as lists of bytes: find, substr, compare; Text/Tokenize.antt is
--                        tokenize_string; Text/Decimal.antt is to_string and stoi;
--                        Text/Uint.antt is parse_uint and parse_uint_with_unit of util.cc.
--   Mock/Config.antt     the records of H2Server_Config_Schema.h.
--   Mock/Json.antt       extended JSON pointers; rapidjson is the parameter `Json`.
--   Mock/Message.antt    H2Server_Request_Message: headers, payload, remembered results.
--   Mock/Rule.antt       Match_Rule: construction, operator<, match.
--   Mock/Request.antt    H2Server_Request: its set of rules, operator<, match.
--   Mock/Argument.antt   Argument: the value for a placeholder.
--   Mock/Response.antt   H2Server_Response: construction, payload and headers.
--   Mock/Group.antt      H2Server_Response_Group: the choice by weight.
--   Mock/Services.antt   H2Server: services, identifiers of rules, the search for a request.
--
-- Cookies of the load generator (h2load_Cookie.cc, base_client.cc). A user keeps the accepted cookies
-- of the responses and sends them with later requests, where the configuration does not override them.
--   Cookie.antt          parse_cookie_string, is_cookie_acceptable, is_cookie_allowed_to_be_sent.
--   Cookie/Jar.antt      parse_and_save_cookies, produce_request_cookie_header.
--
-- Buffers (memchunk.h). Bytes on their way to a socket stand in a chain of chunks of one size, which
-- come from a pool and go back to it.
--   Memchunk.antt        Memchunk, Pool, Memchunks; the chain of pointers is a list.
--   Memchunk/Iovec.antt  riovec, limit_iovec.
--   Memchunk/Buffer.antt MemchunkBuffer.
--
-- Dates (timegm.c).
--   Timegm.antt          the two functions, for years from 1970 on.
--
-- Base64 (base64.h).
--   Base64.antt          encode, decode.
--
-- Load generator. A client takes a scenario by weight, makes the first request of a new user from its
-- first step, and when a response is complete the next one from the next step, with values picked from
-- what was received. Requests wait in queues until the session takes them, and every end of a stream is
-- counted (base_client.cc, with the records of h2load.h, config_schema.h and h2load_stats.h).
--   Load/Variable.antt   Generic_Variable, Variable_Manager, Scenario_Data_Per_Client, slice_var_ids.
--   Load/Template.antt   variable_present, split_string_and_var, rows of the table of variables.
--   Load/Schedule.antt   get_index_of_next_scenario_to_run, find_common_multiple.
--   Load/Request.antt    the steps of a scenario: Assemble is assemble_string, Pick is
--                        run_post_response_action, Lua is update_request_with_lua and
--                        validate_response_with_lua, Locate is the choice of the URI, Queues is
--                        enqueue_request, resume_delayed_request_execution,
--                        get_request_to_submit and what other clients push to the front, Prepare
--                        is prepare_next_request, First is prepare_first_request.
--   Load/Client.antt     a client with the counters of its worker: Receive is on_request_start,
--                        on_header_frame_begin, on_header, on_data_chunk and
--                        reset_timeout_requests, Submit is submit_request and on_rps_timer,
--                        Validate is
--                        inc_status_counter_and_validate_response, Close is on_stream_close, Lost is
--                        process_abandoned_streams, process_timedout_streams,
--                        process_request_failure, try_again_or_fail, fail and timeout; Steps is the
--                        client as a state machine.
--   Load/Session.antt    the headers a request is sent with; Session/Http1 is
--                        h2load_http1_session.cc with the output buffer of libev_client.cc,
--                        Session/Http2 is h2load_http2_session.cc.
--   Load/Totals.antt     the totals of the workers in h2load.cc.
--   Load/Distribution.antt  requests over threads (h2load.cc) and clients (base_worker.cc).
--
--   Tests.antt           concrete runs, and the theorems at concrete inputs.
--
-- Conventions. A string is a list of bytes, `npos` is `none`. `std::set` and `std::map` are lists in
-- the order of their comparison (Base/Ordered.antt, Base/Maps.antt). A call that may end the process
-- returns an `Outcome`. What the code takes from elsewhere is an argument: regular expressions (`Regex`), JSON
-- (`Json`), the URL parser and Lua (`Library`), nghttp2 (`Nghttp2`), the calls that llhttp makes, the
-- clock, random numbers and the memory that the code does not initialise. The data that the requests
-- of a user share goes over from each to the next, and is copied where a scenario runs in parallel. A
-- callback of a request is a number, and a call of it is recorded; what it does is not modelled. An index past the end of a vector, which is
-- undefined in the code, stops with `aborts` or changes nothing. Loops over
-- positions take fuel; each has a lemma that the fuel given is enough.
--
-- Bounds. Sizes in memchunk.h wrap at 2 ^ 64, and the theorems ask for fewer bytes than that. Dates are
-- from 1970 on, with fields that are not negative, and stop where an int overflows. Base64 reads unsigned bytes. The counters of requests
-- and the ranges of variables wrap at 2 ^ 64. The splitting of a text has a round for each byte and one
-- more, since every round ends behind another brace; the padding of a row has one for each missing cell.
-- The writing of a request takes as many calls of `writev` as it has bytes, since each takes one at least.
-- The numbers of streams are not cut to 31 bits.
--
-- Not modelled: the connections and timers of the load generator, with the clearing of the queue of
-- requests when a connection is lost; and its runs without scenarios, whose
-- payload is a file; the reading of the configuration, of files and of the command line, and
-- the reports, which are input and output; the workers' event loops; the server's connections; PeekMemchunks;
-- the helpers of http2.h, util.h and template.h; the interpreter behind the Lua scripting, sockets and TLS;
-- and the copies of other projects (c-ares, llhttp, StaticJSON, lua-rapidJson, url-parser, onde, and
-- lua-protobuf in pb.c, pb.h and protoc.lua).
pub mod Base
pub mod Text
pub mod Mock
pub mod Cookie
pub mod Memchunk
pub mod Timegm
pub mod Base64
pub mod Load
pub mod Tests
