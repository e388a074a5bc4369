-- ===== src/Load/Request.antt =====
-- The requests of a scenario, one after the other: assemble_string, run_post_response_action,
-- populate_request_from_config_template, prepare_next_request and their helpers in base_client.cc, with
-- the records of config_schema.h. The URL parser, regular expressions, JSON and Lua are parameters.
pub mod Assemble
pub mod Pick
pub mod Lua
pub mod Locate
pub mod Queues
pub mod Prepare
pub mod First
use h2loadrunner.Base.{ℕ, Bool, Option, List}
use h2loadrunner.Text.{Bytes}
use h2loadrunner.Cookie.Jar.{HeaderMap, RequestData}
use h2loadrunner.Mock.Config.{SchemaPayloadMatch}
use h2loadrunner.Mock.Rule.{MatchRule}
use h2loadrunner.Load.Variable.{VariableManager}

-- `string_segments` has one entry more than `variable_ids_in_between`.
pub record StringWithVariables : Type 0 where
  pub string_segments : List Bytes
  pub variable_ids_in_between : List ℕ

pub data UriAction : Type 0 where
  input_uri same_with_last_one from_response_header from_lua_script : UriAction
  from_x_path from_json_pointer input_with_variable : UriAction

pub data ValueSourceType : Type 0 where
  req_header req_pointer res_header res_pointer : ValueSourceType

pub record RegexPicker : Type 0 where
  pub where_to_pick_up_from : ValueSourceType
  pub source : Bytes
  pub picker_regexp : Bytes
  pub unique_id : ℕ

-- `Request`, one step of a scenario.
pub record Request : Type 0 where
  pub clear_old_cookies : Bool
  pub lua_script : Bytes
  pub schema : Bytes
  pub authority : Bytes
  pub uri_action : UriAction
  pub uri_input : Bytes
  pub method : Bytes
  pub expected_status_code : ℕ
  pub headers_in_map : HeaderMap
  pub headers_with_variable : List (StringWithVariables × StringWithVariables)
  pub tokenized_path_with_vars : StringWithVariables
  pub tokenized_payload_with_vars : StringWithVariables
  pub delay_before_executing_next : ℕ
  pub actual_regex_value_pickers : List RegexPicker
  pub make_request_function_present : Bool
  pub validate_response_function_present : Bool
  pub response_match_rules : List MatchRule
  pub payload_match : List SchemaPayloadMatch

pub record Scenario : Type 0 where
  pub requests : List Request
  pub run_requests_in_parallel : Bool
  pub variable_manager : VariableManager
  pub number_of_variables_from_value_pickers : ℕ

-- What `http_parser_parse_url` finds in a text.
pub record Url : Type 0 where
  pub url_path : Option Bytes
  pub url_query : Option Bytes
  pub url_schema : Option Bytes
  pub url_host : Option Bytes
  pub url_port : Option ℕ

-- A value that a Lua function returns, and what comes of calling it: it is missing, it raises an error,
-- or it returns values, the last one first.
pub data LuaValue : Type 0 where
  lua_string : Bytes → LuaValue
  lua_table : HeaderMap → LuaValue
  lua_boolean : Bool → LuaValue
  lua_other : LuaValue

pub data LuaCall : Type 0 where
  no_function raises_error : LuaCall
  returns : List LuaValue → LuaCall

-- The first match of a regular expression; the parts of a URL; and the functions of a step's script:
-- `make_request`, which is given the finished request and the new one, and `validate_response`.
pub record Library : Type 0 where
  pub regex_search : Bytes → Bytes → Option Bytes
  pub parse_url : Bytes → Option Url
  pub make_request : Bytes → RequestData → RequestData → LuaCall
  pub validate_response : Bytes → RequestData → LuaCall
