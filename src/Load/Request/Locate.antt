-- ===== src/Load/Request/Locate.antt =====
-- Where a request goes: `parse_uri_and_poupate_request` and the `switch` of `prepare_next_request`.
use h2loadrunner.Base.{
  ℕ, if◌then◌else◌, Bool, true, false, Option, none, some, List, [], ◌∷◌, ◌++◌, or_else, Outcome,
  ok, map_ok,
}
use h2loadrunner.Base.Maps.{map_find}
use h2loadrunner.Text.{Bytes, codes, is_empty, inp_strlower}
use h2loadrunner.Text.Decimal.{to_string}
use h2loadrunner.Cookie.Jar.{RequestData, HeaderMap, ci_less}
use h2loadrunner.Load.Request.{
  Request, Scenario, Url, Library, UriAction, input_uri, same_with_last_one, from_response_header,
  from_lua_script, from_x_path, from_json_pointer, input_with_variable,
}
use h2loadrunner.Load.Request.Assemble.{assemble_string}

-- The path and the query.
unfoldable pub get_reqline : Url → Bytes
get_reqline u =
    or_else u.url_path (codes "/") ++ elim u.url_query [ none ↦ [] | some q ↦ codes "?" ++ q ]

port_suffix : Option ℕ → Bytes
port_suffix none = []
port_suffix (some p) = codes ":" ++ to_string p

-- `parse_uri_and_poupate_request`, and whether it set the authority; `none` where the URI is invalid.
unfoldable pub parse_uri_and_populate_request :
    Library → Bytes → RequestData → Option (Bool × RequestData)
unfolding get_reqline port_suffix
parse_uri_and_populate_request lib uri r =
    if is_empty uri then some (false, r) else elim (lib.parse_url uri) [
      | none ↦ none
      | some u ↦ elim u.url_schema [
        | none ↦ some (false, record r { path = get_reqline u })
        | some s ↦ elim u.url_host [
          | none ↦ some (false, record r { path = get_reqline u })
          | some h ↦ some (
            true,
            record r {
              path = get_reqline u;
              schema = inp_strlower s;
              authority = inp_strlower h ++ port_suffix u.url_port;
            },
          )
        ]
      ]
    ]

-- The value of the last header map that has the name.
unfoldable pub last_header : Bytes → List HeaderMap → Option Bytes → Option Bytes
last_header name [] found = found
last_header name (hs ∷ more) found =
    last_header name more (elim (map_find ci_less name hs) [ some v ↦ some v | none ↦ found ])

-- At a URI from a header: without an authority of its own, it is that of the finished request.
unfoldable pub at_header : Library → RequestData → RequestData → Option Bytes → Option RequestData
at_header lib finished r none = none
at_header lib finished r (some uri) = elim (parse_uri_and_populate_request lib uri r) [
  | none ↦ none
  | some (true, r') ↦ some r'
  | some (false, r') ↦ some (record r' { schema = finished.schema; authority = finished.authority })
]

unfoldable pub at_uri : Library → RequestData → Bytes → Option RequestData
at_uri lib r uri = elim (parse_uri_and_populate_request lib uri r) [
  | none ↦ none
  | some (authority_set, r') ↦ some r'
]

-- The `switch` over the URI's action; `ok none` ends the scenario.
unfoldable pub locate :
    Library
    → Scenario
    → Request
    → RequestData
    → RequestData
    → UriAction
    → Outcome (Option RequestData)
unfolding last_header at_header at_uri
locate lib sc t finished r input_uri =
    map_ok (λ path. some (record r { path = path }))
      (assemble_string sc r.curr_request_idx r t.tokenized_path_with_vars)
locate lib sc t finished r same_with_last_one = ok (
    some
      (record r { path = finished.path; schema = finished.schema; authority = finished.authority }))
locate lib sc t finished r from_response_header =
    ok (at_header lib finished r (last_header t.uri_input finished.resp_headers none))
locate lib sc t finished r input_with_variable =
    map_ok (at_uri lib r) (assemble_string sc r.curr_request_idx r t.tokenized_path_with_vars)
locate lib sc t finished r from_lua_script = ok (some r)
locate lib sc t finished r from_x_path = ok (some r)
locate lib sc t finished r from_json_pointer = ok (some r)
