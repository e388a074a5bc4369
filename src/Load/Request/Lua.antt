-- ===== src/Load/Request/Lua.antt =====
-- `update_request_with_lua` and `validate_response_with_lua`: what the script of a step makes of a request, and what it
-- says of a response.
use h2loadrunner.Base.{
  Bool, true, false, if◌then◌else◌, ◌&&◌, not, List, [], ◌∷◌, or_else, Outcome, ok, stop, exits,
}
use h2loadrunner.Base.Maps.{map_find}
use h2loadrunner.Text.{Bytes, codes}
use h2loadrunner.Cookie.Jar.{RequestData, HeaderMap, ci_less}
use h2loadrunner.Load.Request.{
  Library, LuaValue, LuaCall, lua_string, lua_table, lua_boolean, lua_other, no_function,
  raises_error, returns,
}

-- `erase` of a key of a map.
unfoldable pub erase : Bytes → HeaderMap → HeaderMap
erase name [] = []
erase name ((k, v) ∷ hs) =
    let rest = erase name hs in
    if not (ci_less k name) && not (ci_less name k) then rest else (k, v) ∷ rest

-- `headers[name]`, which is empty for a header that is missing.
header_or_empty : Bytes → HeaderMap → Bytes
header_or_empty name hs = or_else (map_find ci_less name hs) []

-- A table of headers replaces those of the request, pseudo headers included.
replace_headers : HeaderMap → RequestData → RequestData
unfolding header_or_empty
replace_headers hs r =
    let without_method = erase (codes ":method") hs in
    let without_path = erase (codes ":path") without_method in
    let without_authority = erase (codes ":authority") without_path in
    record r {
      method = header_or_empty (codes ":method") hs;
      path = header_or_empty (codes ":path") without_method;
      authority = header_or_empty (codes ":authority") without_path;
      schema = header_or_empty (codes ":scheme") without_authority;
      req_headers_of_individual = erase (codes ":scheme") without_authority;
    }

-- The loop over the returned values, with `retCode`.
unfoldable pub value_loop : List LuaValue → Bool → RequestData → Bool × RequestData
unfolding replace_headers
value_loop [] code r = (code, r)
value_loop (lua_string s ∷ vs) code r = value_loop vs code (record r { req_payload = s })
value_loop (lua_table hs ∷ vs) code r = value_loop vs code (replace_headers hs r)
value_loop (lua_boolean b ∷ vs) code r = value_loop vs false r
value_loop (lua_other ∷ vs) code r = value_loop vs false r

-- What a call that ended in some way makes of the request.
unfoldable pub after_call : LuaCall → RequestData → Outcome (Bool × RequestData)
unfolding value_loop
after_call no_function r = ok (true, r)
after_call raises_error r = stop exits
after_call (returns vs) r = ok (value_loop vs true r)

unfoldable pub update_request_with_lua :
    Library → Bytes → RequestData → RequestData → Outcome (Bool × RequestData)
unfolding after_call
update_request_with_lua lib script finished r = after_call (lib.make_request script finished r) r

-- The loop over the returned values of `validate_response`.
verdict_loop : List LuaValue → Bool → Bool
verdict_loop [] code = code
verdict_loop (lua_boolean b ∷ vs) code = verdict_loop vs b
verdict_loop (lua_string s ∷ vs) code = verdict_loop vs false
verdict_loop (lua_table hs ∷ vs) code = verdict_loop vs false
verdict_loop (lua_other ∷ vs) code = verdict_loop vs false

verdict : LuaCall → Outcome Bool
unfolding verdict_loop
verdict no_function = ok true
verdict raises_error = stop exits
verdict (returns vs) = ok (verdict_loop vs true)

unfoldable pub validate_response_with_lua : Library → Bytes → RequestData → Outcome Bool
unfolding verdict
validate_response_with_lua lib script finished = verdict (lib.validate_response script finished)
