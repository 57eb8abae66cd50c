-- ===== src/Api/Redirect.antt =====
-- server/api.go: the redirect from HTTP to HTTPS, and Start and Shutdown of the two servers.
-- net/http serves; what its calls return is an argument.
use red_team_coin.Base.{
  ℕ, Bool, true, false, ◌&&◌, ◌||◌, Option, none, some, List, [], ◌∷◌, ◌++◌, ◌==◌, if◌then◌else◌,
  lt64, Text, text, text_eq, I64, format_int,
}

-- host[:strings.LastIndex(host, ":")], if there is a colon.
unfoldable pub before_last_colon : Text → Option Text
before_last_colon [] = none
before_last_colon (c ∷ host) = elim (before_last_colon host) [
  | some before ↦ some (c ∷ before)
  | none ↦ if c == b':' then some [] else none
]

-- strings.Contains(host, "/"), and so for the other byte.
unfoldable pub has_byte : ℕ → Text → Bool
has_byte b [] = false
has_byte b (c ∷ host) = if c == b then true else has_byte b host

pub data Redirect : Type 0 where
  invalid_host : Redirect
  moved_permanently : Text → Redirect

unfoldable pub https_url : I64 → Text → Text → Text
https_url https_port host request_uri =
    if https_port == 443
    then text "https://" ++ (host ++ request_uri)
    else text "https://" ++ (host ++ (text ":" ++ (format_int https_port ++ request_uri)))

unfoldable pub redirect_to : I64 → Text → Text → Redirect
redirect_to https_port host request_uri =
    if has_byte b'/' host || (has_byte b'@' host || text_eq host [])
    then invalid_host
    else moved_permanently (https_url https_port host request_uri)

unfoldable pub redirect : I64 → Text → Text → Redirect
redirect https_port host request_uri = elim (before_last_colon host) [
  | none ↦ redirect_to https_port host request_uri
  | some before ↦ redirect_to https_port before request_uri
]

pub data ServerError : Type 0 where
  server_closed : ServerError
  other_error : Text → ServerError

pub data ShutdownError : Type 0 where
  main_server redirect_server : ServerError → ShutdownError

-- What Start has set: the address of each server, if it is there.
pub record ApiServer : Type 0 where
  pub use_tls : Bool
  pub cancelled : Bool
  pub server : Option Text
  pub redirect_server : Option Text

unfoldable pub new_api_server : Bool → ApiServer
new_api_server use_tls = record {
  use_tls = use_tls;
  cancelled = false;
  server = none;
  redirect_server = none;
}

-- fmt.Sprintf(":%d", port)
unfoldable pub port_address : I64 → Text
port_address port = text ":" ++ format_int port

-- The fields that Start and the goroutine of startHTTPRedirect set before they listen.
unfoldable pub start_servers : I64 → I64 → ApiServer → ApiServer
start_servers port http_port api = record api {
  server = some (port_address port);
  redirect_server =
      if api.use_tls && lt64 0 http_port
      then some (port_address http_port)
      else api.redirect_server;
}

-- if err := server.Shutdown(ctx); err != nil && err != http.ErrServerClosed { append }
unfoldable pub shut_down :
    (ServerError → ShutdownError)
    → Option Text
    → Option ServerError
    → List ShutdownError
    → List ShutdownError
shut_down label (some address) (some (other_error e)) errors = errors ++ label (other_error e) ∷ []
shut_down label (some address) (some server_closed) errors = errors
shut_down label (some address) none errors = errors
shut_down label none result errors = errors

-- Shutdown, with what Shutdown of the two servers returns; the first error is its result.
unfoldable pub shutdown_api :
    Option ServerError → Option ServerError → ApiServer → ApiServer × Option ShutdownError
shutdown_api main_result redirect_result api =
    let errors = shut_down main_server api.server main_result [] in
    let errors' = shut_down redirect_server api.redirect_server redirect_result errors in
    (record api { cancelled = true }, elim errors' [ [] ↦ none | e ∷ rest ↦ some e ])
