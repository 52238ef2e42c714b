-- ===== src/Sdk.antt =====
-- sdk/client.go: the HTTP client of a remote, and its retry after a login.
mod Guard
pub mod Cookies
mod Tests
use Prim.Native.String.{◌++◌}
use dorothy.Base.{
  ℕ, String, Option, none, some, Bool, true, false, not, List, [], ◌∷◌, is_nil, ◌==◌, eqb,
  if◌then◌else◌,
}
use dorothy.Outcome.{Reply, ok, err}

pub record Payload : Type 0 where
  pub hash : String
  pub peer_identity : String

pub record UserLogin : Type 0 where
  pub email : String
  pub password : String

pub record GeneralResponse : Type 0 where
  pub message : String
  pub error : String

-- `http.Response`, as far as the client reads it
pub record Response : Type 0 where
  pub status_code : ℕ
  pub body : String

-- `Result`; a nil `Error` is `none`
pub record Result : Type 0 where
  pub required_login : Bool
  pub payload : Option Payload
  pub code : ℕ
  pub error : Option String

abbrev pub no_result : Result
no_result = record { required_login = false; payload = none; code = 0; error = none }

abbrev pub with_error : String → Result
with_error e = record no_result { error = some e }

-- net/http, encoding/json and the cookie jar, over the state `W`.
pub record Http (W : Type 0) : Type 1 where
  pub Request : Type 0
  -- `json.Encoder.Encode`, and `json.Decoder.Decode` into a value that keeps what was set before an error
  pub encode_payload : Payload → Reply String
  pub encode_login : UserLogin → Reply String
  pub decode_payload : String → Payload × Option String
  pub decode_response : String → GeneralResponse × Option String
  -- `(&url.URL{Scheme: s, Host: a}).JoinPath(path...).String()`
  pub join_path : String → String → List String → String
  pub new_request : String → String → Option String → Reply Request
  -- `c.Do(req)`; a refused redirect answers a response and an error
  pub send : Request → W → Option Response × Option String × W
  pub status_text : ℕ → String
  -- `cookiejar.New` with the base URL of the remote, and the cookies that `ReadCookies` finds in its file
  pub new_jar : String → String → W → Reply (Unit {0}) × W
  pub read_cookie_file : String → W → Option String × W
  -- bubbletea's run of the login form
  pub default_credentials : W → Reply UserLogin × W
  -- the cookies of the jar, and the file that `WriteCookies` writes
  pub cookies : W → List String
  pub write_cookie_file : String → List String → W → W

-- `Client`, with its base URL; a nil handler is `none`
pub record Client (W : Type 0) : Type 0 where
  pub scheme : String
  pub address : String
  pub get_credentials : Option (W → Reply UserLogin × W)
  pub cookie_filename : String

abbrev pub status_of : Option Response → ℕ
status_of none = 0
status_of (some r) = r.status_code

abbrev pub body_of : Option Response → String
body_of none = ""
body_of (some r) = r.body

module _ {W : Type 0} (http : Http W) where
  open http use {
    Request, encode_payload, encode_login, decode_payload, decode_response, join_path, new_request,
    send, status_text, cookies, write_cookie_file, new_jar, read_cookie_file, default_credentials,
  }

  -- `Payload.Reader` and `UserLogin.Reader`, `NewPayload` and `NewGeneralResponse` with `FromReader`: the
  -- decoded value is returned beside the error.
  abbrev pub payload_reader : Payload → Reply String
  payload_reader p = encode_payload p

  abbrev pub login_reader : UserLogin → Reply String
  login_reader u = encode_login u

  abbrev pub new_payload : String → Payload × Option String
  new_payload text = decode_payload text

  abbrev pub new_general_response : String → GeneralResponse × Option String
  new_general_response text = decode_response text

  -- `NewClient` and `NewClientWithCookies`: a client stands beside the error of its cookie file.
  unfoldable pub new_client_with_cookies :
      String → String → String → W → Option (Client W) × Option String × W
  new_client_with_cookies scheme address filename w =
      let (reply, w') = new_jar scheme address w in
      elim reply [
        | err e ↦ (none, some e, w')
        | ok _ ↦
            let (e, w'') = read_cookie_file filename w' in
            (
              some (record {
                scheme = scheme;
                address = address;
                get_credentials = some default_credentials;
                cookie_filename = filename;
              }),
              e,
              w'',
            )
      ]

  -- The end of `sendRequest`, once `c.Do` has answered; `c.Do` answers a response or an error.
  unfoldable pub read_payload : Option Response → Option String → Result
  read_payload resp (some e) = record no_result { code = status_of resp; error = some e }
  read_payload resp none =
      let code = status_of resp in
      if not (eqb code 200)
      then record no_result { code = code; error = some (status_text code) }
      else (let (payload, e) = new_payload (body_of resp) in
          record no_result { code = code; payload = some payload; error = e })

  unfoldable pub send_request : Request → W → Result × W
  unfolding read_payload
  send_request req w = let (resp, e, w') = send req w in (read_payload resp e, w')

  abbrev pub try_send : Reply Request → (Request → W → Result × W) → W → Result × W
  try_send (ok req) f w = f req w
  try_send (err e) f w = (with_error e, w)

  unfoldable pub get_asset : Option (Client W) → List String → W → Result × W
  unfolding send_request
  get_asset none path w = (with_error "client is not initialized", w)
  get_asset (some c) path w =
      try_send (new_request "GET" (join_path c.scheme c.address path) none) send_request w

  unfoldable pub post_asset : Option (Client W) → Payload → List String → W → Result × W
  unfolding send_request
  post_asset none payload path w = (with_error "client is not initialized", w)
  post_asset (some c) payload path w = elim (payload_reader payload) [
    | err e ↦ (with_error e, w)
    | ok r ↦
        try_send (new_request "POST" (join_path c.scheme c.address path) (some r)) send_request w
  ]

  -- The errors of `Login` once the response is decoded.
  abbrev login_error : String → Option String → Option String
  login_error g (some e) = some e
  login_error g none = if not (g == "") then some ("login failed: " ++ g) else none

  -- The end of `Login`.
  unfoldable pub read_login : Option Response → Option String → Result
  read_login resp (some e) = record no_result { code = status_of resp; error = some e }
  read_login resp none =
      let code = status_of resp in
      if not (eqb code 200)
      then record no_result { code = code; error = some (status_text code) }
      else (let (g, e) = new_general_response (body_of resp) in
          record no_result { code = code; error = login_error g.error e })

  unfoldable pub login : Option (Client W) → UserLogin → W → Result × W
  unfolding read_login
  login none creds w = (with_error "client is not initialized", w)
  login (some c) creds w = elim (login_reader creds) [
    | err e ↦ (with_error "failed to create login payload", w)
    | ok r ↦
        try_send (new_request "POST" (join_path c.scheme c.address ("login" ∷ [])) (some r))
          (λ req v. let (resp, e, v') = send req v in (read_login resp e, v')) w
  ]

  -- `WriteCookies`, whose error no caller reads
  unfoldable pub write_cookies : String → W → W
  write_cookies filename w =
      if is_nil (cookies w) then w else write_cookie_file filename (cookies w) w

  -- The end of `LoginGuard`.
  unfoldable pub keep_cookies : Client W → Result × W → Result × W
  unfolding write_cookies
  keep_cookies c (result, w) =
      if not (c.cookie_filename == "")
      then (result, write_cookies c.cookie_filename w)
      else (result, w)

  abbrev pub refused : String → Result
  refused e = record no_result { required_login = true; error = some e }

  -- After a login: an error ends the guard, and success sends the request again.
  unfoldable pub after_login : Client W → (W → Result × W) → Result × W → Result × W
  unfolding keep_cookies
  after_login c req (result, w) = elim result.error [
    | some e ↦ (refused e, w)
    | none ↦ let (again, w') = req w in keep_cookies c (record again { required_login = true }, w')
  ]

  unfoldable pub after_credentials : Client W → (W → Result × W) → Reply UserLogin × W → Result × W
  unfolding login after_login
  after_credentials c req (err e, w) = (refused e, w)
  after_credentials c req (ok creds, w) = after_login c req (login (some c) creds w)

  unfoldable pub login_guard : Option (Client W) → (W → Result × W) → W → Result × W
  unfolding keep_cookies after_credentials
  login_guard none req w = (with_error "client is not initialized", w)
  login_guard (some c) req w = elim c.get_credentials [
    | none ↦ (with_error "client has no GetCredentialsHandler", w)
    | some get_credentials ↦
        let (result, w') = req w in
        if eqb result.code 401
        then after_credentials c req (get_credentials w')
        else keep_cookies c (result, w')
  ]
