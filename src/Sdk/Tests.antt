-- ===== src/Sdk/Tests.antt =====
-- An instance of the theorem about `LoginGuard`: a server that asks for a login once.
use dorothy.Base.{ℕ, ◌+◌, ◌≡◌, ◌≢◌, refl, none, some, []}
use dorothy.Outcome.{Reply, ok}
use dorothy.Sdk.{Http, Client, Result, UserLogin, no_result, login, write_cookies, login_guard}
use dorothy.Sdk.Guard.{Counts, Retried, again, login_guard_sends}

-- The state counts the requests other than logins; no request is answered until a login is.
abbrev strict : Http ℕ
strict = record {
  Request = Unit {0};
  encode_payload = λ p. ok p.hash;
  encode_login = λ c. ok c.email;
  join_path = λ scheme address path. "http://localhost";
  new_request = λ method url body. ok tt;
  send = λ req w. (some (record { status_code = 200; body = "" }), none, w);
  decode_payload = λ body. (record { hash = body; peer_identity = "peer" }, none);
  decode_response = λ body. (record { message = body; error = "" }, none);
  status_text = λ code. "status";
  new_jar = λ scheme address w. (ok tt, w);
  read_cookie_file = λ filename w. (none, w);
  default_credentials = λ w. (ok (record { email = "m@example.com"; password = "secret" }), w);
  cookies = λ w. [];
  write_cookie_file = λ filename cookies w. w;
}

abbrev request : ℕ → Result × ℕ
request w = (record no_result { code = 401; error = some "Unauthorized" }, w + 1)

abbrev credentials : ℕ → Reply UserLogin × ℕ
credentials w = (ok (record { email = "m@example.com"; password = "secret" }), w)

abbrev client : Client ℕ
client = record {
  scheme = "http";
  address = "localhost";
  get_credentials = some credentials;
  cookie_filename = "cookies";
}

counted : Counts strict client request credentials refl (λ w. w)
unfolding login write_cookies
counted = record {
  sends = λ w. refl;
  asks = λ w. refl;
  logs_in = λ creds w. refl;
  writes = λ name w. refl;
}

login_guard_sends_example :
    let (r, w') = login_guard strict (some client) request 0 in
    ((request 0).0.code ≢ 401 → (w' ≡ 0 + 1) × (r ≡ (request 0).0))
    × ((request 0).0.code ≡ 401
        → (how : Retried strict client request credentials refl (request 0).1 r) × (w'
            ≡ 0 + (1 + again strict client request credentials refl how)))
login_guard_sends_example =
    login_guard_sends strict client request credentials refl (λ w. w) counted 0
