-- ===== src/Sdk/Guard.antt =====
-- How often `LoginGuard` of sdk/client.go sends its request, and when it logs in.
use dorothy.Base.{
  ℕ, ◌+◌, String, ◌≡◌, ◌≢◌, refl, ◌∙◌, inl, inr, none, some, true, arith, eqb, eqb_iff, ◌==◌,
  Bool-cases, Option-cases,
}
use dorothy.Outcome.{Reply, ok, err}
use dorothy.Sdk.{
  Http, Client, Result, UserLogin, login, write_cookies, keep_cookies, after_login, refused,
  after_credentials, login_guard,
}

module _ {W : Type 0} (http : Http W) (c : Client W) (req : W → Result × W)
    (get_credentials : W → Reply UserLogin × W)
    (handler : c.get_credentials ≡ some get_credentials) where
  open http use {write_cookie_file}

  -- How often the request was sent: `req` sends it once, and nothing else does.
  pub record Counts (sent : W → ℕ) : Type 0 where
    pub sends : (w : W) → sent (req w).1 ≡ sent w + 1
    pub asks : (w : W) → sent (get_credentials w).1 ≡ sent w
    pub logs_in : (creds : UserLogin) (w : W) → sent (login http (some c) creds w).1 ≡ sent w
    pub writes : (name : String) (w : W) → sent (write_cookies http name w) ≡ sent w

  -- How the guard went on from the world `v`, after a first answer with the code 401, and what it
  -- returned. Only a login that succeeded makes it send the request again, from the world that the login
  -- left, and then it returns what that second request was answered.
  pub data Retried (v : W) (r : Result) : Type 0 where
    unasked : (e : String) → (get_credentials v).0 ≡ err e → r ≡ refused http e → Retried v r
    unlogged :
        (creds : UserLogin) (e : String)
        → (get_credentials v).0 ≡ ok creds
        → (login http (some c) creds (get_credentials v).1).0.error ≡ some e
        → r ≡ refused http e
        → Retried v r
    resent :
        (creds : UserLogin)
        → (get_credentials v).0 ≡ ok creds
        → (login http (some c) creds (get_credentials v).1).0.error ≡ none
        → r ≡ record (req (login http (some c) creds (get_credentials v).1).1).0 {
          required_login = true;
        }
        → Retried v r

  -- How often the request was sent after the first time.
  abbrev pub again : {v : W} {r : Result} → Retried v r → ℕ
  again (unasked _ _ _) = 0
  again (unlogged _ _ _ _ _) = 0
  again (resent _ _ _ _) = 1

  module _ (sent : W → ℕ) (counts : Counts sent) where
    keep_cookies-sent :
        (r : Result) (w : W)
        → (sent (keep_cookies http c (r, w)).1 ≡ sent w) × ((keep_cookies http c (r, w)).0 ≡ r)
    unfolding keep_cookies
    keep_cookies-sent r w = elim (Bool-cases (c.cookie_filename == "")) [
      | inl e ↦ rw e (refl, refl)
      | inr e ↦ rw e (counts.writes c.cookie_filename w, refl)
    ]

    -- A run from the world `v` that has ended.
    abbrev Ends : W → Result × W → Type 0
    Ends v x = (how : Retried v x.0) × (sent x.1 ≡ sent v + again how)

    after_login-Ends :
        (v : W) (creds : UserLogin)
        → (get_credentials v).0 ≡ ok creds
        → Ends v (after_login http c req (login http (some c) creds (get_credentials v).1))
    unfolding after_login
    after_login-Ends v creds given = elim (Option-cases l.0.error) [
      | inr (e, p) ↦ rw p (unlogged creds e given p refl, silent)
      | inl p ↦
          let second : Result = record (req l.1).0 { required_login = true } in
          let (kept, same) = keep_cookies-sent second (req l.1).1 in
          let sends = counts.sends l.1 in
          let before = silent in rw p (resent creds given p same, omega arith)
    ]
      where
        l : Result × W
        l = login http (some c) creds (get_credentials v).1

        silent : sent l.1 ≡ sent v + 0
        silent =
            let a = counts.logs_in creds (get_credentials v).1 in
            let b = counts.asks v in omega arith

    after_credentials-Ends :
        (v : W)
        → (x : Reply UserLogin) → (get_credentials v).0 ≡ x
        → Ends v (after_credentials http c req (x, (get_credentials v).1))
    unfolding after_credentials
    after_credentials-Ends v (err e) given =
        let b = counts.asks v in (unasked e given refl, omega arith)
    after_credentials-Ends v (ok creds) given = after_login-Ends v creds given

    -- A request that is not answered 401 is sent once, and its result is returned. One that is answered
    -- 401 makes the guard ask for credentials and log in; where both succeed, the request is sent a
    -- second time, and never a third time, and its second result is returned, marked as one that needed a
    -- login. Where one of them fails, the request is not sent again, and the result is that error.
    pub login_guard_sends :
        (w : W)
        → let (r, w') = login_guard http (some c) req w in
          ((req w).0.code ≢ 401 → (sent w' ≡ sent w + 1) × (r ≡ (req w).0))
          × ((req w).0.code ≡ 401
              → (how : Retried (req w).1 r) × (sent w' ≡ sent w + (1 + again how)))
    unfolding login_guard
    login_guard_sends w = rw handler (elim (Bool-cases (eqb (req w).0.code 401)) [
      | inl e ↦
          let (how, n) = after_credentials-Ends (req w).1 (get_credentials (req w).1).0 refl in
          let first = counts.sends w in
          rw e (λ ne. absurd (ne ((eqb_iff _ _).0 e)), λ _. (how, omega arith))
      | inr e ↦
          let (kept, same) = keep_cookies-sent (req w).0 (req w).1 in
          rw e (
            λ _. (kept ∙ counts.sends w, same),
            λ h. let t = (eqb_iff (req w).0.code 401).1 h in absurd (cc),
          )
    ])
