-- ===== src/Server/Identity.antt =====
-- Who is who on the server: accounts, logins and tokens.
use dorothy.Base.{
  ℕ, String, ◌≡◌, ◌↔◌, refl, ap, ◌∙◌, Option, none, some, Bool, true, eqb, eqb_iff, Bool-cases, inl,
  inr,
}
use dorothy.Outcome.{Reply, ok, err}
use dorothy.Access.{User}
use dorothy.Server.{Fiber, Context, Answer, next}
use dorothy.Server.Accounts.{
  NewUser, UserLogin, UserRow, Claim, Accounts, role_for, create_hashed, create_counted,
  create_user, validate_credentials, issued, found_user, checked, login_parsed, login, claimed,
  loaded_user, authenticated, authenticator,
}

module _ (fiber : Fiber) {W : Type 0} (accounts : Accounts fiber.Request W) where
  open accounts use {
    parse_login, count_users, generate_hash, create, find_user, load_user, make_token, cookie_token,
    is_valid_token, email_claim,
  }

  -- What `CreateUser` has done where it succeeds.
  pub record Created (n : NewUser) (w w' : W) : Type 0 where
    pub count : ℕ
    pub counted : count_users w ≡ ok count
    pub row : UserRow
    pub created : create row w ≡ (ok tt, w')
    pub hashed : generate_hash n.password ≡ ok row.password_hash
    pub who : (row.email ≡ n.email) × (row.name ≡ n.name)
    pub first : (row.role_code ≡ "admin") ↔ (count ≡ 0)

  role_for_iff : (count : ℕ) → (role_for fiber accounts count ≡ "admin") ↔ (count ≡ 0)
  unfolding role_for
  role_for_iff count = elim (Bool-cases (eqb count 0)) [
    | inl e ↦ rw e (λ _. (eqb_iff count 0).0 e, λ _. refl)
    | inr e ↦ rw e (λ h. absurd (cc), λ h. let t = (eqb_iff count 0).1 h in absurd (cc))
  ]

  -- A user that is created has a hash of the password that was given, and is an administrator
  -- exactly if there was no user before.
  pub create_user_sound :
      (n : NewUser) (w w' : W) → create_user fiber accounts n w ≡ (ok tt, w') → Created n w w'
  unfolding create_user
  create_user_sound n w w' e = at_count (count_users w) refl e
    where
      at_hash :
          (count : ℕ)
          → count_users w ≡ ok count
          → (x : Reply String) → generate_hash n.password ≡ x
          → create_hashed fiber accounts n (role_for fiber accounts count) x w ≡ (ok tt, w')
          → Created n w w'
      at_hash count q (err e) p t = cc
      at_hash count q (ok hash) p t = record {
        count = count;
        counted = q;
        row = _;
        created = t;
        hashed = p;
        who = (refl, refl);
        first = role_for_iff count;
      }

      at_count :
          (x : Reply ℕ)
          → count_users w ≡ x
          → create_counted fiber accounts n x w ≡ (ok tt, w')
          → Created n w w'
      at_count (err e) q t = cc
      at_count (ok count) q t = at_hash count q (generate_hash n.password) refl t

  -- What a login that gives out a token has found.
  pub record LoggedIn (c : Context fiber.Request) (token : String) (w : W) : Type 0 where
    pub credentials : UserLogin
    pub parsed : parse_login c.request ≡ ok credentials
    pub valid : validate_credentials fiber accounts credentials.email credentials.password w ≡ ok tt
    pub user : User
    pub found : find_user credentials.email w ≡ ok user
    pub made : make_token user w ≡ ok token

  -- A login gives out a token only to the user whose address and password the request holds.
  pub login_sound :
      (c : Context fiber.Request) (token : String) (w : W)
      → (login fiber accounts c w).1 ≡ some token
      → LoggedIn c token w
  unfolding login login_parsed checked found_user issued
  login_sound c token w e = at_login (parse_login c.request) refl e
    where
      at_token :
          (l : UserLogin)
          → parse_login c.request ≡ ok l
          → validate_credentials fiber accounts l.email l.password w ≡ ok tt
          → (u : User) → find_user l.email w ≡ ok u
          → (x : Reply String) → make_token u w ≡ x
          → (issued fiber accounts c x).1 ≡ some token
          → LoggedIn c token w
      at_token l p v u f (err e) m t = cc
      at_token l p v u f (ok k) m t = record {
        credentials = l;
        parsed = p;
        valid = v;
        user = u;
        found = f;
        made = let same : Path String k token = cc in m ∙ ap (λ (s : String). ok s) same;
      }

      at_user :
          (l : UserLogin)
          → parse_login c.request ≡ ok l
          → validate_credentials fiber accounts l.email l.password w ≡ ok tt
          → (x : Reply User) → find_user l.email w ≡ x
          → (found_user fiber accounts c x w).1 ≡ some token
          → LoggedIn c token w
      at_user l p v (err e) f t = cc
      at_user l p v (ok u) f t = at_token l p v u f (make_token u w) refl t

      at_check :
          (l : UserLogin)
          → parse_login c.request ≡ ok l
          → (x : Reply (Unit {0})) → validate_credentials fiber accounts l.email l.password w ≡ x
          → (checked fiber accounts c l x w).1 ≡ some token
          → LoggedIn c token w
      at_check l p (err e) v t = cc
      at_check l p (ok _) v t = at_user l p v (find_user l.email w) refl t

      at_login :
          (x : Reply UserLogin)
          → parse_login c.request ≡ x
          → (login_parsed fiber accounts c x w).1 ≡ some token
          → LoggedIn c token w
      at_login (err e) p t = cc
      at_login (ok l) p t =
          at_check l p (validate_credentials fiber accounts l.email l.password w) refl t

  -- Whom the authenticator has found in the request.
  pub record Authenticated (c : Context fiber.Request) (user : User) (w : W) : Type 0 where
    pub token : accounts.Token
    pub carried : cookie_token c.request w ≡ some token
    pub valid : is_valid_token token w ≡ true
    pub email : Claim
    pub claims : email_claim token ≡ some email
    pub loaded : load_user email w ≡ ok user

  -- Where no user is known before, the authenticator hands a request on with a user only if its
  -- cookie carries a valid token, and then with the user whose address the token claims.
  pub authenticator_sound :
      (c c' : Context fiber.Request) (cleared : Bool) (user : User) (w : W)
      → c.auth_user ≡ none
      → authenticator fiber accounts c w ≡ (next c', cleared)
      → c'.auth_user ≡ some user
      → Authenticated c user w
  unfolding authenticator
  authenticator_sound c c' cleared user w anonymous e known =
      at_token (cookie_token c.request w) refl e
    where
      at_user :
          (t : accounts.Token)
          → cookie_token c.request w ≡ some t
          → is_valid_token t w ≡ true
          → (email : Claim) → email_claim t ≡ some email
          → (x : Reply User) → load_user email w ≡ x
          → loaded_user fiber accounts c x ≡ (next c', cleared)
          → Authenticated c user w
      at_user t carried valid email claims (err x) l p = cc
      at_user t carried valid email claims (ok u) l p =
          let q : record c { auth_user = some u } ≡ c' = cc in
          let s : some u ≡ some user = ap (λ (k : Context fiber.Request). k.auth_user) q ∙ known in
          let same : Path User u user = cc in
          record {
            token = t;
            carried = carried;
            valid = valid;
            email = email;
            claims = claims;
            loaded = l ∙ ap (λ (k : User). ok k) same;
          }

      nobody :
          {A : Type 0}
          → Path
              (Answer fiber.Request × Bool)
              (authenticated fiber accounts c none w)
              (next c', cleared)
          → A
      nobody p =
          let q : c ≡ c' = cc in
          let s : c.auth_user ≡ c'.auth_user = ap (λ (k : Context fiber.Request). k.auth_user) q in
          absurd (cc)

      at_claim :
          (t : accounts.Token)
          → cookie_token c.request w ≡ some t
          → is_valid_token t w ≡ true
          → (x : Option Claim) → email_claim t ≡ x
          → authenticated fiber accounts c x w ≡ (next c', cleared)
          → Authenticated c user w
      at_claim t carried valid none claims p = nobody p
      at_claim t carried valid (some email) claims p = at_user t carried valid email claims _ refl p

      at_token :
          (o : Option accounts.Token)
          → cookie_token c.request w ≡ o
          → authenticated fiber accounts c (claimed fiber accounts o w) w ≡ (next c', cleared)
          → Authenticated c user w
      at_token none q p = nobody p
      at_token (some t) q p = elim (Bool-cases (is_valid_token t w)) [
        | inl v ↦ at_claim t q v (email_claim t) refl (rw v at p)
        | inr v ↦ nobody (rw v at p)
      ]
