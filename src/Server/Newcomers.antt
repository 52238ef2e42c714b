-- ===== src/Server/Newcomers.antt =====
-- Accounts that server/db.go has made, and their passwords.
pub mod Entering
use dorothy.Base.{String, ◌≡◌, refl, subst, some, true}
use dorothy.Outcome.{ok}
use dorothy.Server.{Fiber}
use dorothy.Server.Accounts.{NewUser, UserRow, Accounts, create_user, validate_credentials}
use dorothy.Server.Identity.{create_user_sound}

-- gorm reads the hash of an account back once it was created, and bcrypt accepts the password that it
-- has hashed.
pub record AccountLaws {R W : Type 0} (accounts : Accounts R W) : Type 0 where
  pub hash_stored :
      (row : UserRow) (w w' : W)
      → accounts.create row w ≡ (ok tt, w')
      → accounts.stored_hash row.email w' ≡ ok (some row.password_hash)
  pub hash_accepted :
      (password hash : String)
      → accounts.generate_hash password ≡ ok hash
      → accounts.compare hash password ≡ true

module _ (fiber : Fiber) {W : Type 0} (accounts : Accounts fiber.Request W)
    (laws : AccountLaws accounts) where
  -- A user that was created can log in with the address and the password that were given.
  pub validate_credentials-create_user :
      (n : NewUser) (w w' : W)
      → create_user fiber accounts n w ≡ (ok tt, w')
      → validate_credentials fiber accounts n.email n.password w' ≡ ok tt
  unfolding validate_credentials
  validate_credentials-create_user n w w' e =
      let made = create_user_sound fiber accounts n w w' e in
      let found : accounts.stored_hash n.email w' ≡ ok (some made.row.password_hash) =
        subst (λ (x : String). accounts.stored_hash x w' ≡ ok (some made.row.password_hash))
          made.who.0 (laws.hash_stored made.row w w' made.created) in
      let accepted = laws.hash_accepted n.password made.row.password_hash made.hashed in
      rw (found, accepted) refl
