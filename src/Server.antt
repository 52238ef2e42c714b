-- ===== src/Server.antt =====
-- server/handlers.go and server/server.go: what the handlers of the server share.
pub mod Visible
pub mod Datasets
pub mod Forms
pub mod Accounts
pub mod Identity
pub mod Access
pub mod Receive
pub mod Routes
pub mod Tokens
pub mod Pages
pub mod Dispatch
pub mod Newcomers
pub mod Creating
pub mod Session
pub mod Startup
pub mod Harmless
pub mod Posting
mod Tests
mod AccountTests
use dorothy.Base.{ℕ, String, Option, some, Bool, List, if◌then◌else◌}
use dorothy.Outcome.{Reply, Conflict, Error}
use dorothy.Sdk.{Payload}
use dorothy.Access.{User, Organization, Dataset, Listing}

-- `NewOrganization` and `NewDataset` of server/model, and `NewUser` without its optional ORCID
pub record NewOrganization : Type 0 where
  pub slug : String
  pub name : String
  pub contact : String
  pub description : Option String
  pub is_private : Bool

pub record NewDataset : Type 0 where
  pub slug : String
  pub name : String
  pub organization_id : ℕ
  pub contact : String
  pub description : Option String
  pub is_private : Bool

-- fiber's request: its parameters, its body and what it accepts.
pub record Fiber : Type 1 where
  pub Request : Type 0
  pub accepts : Request → String → Bool
  pub path : Request → String
  pub organization_param : Request → String
  pub dataset_param : Request → String
  pub parse_payload : Request → Reply Payload
  pub parse_organization : Request → Reply NewOrganization
  pub parse_dataset : Request → Reply NewDataset

-- gorm's session over the state `W`. `save_organization` answers the record with the identifier that
-- the database gave it, and `transaction` rolls back where its body fails.
pub record Database (W : Type 0) : Type 0 where
  pub all_organizations : W → Reply (List Listing)
  pub first_organization : String → W → Reply Listing
  pub first_dataset : String → ℕ → W → Reply Dataset
  pub save_organization : Organization → W → Reply Organization × W
  pub save_organization_privilege : User → Organization → String → W → W
  pub save_dataset : Dataset → W → Reply Dataset × W
  pub save_dataset_privilege : User → Dataset → String → W → Reply (Unit {0}) × W
  pub transaction : (W → Reply (Unit {0}) × W) → W → Reply (Unit {0}) × W
  -- whether the deadline of the connection has passed
  pub timed_out : W → Bool

-- The request with the locals that the handlers before have set.
pub record Context (R : Type 0) : Type 0 where
  pub request : R
  pub auth_user : Option User
  pub organizations : List Listing
  pub organization : Option Listing
  pub dataset : Option Dataset

pub data Body : Type 0 where
  error_body : String → Body
  conflict_body : List Conflict → Body
  message_body : String → Body
  merge_error_body : Error → Body
  payload_body : Payload → Body

-- How a handler ends: `c.Next()`, or a reply under the status that the code has set before, if any.
pub data Answer (R : Type 0) : Type 0 where
  next : Context R → Answer R
  redirect : Option ℕ → String → Answer R
  redirect_back : Option ℕ → String → Answer R
  json : Option ℕ → Body → Answer R
  text : Option ℕ → String → Answer R
  render : String → Answer R
  panic : Answer R

-- `Redirect` of server/handlers.go
module _ (fiber : Fiber) where
  open fiber use {Request, accepts}

  unfoldable pub redirect_as : Context Request → ℕ → String → Body → String → Answer Request
  redirect_as c status path body plain =
      if accepts c.request "text/html"
      then redirect (some status) path
      else (if accepts c.request "application/json"
          then json (some status) body
          else (if accepts c.request "text/plain"
              then text (some status) plain
              else redirect (some status) path))
