-- ===== src/Outcome.antt =====
-- Results of the operations on manifests: the triple `(value, []Conflict, error)` of core/manifest.go,
-- core/ipfs.go and core/dorothy.go. The code never returns conflicts beside a value.
use dorothy.Base.{String, List}
use dorothy.Version.{Version, Version-set}

-- `Conflict` of core/manifest.go
pub record Conflict : Type 0 where
  pub left : Version
  pub right : Version

pub Conflict-set : IsSet Conflict
Conflict-set = hlevel Version-set

-- `external` is an error that a library or the operating system reports.
pub data Error : Type 0 where
  merge_conflict : Error
  cycles_detected : Error
  not_connected user_not_configured empty_message no_files no_manifest not_a_file : Error
  hash_not_found ambiguous_hash nil_dereference no_remote ill_formed_remote no_payload : Error
  not_repository already_initialized cannot_create cannot_write_config no_loaded_config : Error
  unexpected_dataset : Error
  unexpected_status not_http invalid_property property_not_found : Error
  external : String → Error
  -- `fmt.Errorf` around an error, and `errors.Join`
  wrapped : String → Error → Error
  joined : Error → Error → Error

pub data Reply (A : Type 0) : Type 0 where
  ok : A → Reply A
  err : String → Reply A

pub data Outcome (A : Type 0) : Type 0 where
  done : A → Outcome A
  -- conflicts, with the error that stands beside them
  conflicted : List Conflict → Error → Outcome A
  failed : Error → Outcome A

infixl 5 ◌>>=◌
abbrev pub ◌>>=◌ : {A B : Type 0} → Outcome A → (A → Outcome B) → Outcome B
done a >>= f = f a
conflicted cs e >>= f = conflicted cs e
failed e >>= f = failed e
