-- ===== src/Config/Addresses.antt =====
-- core/config.go: the addresses of a remote and of a global node, as texts.
use Prim.Native.Nat.{◌/◌, ◌%◌}
use Prim.Native.String.{◌++◌}
use dorothy.Base.{ℕ, zero, suc, String, List, [], ◌∷◌, ◌==◌, eqb, ltb, if◌then◌else◌}
use dorothy.Config.{ℤ, pos, negsuc, is_zero, Remote, IpfsConfig}

-- net/url: `(&url.URL{Scheme: s, Host: a}).JoinPath(elements...).String()`
abbrev pub JoinUrl : Type 0
JoinUrl = String → String → List String → String

module _ (join_url : JoinUrl) where
  -- `BaseUrl`, which the client is made with
  unfoldable pub base_url : Remote → String
  base_url r = join_url r.scheme r.address []

  -- `Url`, `UrlString` and `String`
  unfoldable pub url_string : Remote → String
  url_string r = join_url r.scheme r.address (r.organization ∷ r.dataset ∷ [])

-- `%d`: the digits in front of what is written already.
abbrev pub digit : ℕ → String
digit d =
    if eqb d 0
    then "0"
    else (if eqb d 1
        then "1"
        else (if eqb d 2
            then "2"
            else (if eqb d 3
                then "3"
                else (if eqb d 4
                    then "4"
                    else (if eqb d 5
                        then "5"
                        else (if eqb d 6
                            then "6"
                            else (if eqb d 7 then "7" else (if eqb d 8 then "8" else "9"))))))))

unfoldable pub digits_before : ℕ → ℕ → String → String
digits_before zero n text = text
digits_before (suc fuel) n text =
    let more = digits_before fuel (n / 10) (digit (n % 10) ++ text) in
    if ltb n 10 then digit n ++ text else more

-- A number has fewer digits than its successor counts.
unfoldable pub decimal : ℤ → String
unfolding digits_before
decimal (pos n) = digits_before (suc n) n ""
decimal (negsuc n) = "-" ++ digits_before (suc (suc n)) (suc n) ""

-- `IpfsConfig.Url`
unfoldable pub ipfs_url : IpfsConfig → String
unfolding decimal
ipfs_url c =
    let address = if c.address == "" then "http://127.0.0.1" else c.address in
    let port = if is_zero c.port then pos 5001 else c.port in address ++ (":" ++ decimal port)
