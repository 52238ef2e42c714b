-- ===== src/Config/Remotes/Tests.antt =====
-- Addresses of remotes and of nodes, over a net/url of two addresses.
use dorothy.Base.{String, ◌≡◌, refl, ◌⊎◌, inl, inr, some, true, [], ◌∷◌, ◌==◌, if◌then◌else◌}
use Prim.Native.String.{◌++◌}
use dorothy.Outcome.{ok, done}
use dorothy.Config.{pos, negsuc, Remote, Urls, new_remote}
use dorothy.Config.Addresses.{JoinUrl, url_string, ipfs_url, decimal}
use dorothy.Config.Remotes.{UrlLaws, new_remote-url_string}

-- The only host is "localhost", and the only element is "lab".
abbrev join_url : JoinUrl
join_url s a elements = s ++ "://localhost/lab/lab"

abbrev urls : Urls
urls = record {
  parse = λ text.
      ok (if text == "http://localhost/lab/lab" then "http" else "https", "localhost", "/lab/lab");
  split = λ text. if text == "/lab/lab" then ("/lab/", "lab") else ("/", "lab");
  clean = λ text. "/lab";
}

parsing :
    (s a o d : String)
    → ◌⊎◌ (s ≡ "http") (s ≡ "https")
    → a ≡ "localhost"
    → o ≡ "lab"
    → d ≡ "lab"
    → urls.parse (join_url s a (o ∷ d ∷ [])) ≡ ok (s, a, "/" ++ (o ++ ("/" ++ d)))
parsing s a o d (inl e) p q t = rw (e, p, q, t) refl
parsing s a o d (inr e) p q t = rw (e, p, q, t) refl

abbrev laws : UrlLaws urls join_url
laws = record {
  IsAddress = λ a. a ≡ "localhost";
  IsElement = λ o. o ≡ "lab";
  https_first = λ a o d p q t. refl;
  http_first = λ a o d p q t. refl;
  parse_join = parsing;
  split_last = λ o d p q. rw (p, q) refl;
  clean_last = λ o p. rw p refl;
  split_only = λ o p. rw p refl;
}

abbrev lab : Remote
lab = record { scheme = "https"; address = "localhost"; organization = "lab"; dataset = "lab" }

new_remote-url_string_example : new_remote urls (url_string join_url lab) ≡ done (some lab)
new_remote-url_string_example =
    new_remote-url_string urls join_url laws lab (inr refl) refl refl refl

below_zero : decimal (negsuc 4) ≡ "-5"
unfolding decimal
below_zero = refl

numbers : decimal (pos 4248) ≡ "4248"
unfolding decimal
numbers = refl

default_node :
    ipfs_url (record { global = true; address = ""; port = pos 0 }) ≡ "http://127.0.0.1:5001"
unfolding ipfs_url
default_node = refl
