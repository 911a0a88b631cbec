-- ===== src/Scripts/TestDatabase.antt =====
-- scripts/validate_test_database.py: the guard that keeps the tests away from any database but a
-- local one that is named for them.
mod Tests
use platinum_gold_backend.Prelude.{
  ℕ, ◌-◌, Text, codes, Bool, true, false, ◌&&◌, ◌==◌, text_eq, text_eq-eq, ==_iff, mem_text,
  is_empty, length, drop, Option, none, some, List, [], ◌∷◌, ◌≡◌, refl, ◌⊎◌, inl, inr,
  and-eq-true_iff, Bool-cases, if◌then◌else◌,
}
use platinum_gold_backend.Errors.{value_error, Outcome, ok, raised}
use platinum_gold_backend.Core.Platform.{SplitUrl, Platform}

abbrev pub allowed_hosts : List Text
allowed_hosts = codes "localhost" ∷ codes "127.0.0.1" ∷ codes "::1" ∷ []

abbrev pub validation_error_text : Text
validation_error_text =
    codes
      "TEST_DATABASE_URL must use a local PostgreSQL database on port 5432 ending in _test without query parameters"

-- `text.endswith(suffix)`
abbrev pub ends_with : Text → Text → Bool
ends_with suffix t = text_eq (drop (length t - length suffix) t) suffix

-- `path.removeprefix("/")`
abbrev pub database_name_of : Text → Text
database_name_of [] = []
database_name_of (c ∷ path) = if c == b'/' then path else c ∷ path

abbrev pub is_allowed_host : Option Text → Bool
is_allowed_host none = false
is_allowed_host (some hostname) = mem_text hostname allowed_hosts

abbrev pub is_allowed_port : Option ℕ → Bool
is_allowed_port none = true
is_allowed_port (some port) = port == 5432

abbrev pub is_test_database : SplitUrl → Option ℕ → Bool
is_test_database parsed port =
    text_eq parsed.scheme (codes "postgresql+asyncpg")
    && (is_allowed_host parsed.hostname
        && (is_allowed_port port
            && (ends_with (codes "_test") (database_name_of parsed.path)
                && (is_empty parsed.query && is_empty parsed.fragment))))

-- urlsplit and the property `port` may raise ValueError
abbrev pub checked_port : SplitUrl → Option (Option ℕ) → Bool
checked_port parsed none = false
checked_port parsed (some port) = is_test_database parsed port

abbrev pub checked_url : Option SplitUrl → Bool
checked_url none = false
checked_url (some parsed) = checked_port parsed parsed.port

unfoldable pub validate_test_database_url : Platform → Option Text → Outcome (Option Text)
validate_test_database_url platform none = ok none
validate_test_database_url platform (some url) =
    if checked_url (platform.urlsplit url)
    then ok (some url)
    else raised (value_error validation_error_text)

-- `main`: the text of the SystemExit, if there is one
abbrev pub exit_text : Outcome (Option Text) → Option Text
exit_text (ok url) = none
exit_text (raised (value_error message)) = some message
exit_text (raised _) = none

unfoldable pub main : Platform → Option Text → Option Text
main platform environ = exit_text (validate_test_database_url platform environ)

-- A database on this machine, on the port of PostgreSQL, with a name for tests.
pub record IsTestDatabase (parsed : SplitUrl) : Type 0 where
  pub hostname : Text
  pub port : Option ℕ
  pub is_host : parsed.hostname ≡ some hostname
  pub near : mem_text hostname allowed_hosts ≡ true
  pub has_port : parsed.port ≡ some port
  pub standard : (port ≡ none) ⊎ (port ≡ some 5432)
  pub scheme : parsed.scheme ≡ codes "postgresql+asyncpg"
  pub named : ends_with (codes "_test") (database_name_of parsed.path) ≡ true
  pub query : is_empty parsed.query ≡ true
  pub fragment : is_empty parsed.fragment ≡ true

allowed_host :
    (o : Option Text)
    → is_allowed_host o ≡ true
    → (h : Text) × (o ≡ some h) × (mem_text h allowed_hosts ≡ true)
allowed_host none h = cc
allowed_host (some hostname) h = (hostname, refl, h)

standard_port : (o : Option ℕ) → is_allowed_port o ≡ true → (o ≡ none) ⊎ (o ≡ some 5432)
standard_port none h = inl refl
standard_port (some port) h = inr (rw ((==_iff port 5432).0 h))

checked_port-IsTestDatabase :
    (parsed : SplitUrl) (o : Option (Option ℕ))
    → parsed.port ≡ o
    → checked_port parsed o ≡ true
    → IsTestDatabase parsed
checked_port-IsTestDatabase parsed none e h = cc
checked_port-IsTestDatabase parsed (some port) e h =
    let (scheme, h1) = (and-eq-true_iff _ _).0 h in
    let (host, h2) = (and-eq-true_iff _ _).0 h1 in
    let (standard, h3) = (and-eq-true_iff _ _).0 h2 in
    let (named, h4) = (and-eq-true_iff _ _).0 h3 in
    let (query, fragment) = (and-eq-true_iff _ _).0 h4 in
    let (hostname, is_host, near) = allowed_host parsed.hostname host in
    record {
      hostname = hostname;
      port = port;
      is_host = is_host;
      near = near;
      has_port = e;
      standard = standard_port port standard;
      scheme = text_eq-eq parsed.scheme (codes "postgresql+asyncpg") scheme;
      named = named;
      query = query;
      fragment = fragment;
    }

checked_url-IsTestDatabase :
    (o : Option SplitUrl)
    → checked_url o ≡ true
    → (parsed : SplitUrl) × (o ≡ some parsed) × IsTestDatabase parsed
checked_url-IsTestDatabase none h = cc
checked_url-IsTestDatabase (some parsed) h =
    (parsed, refl, checked_port-IsTestDatabase parsed parsed.port refl h)

-- Where the guard lets the tests run on a URL, the URL names a test database on this machine.
pub main-IsTestDatabase :
    (platform : Platform) (url : Text)
    → main platform (some url) ≡ none
    → (parsed : SplitUrl) × (platform.urlsplit url ≡ some parsed) × IsTestDatabase parsed
unfolding main validate_test_database_url
main-IsTestDatabase platform url h = elim (Bool-cases (checked_url (platform.urlsplit url))) [
  | inl good ↦ checked_url-IsTestDatabase (platform.urlsplit url) good
  | inr bad ↦ let never = (rw bad at h) in cc
]
