-- ===== src/Scripts/TestDatabase/Tests.antt =====
-- A URL that is let through and some that are not, and the theorem there.
use platinum_gold_backend.Prelude.{Text, codes, text_eq, some, none, [], ◌≡◌, refl}
use platinum_gold_backend.Core.Platform.{SplitUrl, Platform}
use platinum_gold_backend.Core.Config.Samples as Environment
use platinum_gold_backend.Scripts.TestDatabase.{
  validation_error_text, validate_test_database_url, main, IsTestDatabase, main-IsTestDatabase,
}

abbrev url : Text
url = codes "postgresql+asyncpg://u:p@localhost/app_test"

abbrev split : SplitUrl
split = record {
  scheme = codes "postgresql+asyncpg";
  netloc = codes "u:p@localhost";
  path = codes "/app_test";
  query = [];
  fragment = [];
  username = some (codes "u");
  password = some (codes "p");
  hostname = some (codes "localhost");
  port = some none;
}

-- every URL is split into the given parts
abbrev splitting : SplitUrl → Platform
splitting parts = record Environment.platform { urlsplit = λ t. some parts }

running : Unit {0}
unfolding main validate_test_database_url text_eq
running = tt

lets_pass : main (splitting split) (some url) ≡ none
unfolding running
lets_pass = refl

refuses :
    (main (splitting (record split { hostname = some (codes "db.example") })) (some url)
      ≡ some validation_error_text)
    × (main (splitting (record split { path = codes "/app" })) (some url)
        ≡ some validation_error_text)
    × (main (splitting (record split { port = some (some 5433) })) (some url)
        ≡ some validation_error_text)
    × (main (splitting (record split { port = none })) (some url) ≡ some validation_error_text)
unfolding running
refuses = (refl, refl, refl, refl)

main-IsTestDatabase_example :
    (parsed : SplitUrl) × ((splitting split).urlsplit url ≡ some parsed) × IsTestDatabase parsed
main-IsTestDatabase_example = main-IsTestDatabase (splitting split) url lets_pass
