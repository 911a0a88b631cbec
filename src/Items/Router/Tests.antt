-- ===== src/Items/Router/Tests.antt =====
-- Requests to the routes over the sample service, and the theorems at them.
use platinum_gold_backend.Prelude.{
  ℕ, ℤ, Text, codes, pos, text_eq, Option, none, some, [], ◌≡◌, refl,
}
use platinum_gold_backend.Errors.{is_exception, Outcome, ok}
use platinum_gold_backend.Exec.{Exec, pure}
use platinum_gold_backend.Auth.{
  verification_failure, scopes_of, principal_of, clerk_verify, api_key_required,
  get_api_key_verifier, get_principal, require_scopes, authorize,
}
use platinum_gold_backend.Auth.Samples.{verify_api_key}
use platinum_gold_backend.Core.Exceptions.{http_exception_handler, validation_exception_handler}
use platinum_gold_backend.Core.Clients.{SessionMaker}
use platinum_gold_backend.Items.Repository.{ItemRepository}
use platinum_gold_backend.Items.Schemas.{ItemResponse}
use platinum_gold_backend.Items.Service.{
  ItemCache, is_cache_failure, to_item_response, cache_read, cache_write, get_by_game_id,
}
use platinum_gold_backend.Items.Service.Samples.{
  World, logger, name_of, brimstone, repository, cache,
}
use platinum_gold_backend.Items.Router.{
  AppState, Reply, answered, refused, get_item_cache, with_session, with_service, route,
  get_item_route,
}
use platinum_gold_backend.Items.Router.Granted.{
  started, access, IsRefused, route-IsRefused, IsServed, get_item_route-IsServed,
}

abbrev factory : SessionMaker World Unit
factory = record { enter = pure tt; close = λ session. pure tt }

abbrev repository_of : Unit {0} → ItemRepository World
repository_of session = repository

abbrev state : AppState World Unit
state = started verify_api_key 2000 factory cache (codes "0.1.0") repository_of

abbrev get : Option Text → Option ℤ → Outcome (Reply ItemResponse)
get api_key item_id = (get_item_route state repository_of logger name_of api_key item_id []).0

running : Unit {0}
unfolding is_exception authorize get_api_key_verifier get_principal clerk_verify
    verification_failure principal_of scopes_of require_scopes text_eq get_item_cache with_session
    with_service route get_item_route get_by_game_id cache_read cache_write is_cache_failure
    http_exception_handler validation_exception_handler
running = tt

serves : get (some (codes "ak_1")) (some (pos 118)) ≡ ok (answered (to_item_response brimstone))
unfolding running
serves = refl

-- No key, a path that is no int, and an item that is not there.
abbrev status : Outcome (Reply ItemResponse) → ℕ
status (ok (refused response)) = response.status_code
status _ = 0

refuses :
    (status (get none (some (pos 118))) ≡ 401)
    × (status (get (some (codes "ak_1")) none) ≡ 422)
    × (status (get (some (codes "ak_1")) (some (pos 7))) ≡ 404)
unfolding running
refuses = (refl, refl, refl)

abbrev body : ℤ → ItemRepository World → ItemCache World → Exec World ItemResponse
body id repository cache = get_by_game_id logger name_of repository cache id

route-IsRefused_example :
    ((route state repository_of none (some (pos 118)) body []).1
      ≡ (access verify_api_key 2000 factory cache (codes "0.1.0") repository_of none []).1)
    × IsRefused verify_api_key 2000 factory cache
        (codes "0.1.0")
        repository_of
        (route state repository_of none (some (pos 118)) body []).0
        api_key_required
unfolding running
route-IsRefused_example =
    route-IsRefused verify_api_key 2000 factory cache (codes "0.1.0") repository_of none
      (some (pos 118)) body [] api_key_required refl

get_item_route-IsServed_example :
    IsServed verify_api_key 2000 factory cache
      (codes "0.1.0")
      repository_of
      logger
      name_of
      (some (codes "ak_1"))
      (some (pos 118))
      []
      (to_item_response brimstone)
      (get_item_route state repository_of logger name_of
        (some (codes "ak_1"))
        (some (pos 118))
        []).1
get_item_route-IsServed_example =
    get_item_route-IsServed verify_api_key 2000 factory cache (codes "0.1.0") repository_of logger
      name_of (some (codes "ak_1")) (some (pos 118)) [] (to_item_response brimstone) serves
