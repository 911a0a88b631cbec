-- ===== src/Items/Router.antt =====
-- app/items/router.py, app/items/dependencies.py and `get_session` of app/core/database.py: the
-- routes of the catalogue with their dependencies, in the order in which FastAPI resolves them, and
-- the responses that the exception handlers make.
pub mod Granted
mod Tests
use platinum_gold_backend.Prelude.{ℤ, Text, codes, Option, none, some, List, [], ◌∷◌}
use platinum_gold_backend.Errors.{
  Exc, request_validation_error, Outcome, ok, raised, service_unavailable,
}
use platinum_gold_backend.Exec.{Exec, pure, raise, lift, try_finally, ◌>>=◌, ◌>>◌}
use platinum_gold_backend.Auth.{ApiKeyVerifier, authorize}
use platinum_gold_backend.Core.Exceptions.{
  Response, http_exception_handler, validation_exception_handler,
}
use platinum_gold_backend.Core.Clients.{SessionMaker}
use platinum_gold_backend.Core.Log.{Logger}
use platinum_gold_backend.Items.Repository.{ItemRepository}
use platinum_gold_backend.Items.Schemas.{
  ItemResponse, ItemFilterParams, ItemListParams, ItemListResponse, MetaResponse, RawListParams,
  validate_filter_params, validate_list_params,
}
use platinum_gold_backend.Items.Service.{
  ItemCache, get_by_game_id, list_items, get_random, get_meta,
}

-- The state of the application, as far as the lifespan has set it.
pub record AppState (W S : Type 0) : Type 0 where
  pub session_factory : Option (SessionMaker W S)
  pub item_cache : Option (ItemCache W)
  pub api_key_verifier : Option (ApiKeyVerifier W)
  pub version : Text

-- What a client gets: the value of a response model, or the response of an exception handler.
pub data Reply (A : Type 0) : Type 0 where
  answered : A → Reply A
  refused : Response → Reply A

-- The handlers that are registered for the exceptions.
abbrev pub handler_of : Exc → Outcome Response
handler_of request_validation_error = ok validation_exception_handler
handler_of e = http_exception_handler e

abbrev pub handled : {A : Type 0} → Outcome Response → Outcome (Reply A)
handled (ok response) = ok (refused response)
handled (raised e) = raised e

abbrev pub reply_of : {A : Type 0} → Outcome A → Outcome (Reply A)
reply_of (ok a) = ok (answered a)
reply_of (raised e) = handled (handler_of e)

-- A parameter that is not valid is reported once all dependencies are resolved.
abbrev pub checked : {A : Type 0} → Option A → Outcome A
checked none = raised request_validation_error
checked (some params) = ok params

abbrev pub api_access : List Text
api_access = codes "api:access" ∷ []

module _ {W S : Type 0} (state : AppState W S) where
  unfoldable pub get_item_cache : Option (ItemCache W) → Exec W (ItemCache W)
  get_item_cache none = raise service_unavailable
  get_item_cache (some cache) = pure cache

  abbrev pub required_factory : Option (SessionMaker W S) → Exec W (SessionMaker W S)
  required_factory none = raise service_unavailable
  required_factory (some factory) = pure factory

  -- `get_session`: the session is closed after the route has answered or raised.
  unfoldable pub with_session : {A : Type 0} → (S → Exec W A) → Exec W A
  with_session use_session = do
    factory ← required_factory state.session_factory
    session ← factory.enter
    try_finally (use_session session) (factory.close session)

  module _ (repository_of : S → ItemRepository W) where
    -- `get_item_repository`, then `get_item_cache`, as `get_item_service` takes them
    unfoldable pub with_service :
        {A : Type 0} → (ItemRepository W → ItemCache W → Exec W A) → Exec W A
    with_service use_service = with_session λ session. do
      cache ← get_item_cache state.item_cache
      use_service (repository_of session) cache

    -- A route with its parameters: the scope, the parameters, the service, the body.
    unfoldable pub route :
        {A P : Type 0}
        → Option Text
        → Option P
        → (P → ItemRepository W → ItemCache W → Exec W A)
        → Exec W (Reply A)
    route api_key params body w =
        let (r, w') =
          (authorize api_access state.api_key_verifier api_key
              >> with_service (λ repository cache. do
                given ← lift (checked params)
                body given repository cache))
            w in
        (reply_of r, w')

    module _ (logger : Logger W) (name_of : Exc → Text) where
      unfoldable pub list_items_route :
          Option Text → RawListParams → Exec W (Reply ItemListResponse)
      list_items_route api_key raw =
          route api_key (validate_list_params raw)
            λ params repository cache. list_items logger name_of repository cache params

      unfoldable pub get_random_item : Option Text → RawListParams → Exec W (Reply ItemResponse)
      get_random_item api_key raw =
          route api_key (validate_filter_params raw)
            λ params repository cache. get_random logger name_of repository cache params

      -- `none` is a path that is no int
      unfoldable pub get_item_route : Option Text → Option ℤ → Exec W (Reply ItemResponse)
      get_item_route api_key item_id =
          route api_key item_id
            λ id repository cache. get_by_game_id logger name_of repository cache id

      unfoldable pub get_meta_route : Option Text → Exec W (Reply MetaResponse)
      get_meta_route api_key =
          route api_key (some state.version)
            λ version repository cache. get_meta logger name_of repository cache version
