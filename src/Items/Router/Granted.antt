-- ===== src/Items/Router/Granted.antt =====
-- What a client gets from a route: nothing of the catalogue without the scope, and with it the answer
-- of the service.
use platinum_gold_backend.Prelude.{
  ℕ, ℤ, Text, true, false, Option, none, some, ◌≡◌, ◌⊎◌, inl, inr, refl, ap, ◌∙◌,
}
use platinum_gold_backend.Errors.{
  Exc, app_error, http_exception, invalid_api_key, auth_unavailable, clerk_base_error, os_error,
  timeout_error, redis_connection_error, redis_timeout_error, redis_response_error, redis_error,
  sqlalchemy_error, postgres_error, interface_error, value_error, unicode_error, validation_error,
  snapshot_load_error, configuration_error, cache_invalidation_error, attribute_error, unexpected,
  cancelled, request_validation_error, is_exception, Outcome, ok, raised,
}
use platinum_gold_backend.Exec.{
  Exec, lift, try_finally, ◌>>=◌, >>=-eq-ok, Outcome-cases, try_finally-eq-ok, try_finally-end,
  >>=-step,
}
use platinum_gold_backend.Auth.{ApiPrincipal, VerifiedKey, clerk, authorize}
use platinum_gold_backend.Auth.Access.{IsGranted, authorize-IsGranted_iff}
use platinum_gold_backend.Auth.Responses.{refusing_status, authorize-IsRefusal}
use platinum_gold_backend.Core.Exceptions.{Response, http_exception_handler}
use platinum_gold_backend.Core.Log.{Logger}
use platinum_gold_backend.Core.Clients.{SessionMaker}
use platinum_gold_backend.Items.Repository.{ItemRepository}
use platinum_gold_backend.Items.Schemas.{ItemResponse}
use platinum_gold_backend.Items.Service.{ItemCache, get_by_game_id}
use platinum_gold_backend.Items.Router.{
  AppState, Reply, answered, refused, handler_of, handled, reply_of, checked, api_access,
  get_item_cache, with_session, with_service, route, get_item_route,
}

answered-injective :
    {A : Type 0} {a b : A} → ◌≡◌ {A = Outcome (Reply A)} (ok (answered a)) (ok (answered b)) → a ≡ b
answered-injective h = cc

reply_of-answered : {A : Type 0} (r : Outcome A) (a : A) → reply_of r ≡ ok (answered a) → r ≡ ok a
reply_of-answered (ok b) a h = ap ok (answered-injective h)
reply_of-answered (raised e) a h = elim (Outcome-cases (handler_of e)) [
  | inl (response, q) ↦ let never = (rw q at h) in cc
  | inr (x, q) ↦ let never = (rw q at h) in cc
]

module _ {W S : Type 0} (verify_api_key : Text → ℕ → Exec W VerifiedKey) (timeout_ms : ℕ)
    (factory : SessionMaker W S) (cache : ItemCache W) (version : Text)
    (repository_of : S → ItemRepository W) where
  -- The application while it runs.
  abbrev pub started : AppState W S
  started = record {
    session_factory = some factory;
    item_cache = some cache;
    api_key_verifier = some (clerk verify_api_key timeout_ms);
    version = version;
  }

  abbrev pub access : Option Text → Exec W ApiPrincipal
  access api_key = authorize api_access started.api_key_verifier api_key

  -- The response is 401, 403 or 503, or there is none because no Exception was raised.
  pub IsRefused : {A : Type 0} → Outcome (Reply A) → Exc → Type 0
  IsRefused reply e =
      ((response : Response) × (reply ≡ ok (refused response))
        × (refusing_status (ok response) ≡ true))
      ⊎ (is_exception e ≡ false)

  handled-IsRefused :
      (A : Type 0) (e : Exc)
      → refusing_status (http_exception_handler e) ≡ true
      → IsRefused {A = A} (handled (handler_of e)) e
  unfolding IsRefused http_exception_handler
  handled-IsRefused A (app_error status code message) h = inl (_, refl, h)
  handled-IsRefused A (http_exception status headers) h = inl (_, refl, h)
  handled-IsRefused A invalid_api_key h = cc
  handled-IsRefused A auth_unavailable h = cc
  handled-IsRefused A (clerk_base_error a) h = cc
  handled-IsRefused A os_error h = cc
  handled-IsRefused A timeout_error h = cc
  handled-IsRefused A redis_connection_error h = cc
  handled-IsRefused A redis_timeout_error h = cc
  handled-IsRefused A redis_response_error h = cc
  handled-IsRefused A redis_error h = cc
  handled-IsRefused A sqlalchemy_error h = cc
  handled-IsRefused A postgres_error h = cc
  handled-IsRefused A interface_error h = cc
  handled-IsRefused A (value_error a) h = cc
  handled-IsRefused A unicode_error h = cc
  handled-IsRefused A (validation_error a) h = cc
  handled-IsRefused A (snapshot_load_error a) h = cc
  handled-IsRefused A configuration_error h = cc
  handled-IsRefused A cache_invalidation_error h = cc
  handled-IsRefused A attribute_error h = cc
  handled-IsRefused A (unexpected a) h = cc
  handled-IsRefused A cancelled h = cc
  handled-IsRefused A request_validation_error h = cc

  passed_on :
      {A : Type 0} (reply : Outcome (Reply A)) (e : Exc)
      → is_exception e ≡ false
      → IsRefused reply e
  unfolding IsRefused
  passed_on reply e h = inr h

  -- A request that is not let in reaches neither a session, nor the cache, nor the body of any
  -- route: nothing is done after the refusal, and the client gets a response 401, 403 or 503.
  pub route-IsRefused :
      {A P : Type 0} (api_key : Option Text) (params : Option P)
      (body : P → ItemRepository W → ItemCache W → Exec W A) (w : W) (e : Exc)
      → (access api_key w).0 ≡ raised e
      → ((route started repository_of api_key params body w).1 ≡ (access api_key w).1)
        × IsRefused (route started repository_of api_key params body w).0 e
  unfolding route
  route-IsRefused api_key params body w e h = rw h (
    refl,
    elim (authorize-IsRefusal verify_api_key timeout_ms api_access api_key w e h) [
      | inl refusal ↦ handled-IsRefused _ e refusal
      | inr passed ↦ passed_on _ e passed
    ],
  )

  -- A 200 of the item route, from the world `w` to the world `v`: a principal with the scope, a
  -- session opened after that, the answer of the service over this session and the cache, and the
  -- session closed at last.
  pub record IsServed (logger : Logger W) (name_of : Exc → Text) (api_key : Option Text)
      (item_id : Option ℤ) (w : W) (value : ItemResponse) (v : W) : Type 0 where
    pub principal : ApiPrincipal
    pub granted : IsGranted verify_api_key timeout_ms api_access api_key w principal
    pub id : ℤ
    pub given : item_id ≡ some id
    pub session : S
    pub entered : (factory.enter (access api_key w).1).0 ≡ ok session
    pub served :
        (get_by_game_id logger name_of
          (repository_of session)
          cache
          id
          (factory.enter (access api_key w).1).1).0
        ≡ ok value
    pub closed :
        v
        ≡ (factory.close session
            (get_by_game_id logger name_of
              (repository_of session)
              cache
              id
              (factory.enter (access api_key w).1).1).1).1

  -- What a route did that answered: it was let in, opened a session, answered, and closed it.
  route-answered :
      {A P : Type 0} (api_key : Option Text) (params : Option P)
      (body : P → ItemRepository W → ItemCache W → Exec W A) (w : W) (a : A)
      → (route started repository_of api_key params body w).0 ≡ ok (answered a)
      → (p : ApiPrincipal) × ((access api_key w).0 ≡ ok p)
        × (session : S) × ((factory.enter (access api_key w).1).0 ≡ ok session)
        × (((lift (checked params) >>= λ given. body given (repository_of session) cache)
              (factory.enter (access api_key w).1).1).0
            ≡ ok a)
        × ((route started repository_of api_key params body w).1
            ≡ (factory.close session
                ((lift (checked params) >>= λ given. body given (repository_of session) cache)
                  (factory.enter (access api_key w).1).1).1).1)
  unfolding route with_service with_session get_item_cache
  route-answered api_key params body w a h =
      let asks : ItemRepository W → ItemCache W → Exec W _ =
        λ repository cache. lift (checked params) >>= λ given. body given repository cache in
      let served = with_service started repository_of asks in
      let (p, allowed, rest) =
        >>=-eq-ok (access api_key) (λ _. served) w (reply_of-answered _ a h) in
      let w1 = (access api_key w).1 in
      let using : S → Exec W _ =
        λ session. try_finally (asks (repository_of session) cache) (factory.close session) in
      let (session, entered, used) = >>=-eq-ok factory.enter using w1 rest in
      let w2 = (factory.enter w1).1 in
      let ended =
        >>=-step (access api_key) (λ _. served) w (λ i. (allowed i, w1))
        ∙ >>=-step factory.enter using w1 (λ i. (entered i, w2)) in
      (
        p,
        allowed,
        session,
        entered,
        try_finally-eq-ok (asks (repository_of session) cache) (factory.close session) w2 a used,
        ap (λ r. r.1) ended
            ∙ try_finally-end (asks (repository_of session) cache) (factory.close session) w2,
      )

  -- If the item route answers with a value, then the request gave a key that Clerk verifies, of a
  -- principal with the scope api:access, and the path was an int; after that a session was opened,
  -- `get_by_game_id` returned the value over this session and the cache, and the session was closed.
  pub get_item_route-IsServed :
      (logger : Logger W) (name_of : Exc → Text) (api_key : Option Text) (item_id : Option ℤ)
      (w : W) (value : ItemResponse)
      → (get_item_route started repository_of logger name_of api_key item_id w).0
        ≡ ok (answered value)
      → IsServed logger name_of api_key item_id w value
          (get_item_route started repository_of logger name_of api_key item_id w).1
  unfolding get_item_route
  get_item_route-IsServed logger name_of api_key none w value h =
      let (p, allowed, session, entered, never, ended) = route-answered api_key none _ w value h in
      cc
  get_item_route-IsServed logger name_of api_key (some id) w value h =
      let (p, allowed, session, entered, served, ended) =
        route-answered api_key (some id) _ w value h in
      record {
        principal = p;
        granted =
            (authorize-IsGranted_iff verify_api_key timeout_ms api_access api_key w p).0 allowed;
        id = id;
        given = refl;
        session = session;
        entered = entered;
        served = served;
        closed = ended;
      }
