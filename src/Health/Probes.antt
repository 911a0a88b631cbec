-- ===== src/Health/Probes.antt =====
-- What the answer of the readiness route says of the two services.
use platinum_gold_backend.Prelude.{
  ◌||◌, Bool-cases, codes, sym, ℤ, Bool, true, false, ◌≡◌, ◌⊎◌, inl, inr, refl, ap, subst, ◌∙◌,
}
use platinum_gold_backend.Errors.{
  is_os_error, is_sqlalchemy_error, is_redis_error, Exc, Outcome, ok, raised,
}
use platinum_gold_backend.Exec.{
  ◌>>=◌, try_except, Exec, pure, raise, ◌>>◌, >>=-eq-ok, Outcome-cases, try_except-cases,
}
use platinum_gold_backend.Exec.Returns.{ok-injective}
use platinum_gold_backend.Health.{
  log_failure, Probing, State, up, down, state_of, ServiceStates, HealthAnswer, healthy, ready,
  unavailable, answer_of, is_database_failure, is_redis_failure, is_any, probe_database,
  database_is_ready, redis_is_ready, gathered, result_of, run, readiness,
}

-- `Within w v` says that `v` is a world that occurs while what was started in `w` runs.
-- `asyncio.gather` runs its two tasks, returns what they returned, or raises what one of them raised;
-- where it collects the exceptions, it returns. `asyncio.timeout` runs its body and lets a result
-- pass.
pub record Asyncio {W C : Type 0} (probing : Probing W C) : Type 1 where
  pub Within : W → W → Type 0
  pub within_trans : (w v u : W) → Within w v → Within v u → Within w u
  pub gather-ok :
      (m n : Exec W Bool) (w : W) (a b : Bool)
      → (probing.gather m n w).0 ≡ ok (a, b)
      → ((v : W) × Within w v × ((m v).0 ≡ ok a)) × ((v : W) × Within w v × ((n v).0 ≡ ok b))
  pub gather-raised :
      (m n : Exec W Bool) (w : W) (e : Exc)
      → (probing.gather m n w).0 ≡ raised e
      → ((v : W) × Within w v × ((m v).0 ≡ raised e))
        ⊎ ((v : W) × Within w v × ((n v).0 ≡ raised e))
  pub cancel_all-ok : (w : W) → (probing.cancel_all w).0 ≡ ok tt
  pub timeout-ok :
      {A : Type 0} (seconds : ℤ) (m : Exec W A) (w : W) (a : A)
      → (probing.timeout seconds m w).0 ≡ ok a
      → (v : W) × Within w v × ((m v).0 ≡ ok a)

pub raised-injective : {A : Type 0} {x e : Exc} → ◌≡◌ {A = Outcome A} (raised x) (raised e) → x ≡ e
raised-injective h = cc

-- A last part that only returns does not raise.
pub bind-raised :
    {W A B : Type 0} (m : Exec W A) (f : A → B) (w : W) (e : Exc)
    → ((m >>= λ a. pure (f a)) w).0 ≡ raised e
    → (m w).0 ≡ raised e
bind-raised m f w e h = elim (Outcome-cases (m w).0) [
  | inl (a, q) ↦ let never = (rw q at h) in cc
  | inr (x, q) ↦ q ∙ ap raised (raised-injective (rw q at h))
]

-- A handler that returns lets only pass what its clause does not name.
handled-raised :
    {W A : Type 0} (m : Exec W A) (test : Exc → Bool) (handler : Exc → Exec W A) (w : W) (e : Exc)
    → ((x : Exc) (v : W) → (a : A) × ((handler x v).0 ≡ ok a))
    → (try_except m test handler w).0 ≡ raised e
    → ((m w).0 ≡ raised e) × (test e ≡ false)
handled-raised m test handler w e returns h = elim (Outcome-cases (m w).0) [
  | inl (a, q) ↦ let never = (rw q at h) in cc
  | inr (x, q) ↦ elim (Bool-cases (test x)) [
    | inl caught ↦ let (a, answered) = returns x (m w).1 in let never = (rw (q, caught) at h) in cc
    | inr passed ↦
        let same = raised-injective (rw (q, passed) at h) in
        (q ∙ ap raised same, ap test (sym same) ∙ passed)
  ]
]

module _ {W C : Type 0} (probing : Probing W C) (laws : Asyncio probing) (seconds : ℤ) where
  open laws use {Within}

  -- What the probe of the database has shown since the world `w`.
  pub DatabaseIs : W → State → Type 0
  DatabaseIs w up = (v : W) × Within w v × ((probe_database probing seconds v).0 ≡ ok tt)
  DatabaseIs w down =
      (v : W) × (e : Exc) × Within w v
      × ((probing.timeout seconds (probe_database probing seconds) v).0 ≡ raised e)
      × ((is_os_error e || is_sqlalchemy_error e) ≡ true)

  pub RedisIs : W → State → Type 0
  RedisIs w up = (v : W) × Within w v × ((probing.ping v).0 ≡ ok true)
  RedisIs w down =
      ((v : W) × Within w v × ((probing.ping v).0 ≡ ok false))
      ⊎ ((v : W) × (e : Exc) × Within w v
          × ((probing.timeout seconds probing.ping v).0 ≡ raised e)
          × ((is_os_error e || is_redis_error e) ≡ true))

  -- An exception of a probe that is neither an OSError, TimeoutError among them, nor an error of the
  -- client library of the service.
  pub Escapes : W → Exc → Type 0
  Escapes w e =
      ((v : W) × Within w v
        × ((probing.timeout seconds (probe_database probing seconds) v).0 ≡ raised e)
        × ((is_os_error e || is_sqlalchemy_error e) ≡ false))
      ⊎ ((v : W) × Within w v
          × ((probing.timeout seconds probing.ping v).0 ≡ raised e)
          × ((is_os_error e || is_redis_error e) ≡ false))

  abbrev all_up : ServiceStates
  all_up = record { database = up; redis = up }

  pub IsReport : W → HealthAnswer → Type 0
  IsReport w healthy = ⊥
  IsReport w (ready states) = (states ≡ all_up) × DatabaseIs w up × RedisIs w up
  IsReport w (unavailable status detail states) =
      (status ≡ 503)
      × ((states.database ≡ down) ⊎ (states.redis ≡ down))
      × DatabaseIs w states.database
      × RedisIs w states.redis

  pub IsOutcome : W → Outcome HealthAnswer → Type 0
  IsOutcome w (ok answer) = IsReport w answer
  IsOutcome w (raised e) = Escapes w e

  database_is_ready-DatabaseIs :
      (w v : W) (b : Bool)
      → Within w v
      → (database_is_ready probing seconds v).0 ≡ ok b
      → DatabaseIs w (state_of b)
  unfolding database_is_ready DatabaseIs
  database_is_ready-DatabaseIs w v b since h =
      let timed = probing.timeout seconds (probe_database probing seconds) in
      elim (try_except-cases (timed >> pure true) is_database_failure _ v b h) [
        | inl returned ↦
            let (_, timed_ok, true_ok) = >>=-eq-ok timed (λ _. pure true) v returned in
            let (u, later, probed) =
              laws.timeout-ok seconds (probe_database probing seconds) v tt timed_ok in
            subst (λ d. DatabaseIs w (state_of d)) (ok-injective true_ok)
              (u, laws.within_trans w v u since later, probed)
        | inr (e, raises, named, logged) ↦
            subst (λ d. DatabaseIs w (state_of d)) (ok-injective logged)
              (v, e, since, bind-raised timed (λ _. true) v e raises, named)
      ]

  answered-RedisIs :
      (w v : W) (b : Bool) → Within w v → (probing.ping v).0 ≡ ok b → RedisIs w (state_of b)
  unfolding RedisIs
  answered-RedisIs w v true since h = (v, since, h)
  answered-RedisIs w v false since h = inl (v, since, h)

  redis_is_ready-RedisIs :
      (w v : W) (b : Bool)
      → Within w v
      → (redis_is_ready probing seconds v).0 ≡ ok b
      → RedisIs w (state_of b)
  unfolding redis_is_ready RedisIs
  redis_is_ready-RedisIs w v b since h =
      elim (try_except-cases (probing.timeout seconds probing.ping) is_redis_failure _ v b h) [
        | inl returned ↦
            let (u, later, answered) = laws.timeout-ok seconds probing.ping v b returned in
            answered-RedisIs w u b (laws.within_trans w v u since later) answered
        | inr (e, raises, named, logged) ↦
            subst (λ r. RedisIs w (state_of r)) (ok-injective logged)
              (inr (v, e, since, raises, named))
      ]

  answer_of-IsReport :
      (w : W) (d r : Bool)
      → DatabaseIs w (state_of d)
      → RedisIs w (state_of r)
      → IsReport w (answer_of (result_of (d, r)))
  unfolding answer_of IsReport
  answer_of-IsReport w true true hd hr = (refl, hd, hr)
  answer_of-IsReport w true false hd hr = (refl, inr refl, hd, hr)
  answer_of-IsReport w false r hd hr = (refl, inl refl, hd, hr)

  gathered-ok :
      (w : W) (both : Bool × Bool)
      → (gathered probing seconds w).0 ≡ ok both
      → (probing.gather (database_is_ready probing seconds) (redis_is_ready probing seconds) w).0
        ≡ ok both
  gathered-ok w both h =
      let gather =
        probing.gather (database_is_ready probing seconds) (redis_is_ready probing seconds) in
      let handler : Exc → Exec W (Bool × Bool) = λ e. probing.cancel_all >> raise e in
      elim (try_except-cases gather is_any handler w both h) [
        | inl returned ↦ returned
        | inr (e, _, _, raises) ↦
            let (_, _, never) = >>=-eq-ok probing.cancel_all (λ _. raise e) (gather w).1 raises in
            cc
      ]

  gathered-raised :
      (w : W) (e : Exc) → (gathered probing seconds w).0 ≡ raised e → IsOutcome w (raised e)
  unfolding IsOutcome Escapes database_is_ready redis_is_ready
  gathered-raised w e h =
      let database = database_is_ready probing seconds in
      let redis = redis_is_ready probing seconds in
      elim (Outcome-cases (probing.gather database redis w).0) [
        | inl (both, q) ↦ let never = (rw q at h) in cc
        | inr (x, q) ↦
            let same = raised-injective (rw (q, laws.cancel_all-ok) at h) in
            elim (laws.gather-raised database redis w e (q ∙ ap raised same)) [
              | inl (v, since, raises) ↦
                  let timed = probing.timeout seconds (probe_database probing seconds) in
                  let (raising, unnamed) =
                    handled-raised (timed >> pure true) is_database_failure
                      (log_failure probing seconds (codes "database")) v e (λ x v. (false, refl))
                      raises in
                  inl (v, since, bind-raised timed (λ _. true) v e raising, unnamed)
              | inr (v, since, raises) ↦
                  let (raising, unnamed) =
                    handled-raised (probing.timeout seconds probing.ping) is_redis_failure
                      (log_failure probing seconds (codes "redis")) v e (λ x v. (false, refl))
                      raises in
                  inr (v, since, raising, unnamed)
            ]
      ]

  answers :
      (w : W) (answer : HealthAnswer)
      → (readiness probing seconds w).0 ≡ ok answer
      → IsReport w answer
  unfolding readiness run
  answers w answer h =
      let (result, ran, answered) = >>=-eq-ok (run probing seconds) (λ r. pure (answer_of r)) w h in
      let (both, both_ok, made) =
        >>=-eq-ok (gathered probing seconds) (λ b. pure (result_of b)) w ran in
      let ((v, d_since, d), (u, r_since, r)) =
        laws.gather-ok (database_is_ready probing seconds) (redis_is_ready probing seconds) w both.0
          both.1 (gathered-ok w both both_ok) in
      subst (IsReport w) (ap answer_of (ok-injective made) ∙ ok-injective answered) (
        answer_of-IsReport w both.0 both.1 (database_is_ready-DatabaseIs w v both.0 d_since d)
          (redis_is_ready-RedisIs w u both.1 r_since r))

  raises : (w : W) (e : Exc) → (readiness probing seconds w).0 ≡ raised e → IsOutcome w (raised e)
  unfolding readiness run
  raises w e h = gathered-raised w e (
      bind-raised (gathered probing seconds) result_of w e
        (bind-raised (run probing seconds) answer_of w e h))

  -- The readiness route says "ready" only after both services answered their probes. Else it is 503
  -- and names as down a service whose probe of this request raised an OSError (TimeoutError is one)
  -- or an error of its client library, or was answered in the negative, and as up one that answered
  -- its probe of this request. It raises only what a probe of this request raised and is neither.
  pub readiness-IsOutcome : (w : W) → IsOutcome w (readiness probing seconds w).0
  unfolding IsOutcome
  readiness-IsOutcome w = elim (Outcome-cases (readiness probing seconds w).0) [
    | inl (answer, q) ↦ rw q (answers w answer q)
    | inr (e, q) ↦ rw q (raises w e q)
  ]
