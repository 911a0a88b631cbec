-- ===== src/Health/Tests.antt =====
-- Probes of a database and a Redis that answer or fail, and the theorem there.
use platinum_gold_backend.Prelude.{◌⊎◌, inl, inr, pos, codes, Bool, ◌≡◌, refl, ap, ◌∙◌}
use platinum_gold_backend.Errors.{
  Exc, redis_error, is_os_error, is_redis_error, is_sqlalchemy_error, Outcome, ok, raised,
}
use platinum_gold_backend.Exec.{Outcome-cases, Exec, pure, lift, ◌>>=◌, >>=-eq-ok}
use platinum_gold_backend.Exec.Returns.{ok-injective}
use platinum_gold_backend.Health.{
  Probing, up, down, HealthAnswer, unavailable, service_unavailable_detail, answer_of,
  database_is_ready, redis_is_ready, run, readiness,
}
use platinum_gold_backend.Health.Probes.{
  Asyncio, readiness-IsOutcome, bind-raised, raised-injective, IsOutcome,
}

-- Nothing takes time, and the tasks run one after the other.
abbrev one_after_the_other : Exec Unit Bool → Exec Unit Bool → Exec Unit (Bool × Bool)
one_after_the_other m n = do a ← m; b ← n; pure (a, b)

abbrev probing : Outcome Bool → Probing Unit Unit
probing ping = record {
  connect = pure tt;
  leave_ok = λ c. pure tt;
  leave_error = λ e c. pure tt;
  select_1 = λ c. pure tt;
  ping = lift ping;
  logger = record { warning = λ entry w. w };
  name_of = λ e. codes "RedisError";
  timeout = λ seconds m. m;
  gather = one_after_the_other;
  cancel_all = pure tt;
}

-- A world within another is here the same, since there is one only.
Within : Unit {0} → Unit {0} → Type 0
Within w v = w ≡ v

both_returned :
    (m n : Exec Unit Bool) (w : Unit) (a b : Bool)
    → (one_after_the_other m n w).0 ≡ ok (a, b)
    → ((v : Unit) × Within w v × ((m v).0 ≡ ok a)) × ((v : Unit) × Within w v × ((n v).0 ≡ ok b))
unfolding Within
both_returned m n w a b h =
    let (c, first, h1) = >>=-eq-ok m (λ c. n >>= λ d. pure (c, d)) w h in
    let (d, second, h2) = >>=-eq-ok n (λ d. pure (c, d)) (m w).1 h1 in
    let same = ok-injective h2 in
    ((w, refl, first ∙ ap (λ p. ok p.0) same), ((m w).1, refl, second ∙ ap (λ p. ok p.1) same))

one_raised :
    (m n : Exec Unit Bool) (w : Unit) (e : Exc)
    → (one_after_the_other m n w).0 ≡ raised e
    → ((v : Unit) × Within w v × ((m v).0 ≡ raised e))
      ⊎ ((v : Unit) × Within w v × ((n v).0 ≡ raised e))
unfolding Within
one_raised m n w e h = elim (Outcome-cases (m w).0) [
  | inl (c, q) ↦ inr ((m w).1, refl, bind-raised n (λ d. (c, d)) (m w).1 e (rw q at h))
  | inr (x, q) ↦ inl (w, refl, q ∙ ap raised (raised-injective (rw q at h)))
]

asyncio : (ping : Outcome Bool) → Asyncio (probing ping)
unfolding Within
asyncio ping = record {
  Within = Within;
  within_trans = λ w v u a b. a ∙ b;
  gather-ok = both_returned;
  gather-raised = one_raised;
  cancel_all-ok = λ w. refl;
  timeout-ok = λ seconds m w a h. (w, refl, h);
}

abbrev redis_down : HealthAnswer
redis_down = unavailable 503 service_unavailable_detail (record { database = up; redis = down })

reports : (readiness (probing (raised redis_error)) (pos 2000000) tt).0 ≡ ok redis_down
unfolding readiness run database_is_ready redis_is_ready answer_of is_os_error is_redis_error
    is_sqlalchemy_error
reports = refl

readiness-IsOutcome_example :
    IsOutcome
      (probing (raised redis_error))
      (asyncio (raised redis_error))
      (pos 2000000)
      tt
      (readiness (probing (raised redis_error)) (pos 2000000) tt).0
readiness-IsOutcome_example =
    readiness-IsOutcome (probing (raised redis_error)) (asyncio (raised redis_error)) (pos 2000000)
      tt
