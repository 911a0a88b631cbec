-- ===== src/Core/Config/RedisUrl/Accepted.antt =====
-- What a REDIS_URL that passes validation satisfies.
use platinum_gold_backend.Prelude.{
  ℕ, ◌≤◌, Text, codes, true, false, ltb, leb, text_eq, text_eq-eq, any, isdigit, length, Option,
  none, some, [], ◌∷◌, is_some_eq, ◌≡◌, refl, ap, arith, Bool-cases, ◌⊎◌, inl, inr, or_false,
  false_of_not,
}
use platinum_gold_backend.Prelude.Decimal.{read}
use platinum_gold_backend.Value.{Value, str}
use platinum_gold_backend.Core.Platform.{SplitUrl, Platform}
use platinum_gold_backend.Core.Config.{max_redis_database, is_unsafe}
use platinum_gold_backend.Core.Config.Ports.{IsPort, port_refused-IsPort, kept_value}
use platinum_gold_backend.Core.Config.RedisUrl.{
  remove_slash, int_of, number_refused, path_refused, is_redis_scheme, netloc_refused,
  redis_url_refused, checked_port, checked_url, validate_redis_url,
}

-- The path names no database, or one of 0 to 15.
abbrev pub IsDatabasePath : Text → Type 0
IsDatabasePath path =
    (path ≡ [])
    ⊎ ((path ≡ codes "/")
        ⊎ ((isdigit (remove_slash path) ≡ true)
            × (read 0 (remove_slash path) ≤ max_redis_database)))

number_bound : (s : Text) → number_refused (int_of s) ≡ false → read 0 s ≤ max_redis_database
number_bound s h = elim (Bool-cases (leb (length s) 4300)) [
  | inl short ↦ small (read 0 s) (rw short at h)
  | inr long ↦ absurd (ground arith)
]
  where
    small : (n : ℕ) → ltb 15 n ≡ false → n ≤ 15
    small n e = ground arith

path_refused-IsDatabasePath : (path : Text) → path_refused path ≡ false → IsDatabasePath path
path_refused-IsDatabasePath [] h = inl refl
path_refused-IsDatabasePath (c ∷ s) h = elim (Bool-cases (text_eq (c ∷ s) (codes "/"))) [
  | inl root ↦ inr (inl (text_eq-eq _ _ root))
  | inr other ↦
      let (_ascii, h1) = or_false _ _ (rw other at h) in
      let (digits, number) = or_false _ _ h1 in
      inr (inr (false_of_not _ digits, number_bound (remove_slash (c ∷ s)) number))
]

module _ (platform : Platform) where
  open platform use {urlsplit}

  pub record IsRedisUrl (value : Text) : Type 0 where
    pub parsed : SplitUrl
    pub port : Option ℕ
    pub hostname : Text
    pub split : urlsplit value ≡ some parsed
    pub port_read : parsed.port ≡ some port
    pub scheme : (parsed.scheme ≡ codes "redis") ⊎ (parsed.scheme ≡ codes "rediss")
    pub host : parsed.hostname ≡ some hostname
    pub safe : any (is_unsafe platform) value ≡ false
    pub port_bounds : IsPort port
    pub database : IsDatabasePath parsed.path

  scheme_of :
      (scheme : Text)
      → is_redis_scheme scheme ≡ true
      → (scheme ≡ codes "redis") ⊎ (scheme ≡ codes "rediss")
  scheme_of scheme h = elim (Bool-cases (text_eq scheme (codes "redis"))) [
    | inl e ↦ inl (text_eq-eq _ _ e)
    | inr e ↦ inr (text_eq-eq _ _ (ground arith))
  ]

  facts :
      (value : Text) (parsed : SplitUrl) (port : Option ℕ)
      → urlsplit value ≡ some parsed
      → parsed.port ≡ some port
      → redis_url_refused platform value parsed port ≡ false
      → IsRedisUrl value
  unfolding redis_url_refused
  facts value parsed port es ep h =
      let (scheme_fine, h1) = or_false _ _ h in
      let (host_fine, h2) = or_false _ _ h1 in
      let (parts_fine, h3) = or_false _ _ h2 in
      let (_netloc, h4) = or_false (netloc_refused platform parsed) _ h3 in
      let (port_fine, path_fine) = or_false _ _ h4 in
      let (hostname, host) = is_some_eq parsed.hostname (false_of_not _ host_fine) in
      record {
        parsed = parsed;
        port = port;
        hostname = hostname;
        split = es;
        port_read = ep;
        scheme = scheme_of _ (false_of_not _ scheme_fine);
        host = host;
        safe = (or_false _ _ parts_fine).0;
        port_bounds = port_refused-IsPort port port_fine;
        database = path_refused-IsDatabasePath parsed.path path_fine;
      }

  checked_port-facts :
      (value u : Text) (parsed : SplitUrl) (o : Option (Option ℕ))
      → urlsplit value ≡ some parsed
      → parsed.port ≡ o
      → checked_port platform value parsed o ≡ some u
      → (value ≡ u) × IsRedisUrl value
  checked_port-facts value u parsed none es ep h = absurd (ground arith)
  checked_port-facts value u parsed (some port) es ep h =
      let (fine, same) = kept_value _ value u h in (same, facts value parsed port es ep fine)

  checked_url-facts :
      (value u : Text) (o : Option SplitUrl)
      → urlsplit value ≡ o
      → checked_url platform value o ≡ some u
      → (value ≡ u) × IsRedisUrl value
  checked_url-facts value u none e h = absurd (ground arith)
  checked_url-facts value u (some parsed) e h =
      checked_port-facts value u parsed parsed.port e refl h

  -- A REDIS_URL that passes validation is returned as it is. It has the scheme redis or rediss, a
  -- host, no control or space character, a port in range if it gives one, and a database of 0 to
  -- 15 if it names one.
  pub validate_redis_url-IsRedisUrl :
      (v : Value) (u : Text) → validate_redis_url platform v ≡ some u → (v ≡ str u) × IsRedisUrl u
  unfolding validate_redis_url
  validate_redis_url-IsRedisUrl (str value) u h =
      let (same, url) = checked_url-facts value u (urlsplit value) refl h in
      (ap str same, rw same at url)
  validate_redis_url-IsRedisUrl v u h = absurd (ground arith)
