-- ===== src/Core/Config/DatabaseUrl/Accepted.antt =====
-- What a DATABASE_URL that passes validation satisfies.
use platinum_gold_backend.Prelude.{
  ℕ, Text, codes, Bool, true, false, ltb, ◌&&◌, not, text_eq, text_eq-eq, text_eq_of_eq, any,
  has_char, is_some, is_empty, All, Option, none, some, List, [], ◌∷◌, ◌≡◌, ◌≢◌, refl, sym, ap, ◌∙◌,
  arith, Bool-cases, ◌⊎◌, inl, inr, or_false, false_of_not,
}
use platinum_gold_backend.Value.{Value, str}
use platinum_gold_backend.Core.Platform.{SplitUrl, Platform}
use platinum_gold_backend.Core.Config.{is_blank, count, is_unsafe}
use platinum_gold_backend.Core.Config.Ports.{IsPort, port_refused-IsPort, kept_value}
use platinum_gold_backend.Core.Config.DatabaseUrl.{
  Query, cache_sizes_ok, values_of, has_key, is_unix_socket, is_allowed_key, rest_refused,
  netloc_refused, path_refused, database_url_refused, checked_query, checked_port, checked_url,
  validate_database_url,
}
use platinum_gold_backend.Core.Config.DatabaseUrl.CacheSize.{
  is_small_numeral, cache_size_ok-is_small_numeral,
}

module _ (platform : Platform) where
  open platform use {urlsplit, parse_qs}

  -- A key of the query, given that the URL is one of a Unix socket or not.
  abbrev pub IsAllowedKey : Bool → Text → Type 0
  IsAllowedKey unix_socket key =
      (key ≡ codes "prepared_statement_cache_size") ⊎ ((unix_socket ≡ true) × (key ≡ codes "host"))

  pub record IsDatabaseUrl (value : Text) : Type 0 where
    pub parsed : SplitUrl
    pub port : Option ℕ
    pub query : Query
    pub split : urlsplit value ≡ some parsed
    pub port_read : parsed.port ≡ some port
    pub query_read : parse_qs parsed.query ≡ some query
    pub scheme : parsed.scheme ≡ codes "postgresql+asyncpg"
    pub safe : any (is_unsafe platform) value ≡ false
    pub target : (is_some parsed.hostname ≡ true) ⊎ (is_unix_socket platform parsed query ≡ true)
    pub no_second_host :
        (has_key platform (codes "host") query ≡ false)
        ⊎ (is_unix_socket platform parsed query ≡ true)
    pub one_host : has_char b',' parsed.netloc ≡ false
    pub port_bounds : IsPort port
    pub database : (parsed.path ≢ []) × (parsed.path ≢ codes "/")
    pub keys : All (λ entry. IsAllowedKey (is_unix_socket platform parsed query) entry.0) query
    pub cache_size :
        (has_key platform (codes "prepared_statement_cache_size") query ≡ false)
        ⊎ ((size : Text) × (values_of platform (codes "prepared_statement_cache_size") query
              ≡ size ∷ [])
            × (is_small_numeral size ≡ true))

  allowed_key :
      (unix_socket : Bool) (key : Text)
      → is_allowed_key platform unix_socket key ≡ true
      → IsAllowedKey unix_socket key
  allowed_key unix_socket key h =
      elim (Bool-cases (text_eq key (codes "prepared_statement_cache_size"))) [
        | inl e ↦ inl (text_eq-eq _ _ e)
        | inr e ↦ inr (ground arith, text_eq-eq _ _ (ground arith))
      ]

  allowed_keys :
      (unix_socket : Bool) (query : Query)
      → any (λ (entry : Text × List Text). not (is_allowed_key platform unix_socket entry.0)) query
        ≡ false
      → All (λ entry. IsAllowedKey unix_socket entry.0) query
  allowed_keys unix_socket [] h = tt
  allowed_keys unix_socket ((key, values) ∷ rest) h =
      let (here, later) = or_false _ _ h in
      (allowed_key unix_socket key (false_of_not _ here), allowed_keys unix_socket rest later)

  one_cache_size :
      (sizes : List Text)
      → cache_sizes_ok sizes ≡ true
      → (size : Text) × (sizes ≡ size ∷ []) × (is_small_numeral size ≡ true)
  one_cache_size [] h = absurd (ground arith)
  one_cache_size (size ∷ []) h = (size, refl, sym (cache_size_ok-is_small_numeral size) ∙ h)
  one_cache_size (size ∷ other ∷ rest) h = absurd (ground arith)

  cache_size_of :
      (query : Query)
      → (has_key platform (codes "prepared_statement_cache_size") query
          && not
              (cache_sizes_ok (values_of platform (codes "prepared_statement_cache_size") query)))
        ≡ false
      → (has_key platform (codes "prepared_statement_cache_size") query ≡ false)
        ⊎ ((size : Text) × (values_of platform (codes "prepared_statement_cache_size") query
              ≡ size ∷ [])
            × (is_small_numeral size ≡ true))
  cache_size_of query h =
      elim (Bool-cases (has_key platform (codes "prepared_statement_cache_size") query)) [
        | inr absent ↦ inl absent
        | inl present ↦ inr (one_cache_size _ (false_of_not _ (rw present at h)))
      ]

  either_host : (a b : Bool) → (not a && not b) ≡ false → (a ≡ true) ⊎ (b ≡ true)
  either_host true b h = inl refl
  either_host false true h = inr refl
  either_host false false h = absurd (ground arith)

  no_host_unless : (a b : Bool) → (a && not b) ≡ false → (a ≡ false) ⊎ (b ≡ true)
  no_host_unless false b h = inl refl
  no_host_unless true true h = inr refl
  no_host_unless true false h = absurd (ground arith)

  one_netloc :
      (parsed : SplitUrl) (query : Query)
      → netloc_refused platform parsed query ≡ false
      → has_char b',' parsed.netloc ≡ false
  one_netloc parsed query h =
      let (_user, h1) = or_false (is_blank parsed.username) _ h in
      let (_password, h2) = or_false (is_blank parsed.password) _ h1 in
      let (_one_at, h3) = or_false (ltb 1 (count b'@' parsed.netloc)) _ h2 in
      (or_false (has_char b',' parsed.netloc) (rest_refused platform parsed query) h3).0

  database_of :
      (parsed : SplitUrl)
      → path_refused platform parsed ≡ false
      → (parsed.path ≢ []) × (parsed.path ≢ codes "/")
  database_of parsed h =
      let (full, named) = or_false (is_empty parsed.path) _ h in
      (λ e. absurd (ground arith), λ e. true-ne-false (text_eq_of_eq _ _ e) named)
    where
      true-ne-false : {b : Bool} → b ≡ true → b ≡ false → ⊥
      true-ne-false x y = cc

  facts :
      (value : Text) (parsed : SplitUrl) (port : Option ℕ) (query : Query)
      → urlsplit value ≡ some parsed
      → parsed.port ≡ some port
      → parse_qs parsed.query ≡ some query
      → database_url_refused platform value parsed port query ≡ false
      → IsDatabaseUrl value
  unfolding database_url_refused
  facts value parsed port query es ep eq h =
      let (text_fine, h1) = or_false _ _ h in
      let (host_fine, h2) = or_false _ _ h1 in
      let (netloc_fine, h3) = or_false _ _ h2 in
      let (port_fine, h4) = or_false _ _ h3 in
      let (path_fine, query_fine) = or_false _ _ h4 in
      let (is_scheme, text_rest) = or_false _ _ text_fine in
      record {
        parsed = parsed;
        port = port;
        query = query;
        split = es;
        port_read = ep;
        query_read = eq;
        scheme = text_eq-eq _ _ (false_of_not _ is_scheme);
        safe = (or_false _ _ text_rest).0;
        target = either_host _ _ (or_false _ _ host_fine).0;
        no_second_host = no_host_unless _ _ (or_false _ _ host_fine).1;
        one_host = one_netloc parsed query netloc_fine;
        port_bounds = port_refused-IsPort port port_fine;
        database = database_of parsed path_fine;
        keys = allowed_keys _ query (or_false _ _ query_fine).0;
        cache_size = cache_size_of query (or_false _ _ query_fine).1;
      }

  checked_query-facts :
      (value u : Text) (parsed : SplitUrl) (port : Option ℕ) (o : Option Query)
      → urlsplit value ≡ some parsed
      → parsed.port ≡ some port
      → parse_qs parsed.query ≡ o
      → checked_query platform value parsed port o ≡ some u
      → (value ≡ u) × IsDatabaseUrl value
  checked_query-facts value u parsed port none es ep eq h = absurd (ground arith)
  checked_query-facts value u parsed port (some query) es ep eq h =
      let (fine, same) = kept_value _ value u h in
      (same, facts value parsed port query es ep eq fine)

  checked_port-facts :
      (value u : Text) (parsed : SplitUrl) (o : Option (Option ℕ))
      → urlsplit value ≡ some parsed
      → parsed.port ≡ o
      → checked_port platform value parsed o ≡ some u
      → (value ≡ u) × IsDatabaseUrl value
  checked_port-facts value u parsed none es ep h = absurd (ground arith)
  checked_port-facts value u parsed (some port) es ep h =
      checked_query-facts value u parsed port (parse_qs parsed.query) es ep refl h

  checked_url-facts :
      (value u : Text) (o : Option SplitUrl)
      → urlsplit value ≡ o
      → checked_url platform value o ≡ some u
      → (value ≡ u) × IsDatabaseUrl value
  checked_url-facts value u none e h = absurd (ground arith)
  checked_url-facts value u (some parsed) e h =
      checked_port-facts value u parsed parsed.port e refl h

  -- A DATABASE_URL that passes validation is returned as it is. It has the scheme of asyncpg, one
  -- target, a host or a Unix socket, a port in range if it gives one, a database, and at most the
  -- two allowed options, of which the cache size is one numeral that is at most 1000.
  pub validate_database_url-IsDatabaseUrl :
      (v : Value) (u : Text)
      → validate_database_url platform v ≡ some u
      → (v ≡ str u) × IsDatabaseUrl u
  unfolding validate_database_url
  validate_database_url-IsDatabaseUrl (str value) u h =
      let (same, url) = checked_url-facts value u (urlsplit value) refl h in
      (ap str same, rw same at url)
  validate_database_url-IsDatabaseUrl v u h = absurd (ground arith)
