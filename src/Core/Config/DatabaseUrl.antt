-- ===== src/Core/Config/DatabaseUrl.antt =====
-- app/core/config.py: `validate_database_url`.
pub mod Accepted
pub mod CacheSize
use platinum_gold_backend.Prelude.{
  ℕ, ◌+◌, Text, codes, Bool, true, false, ltb, leb, ◌&&◌, ◌||◌, not, ◌==◌, text_eq, mem_text, any,
  all, isascii, isdigit, has_char, is_some, is_empty, length, Option, none, some, List, [], ◌∷◌,
  ◌++◌, if◌then◌else◌,
}
use platinum_gold_backend.Prelude.Decimal.{show}
use platinum_gold_backend.Value.{Value, str}
use platinum_gold_backend.Core.Platform.{SplitUrl, Platform}
use platinum_gold_backend.Core.Config.{
  max_prepared_statement_cache_size, or_empty, is_blank, count, ends_with_colon, ends_with_at,
  is_delimiter, is_unsafe, port_refused,
}

-- What `parse_qs` returns: a dict of lists, in the order of its keys.
abbrev pub Query : Type 0
Query = List (Text × List Text)

-- `value.lstrip("0")`
abbrev pub lstrip_zeros : Text → Text
lstrip_zeros [] = []
lstrip_zeros (c ∷ s) = let rest = lstrip_zeros s in if c == b'0' then rest else c ∷ s

-- `s or "0"`
abbrev pub or_zero : Text → Text
or_zero [] = codes "0"
or_zero (c ∷ s) = c ∷ s

-- `s <= t` of strings: by their first different character
abbrev pub text_leb : Text → Text → Bool
text_leb [] t = true
text_leb (c ∷ s) [] = false
text_leb (c ∷ s) (d ∷ t) = ltb c d || ((c == d) && text_leb s t)

-- `maximum_cache_value`
abbrev pub maximum_cache_value : Text
maximum_cache_value = codes "1000"

-- `prepared_cache_size_valid`, of the one value
unfoldable pub cache_size_ok : Text → Bool
cache_size_ok value =
    let normalized = or_zero (lstrip_zeros value) in
    leb (length value) (length maximum_cache_value)
    && (isascii value
        && (isdigit value
            && (ltb (length normalized) (length maximum_cache_value)
                || ((length normalized == length maximum_cache_value)
                    && text_leb normalized maximum_cache_value))))

abbrev pub cache_sizes_ok : List Text → Bool
cache_sizes_ok (value ∷ []) = cache_size_ok value
cache_sizes_ok _ = false

module _ (platform : Platform) where
  open platform use {lower, urlsplit, unquote, parse_qs}

  -- `normalized_query_values.get(name, [])`: the values of all keys that are `name` in lower case
  abbrev pub values_of : Text → Query → List Text
  values_of name [] = []
  values_of name ((key, values) ∷ rest) =
      let others = values_of name rest in
      if text_eq (lower key) name then values ++ others else others

  -- `name in query_keys`
  abbrev pub has_key : Text → Query → Bool
  has_key name query = any (λ (entry : Text × List Text). text_eq (lower entry.0) name) query

  abbrev pub one_socket : List Text → Bool
  one_socket ((c ∷ host) ∷ []) = (c == b'/') && not (has_char b',' (c ∷ host))
  one_socket _ = false

  -- `host_keys == {"host"}`, where there are any
  abbrev pub only_host : Query → Bool
  only_host query =
      all
        (λ (entry : Text × List Text).
          not (text_eq (lower entry.0) (codes "host")) || text_eq entry.0 (codes "host"))
        query

  unfoldable pub is_unix_socket : SplitUrl → Query → Bool
  is_unix_socket parsed query =
      not (is_some parsed.hostname)
      && ((is_empty parsed.netloc || ends_with_at parsed.netloc)
          && (not (has_key (codes "host") query)
              || (only_host query && one_socket (values_of (codes "host") query))))

  abbrev pub decoded_hostname : Option Text → Text
  decoded_hostname none = []
  decoded_hostname (some hostname) = unquote hostname

  -- DATABASE_QUERY_OPTIONS | ({"host"} if unix_socket else set())
  abbrev pub is_allowed_key : Bool → Text → Bool
  is_allowed_key unix_socket key =
      text_eq key (codes "prepared_statement_cache_size")
      || (unix_socket && text_eq key (codes "host"))

  -- The conditions of the big `if`, in the source's order, in groups.
  abbrev pub text_refused : Text → SplitUrl → Bool
  text_refused value parsed =
      not (text_eq parsed.scheme (codes "postgresql+asyncpg"))
      || (any (is_unsafe platform) value || (not (is_empty parsed.fragment) || has_char b'#' value))

  abbrev pub host_refused : SplitUrl → Query → Bool
  host_refused parsed query =
      (not (is_some parsed.hostname) && not (is_unix_socket parsed query))
      || (has_key (codes "host") query && not (is_unix_socket parsed query))

  abbrev pub rest_refused : SplitUrl → Query → Bool
  rest_refused parsed query =
      any (λ c. is_unsafe platform c || is_delimiter c) (decoded_hostname parsed.hostname)
      || (any (any (is_unsafe platform)) (values_of (codes "host") query)
          || ends_with_colon parsed.netloc)

  abbrev pub netloc_refused : SplitUrl → Query → Bool
  netloc_refused parsed query =
      is_blank parsed.username
      || (is_blank parsed.password
          || (ltb 1 (count b'@' parsed.netloc)
              || (has_char b',' parsed.netloc || rest_refused parsed query)))

  abbrev pub query_refused : SplitUrl → Query → Bool
  query_refused parsed query =
      any (λ (entry : Text × List Text). not (is_allowed_key (is_unix_socket parsed query) entry.0))
        query
      || (has_key (codes "prepared_statement_cache_size") query
          && not (cache_sizes_ok (values_of (codes "prepared_statement_cache_size") query)))

  abbrev pub path_refused : SplitUrl → Bool
  path_refused parsed = is_empty parsed.path || text_eq parsed.path (codes "/")

  unfoldable pub database_url_refused : Text → SplitUrl → Option ℕ → Query → Bool
  database_url_refused value parsed port query =
      text_refused value parsed
      || (host_refused parsed query
          || (netloc_refused parsed query
              || (port_refused port || (path_refused parsed || query_refused parsed query))))

  abbrev pub checked_query : Text → SplitUrl → Option ℕ → Option Query → Option Text
  checked_query value parsed port none = none
  checked_query value parsed port (some query) =
      if database_url_refused value parsed port query then none else some value

  abbrev pub checked_port : Text → SplitUrl → Option (Option ℕ) → Option Text
  checked_port value parsed none = none
  checked_port value parsed (some port) = checked_query value parsed port (parse_qs parsed.query)

  abbrev pub checked_url : Text → Option SplitUrl → Option Text
  checked_url value none = none
  checked_url value (some parsed) = checked_port value parsed parsed.port

  -- `none` is the ValueError.
  unfoldable pub validate_database_url : Value → Option Text
  validate_database_url (str value) = checked_url value (urlsplit value)
  validate_database_url _ = none
