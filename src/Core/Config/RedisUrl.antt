-- ===== src/Core/Config/RedisUrl.antt =====
-- app/core/config.py: `validate_redis_url` and `validate_production_redis`.
pub mod Accepted
use platinum_gold_backend.Prelude.{
  ℕ, Text, codes, Bool, true, false, ltb, leb, ◌&&◌, ◌||◌, not, ◌==◌, text_eq, any, isascii,
  isdigit, has_char, is_some, is_empty, length, Option, none, some, List, [], ◌∷◌, if◌then◌else◌,
}
use platinum_gold_backend.Prelude.Decimal.{read}
use platinum_gold_backend.Value.{Value, str}
use platinum_gold_backend.Core.Platform.{SplitUrl, Platform}
use platinum_gold_backend.Core.Config.{
  Environment, is_production, max_redis_database, or_empty, is_blank, count, ends_with_colon,
  is_delimiter, is_unsafe, port_refused, is_loopback_host,
}

-- `path.removeprefix("/")`
abbrev pub remove_slash : Text → Text
remove_slash [] = []
remove_slash (c ∷ s) = if c == b'/' then s else c ∷ s

-- `int(s)` of ASCII digits: Python refuses more than 4300 of them.
abbrev pub int_of : Text → Option ℕ
int_of s = if leb (length s) 4300 then some (read 0 s) else none

abbrev pub number_refused : Option ℕ → Bool
number_refused none = true
number_refused (some n) = ltb max_redis_database n

abbrev pub database_refused : Text → Bool
database_refused database =
    not (isascii database) || (not (isdigit database) || number_refused (int_of database))

abbrev pub path_refused : Text → Bool
path_refused path =
    not (is_empty path || text_eq path (codes "/")) && database_refused (remove_slash path)

abbrev pub is_redis_scheme : Text → Bool
is_redis_scheme scheme = text_eq scheme (codes "redis") || text_eq scheme (codes "rediss")

module _ (platform : Platform) where
  open platform use {urlsplit, unquote}

  abbrev pub decoded_hostname : SplitUrl → Text
  decoded_hostname parsed = unquote (or_empty parsed.hostname)

  -- `decoded_parts`: the host name is decoded twice.
  abbrev pub decoded_parts : SplitUrl → List Text
  decoded_parts parsed =
      unquote (decoded_hostname parsed)
      ∷ unquote (or_empty parsed.username)
      ∷ unquote (or_empty parsed.password)
      ∷ unquote parsed.path
      ∷ []

  abbrev pub parts_refused : Text → SplitUrl → Bool
  parts_refused value parsed =
      any (is_unsafe platform) value
      || (any (any (is_unsafe platform)) (decoded_parts parsed)
          || (has_char b'?' value
              || (has_char b'#' value
                  || (not (is_empty parsed.query) || not (is_empty parsed.fragment)))))

  abbrev pub netloc_refused : SplitUrl → Bool
  netloc_refused parsed =
      is_blank parsed.username
      || (is_blank parsed.password
          || (ltb 1 (count b'@' parsed.netloc)
              || (has_char b',' parsed.netloc
                  || (any is_delimiter (decoded_hostname parsed)
                      || ends_with_colon parsed.netloc))))

  unfoldable pub redis_url_refused : Text → SplitUrl → Option ℕ → Bool
  redis_url_refused value parsed port =
      not (is_redis_scheme parsed.scheme)
      || (not (is_some parsed.hostname)
          || (parts_refused value parsed
              || (netloc_refused parsed || (port_refused port || path_refused parsed.path))))

  abbrev pub checked_port : Text → SplitUrl → Option (Option ℕ) → Option Text
  checked_port value parsed none = none
  checked_port value parsed (some port) =
      if redis_url_refused value parsed port then none else some value

  abbrev pub checked_url : Text → Option SplitUrl → Option Text
  checked_url value none = none
  checked_url value (some parsed) = checked_port value parsed parsed.port

  -- `none` is the ValueError.
  unfoldable pub validate_redis_url : Value → Option Text
  validate_redis_url (str value) = checked_url value (urlsplit value)
  validate_redis_url _ = none

  module _ (is_loopback : Text → Bool) where
    abbrev pub remote_redis_ok : SplitUrl → Bool
    remote_redis_ok redis =
        is_loopback_host is_loopback redis.hostname
        || (text_eq redis.scheme (codes "rediss") && is_some redis.password)

    abbrev pub split_redis_ok : Option SplitUrl → Bool
    split_redis_ok none = false
    split_redis_ok (some redis) = remote_redis_ok redis

    -- false is a ValueError
    unfoldable pub validate_production_redis : Environment → Text → Bool
    validate_production_redis environment redis_url =
        not (is_production environment) || split_redis_ok (urlsplit redis_url)
