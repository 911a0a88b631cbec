-- ===== src/Core/Logging/Middleware/Paths.antt =====
-- No API key is logged with the path of a request.
use platinum_gold_backend.Prelude.{Text, codes, false, some, ◌≡◌}
use platinum_gold_backend.Exec.{Exec}
use platinum_gold_backend.Core.Log.{LogRecord, text}
use platinum_gold_backend.Core.Logging.{attribute}
use platinum_gold_backend.Core.Logging.Redaction.{has_api_key}
use platinum_gold_backend.Core.Logging.Middleware.{Runtime}

module _ {W : Type 0} (runtime : Runtime W) where
  -- The world `v` is left by logging an entry of a completed request, in whose path the pattern of an
  -- API key is found nowhere.
  pub record IsRedacted (v : W) : Type 0 where
    pub before : W
    pub entry : LogRecord
    pub path : Text
    pub logged : v ≡ runtime.log_info entry before
    pub event : entry.event ≡ codes "request_completed"
    pub has_path : attribute (codes "path") entry.extra ≡ some (text path)
    pub clean : has_api_key path ≡ false
