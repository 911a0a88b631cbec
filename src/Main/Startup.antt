-- ===== src/Main/Startup.antt =====
-- With accepted settings the application starts.
use platinum_gold_backend.Prelude.{ℕ, Text, none, ◌≡◌, ◌≢◌}
use platinum_gold_backend.Errors.{ok}
use platinum_gold_backend.Exec.{Exec}
use platinum_gold_backend.Auth.{clerk, VerifiedKey}
use platinum_gold_backend.Core.Clients.{ConnectArgs, RedisOptions, Engine, Redis}
use platinum_gold_backend.Core.Config.Settings.{Settings}
use platinum_gold_backend.Core.Config.DatabaseUrl.Accepted.{IsDatabaseUrl}
use platinum_gold_backend.Core.Config.RedisUrl.Accepted.{IsRedisUrl}
use platinum_gold_backend.Items.Router.{AppState}
use platinum_gold_backend.Main.{Process}

-- SQLAlchemy and redis-py make a client for a URL that is well formed, and close it without failing;
-- Clerk's client is made of any secret.
pub record Available {W S : Type 0} (process : Process W S) : Type 0 where
  pub engine :
      (url : Text) (args : ConnectArgs) (w : W)
      → IsDatabaseUrl process.platform url
      → (e : Engine W S) × ((process.create_async_engine url args w).0 ≡ ok e)
        × ((v : W) → (e.dispose v).0 ≡ ok tt)
  pub redis :
      (url : Text) (options : RedisOptions) (w : W)
      → IsRedisUrl process.platform url
      → (r : Redis W) × ((process.from_url url options w).0 ≡ ok r)
        × ((v : W) → (r.aclose v).0 ≡ ok tt)
  pub clerk :
      (secret : Text) (ms : ℕ) (w : W)
      → (verify : Text → ℕ → Exec W VerifiedKey) × ((process.enter_clerk secret ms w).0 ≡ ok verify)
  pub leave : (w : W) → (process.leave_clerk w).0 ≡ ok tt

-- Nothing that a route takes from `app.state` is missing.
pub record IsComplete {W S : Type 0} (state : AppState W S) : Type 0 where
  pub session_factory : state.session_factory ≢ none
  pub item_cache : state.item_cache ≢ none
  pub api_key_verifier : state.api_key_verifier ≢ none
