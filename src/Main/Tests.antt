-- ===== src/Main/Tests.antt =====
-- The lifespan over clients that do nothing, and the theorem there.
use platinum_gold_backend.Prelude.{codes, pos, true}
use platinum_gold_backend.Exec.{Exec, pure}
use platinum_gold_backend.Auth.Samples.{verify_api_key}
use platinum_gold_backend.Core.Clients.{Engine, Redis}
use platinum_gold_backend.Core.Config.Samples.{platform}
use platinum_gold_backend.Items.Cache.Client.{text}
use platinum_gold_backend.Items.Cache.Fake.{fake_codec}
use platinum_gold_backend.Items.Router.{AppState}
use platinum_gold_backend.Main.{Process}

abbrev engine : Engine Unit Unit
engine = record {
  dispose = pure tt;
  sessions = record { enter = pure tt; exit_ok = λ s. pure tt; exit_error = λ e s w. w };
  session_maker = record { enter = pure tt; close = λ s. pure tt };
}

abbrev redis : Redis Unit
redis = record {
  client = record {
    getrange = λ key first last. pure (text (codes "5"));
    set = λ key value ttl once. pure true;
    incr = λ key. pure (pos 6);
  };
  aclose = pure tt;
}

abbrev process : Process Unit Unit
process = record {
  platform = platform;
  create_async_engine = λ url args. pure engine;
  from_url = λ url options. pure redis;
  randbelow = λ n. pure 0;
  enter_clerk = λ secret ms. pure verify_api_key;
  leave_clerk = pure tt;
  milliseconds = λ seconds. 2000;
  logger = record { warning = λ entry w. w };
  codec = fake_codec;
  app_version = codes "0.1.0";
}

abbrev serve : AppState Unit Unit → Exec Unit (Unit {0})
serve state = pure tt
