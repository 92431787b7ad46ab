-- ===== src/Load/Options.antt =====
-- The options of the load tests: which scenarios run at which rate, and the thresholds they must meet.
use dotnet_web_api_startpack.Prelude.{
  ℕ, suc, ◌+◌, ◌<◌, Text, lit, List, [], ◌∷◌, ◌++◌, Option, none, some, ◌≡◌, true, arith, or_else,
}
use dotnet_web_api_startpack.Load.Pool.{smaller}
use dotnet_web_api_startpack.Platform.{Platform}
use dotnet_web_api_startpack.Load.{Env, Request, Response}
use dotnet_web_api_startpack.Load.Sizes.{AnswersEach}
use dotnet_web_api_startpack.Load.Refresh.{iterate}
use dotnet_web_api_startpack.Load.Runs.{
  MixedUsers, MixedData, mixed_setup, has_sent, mixed_setup-has_sent,
}

-- The numbers among the environment variables; one that is not set, or empty, is `none`.
pub record LoadEnv : Type 0 where
  pub login_rps : Option ℕ
  pub me_rps : Option ℕ
  pub refresh_rps : Option ℕ
  pub refresh_max_vus : Option ℕ
  pub mixed_login_rps : Option ℕ
  pub mixed_refresh_rps : Option ℕ
  pub mixed_me_rps : Option ℕ
  pub mixed_login_max_vus : Option ℕ
  pub mixed_refresh_max_vus : Option ℕ
  pub mixed_me_max_vus : Option ℕ
  pub duration : Option Text

pub record LoadScenario : Type 0 where
  pub name : Text
  pub executor : Text
  pub exec : Option Text
  pub rate : ℕ
  pub time_unit : Text
  pub duration : Text
  pub pre_allocated : ℕ
  pub max_users : ℕ

pub record LoadOptions : Type 0 where
  pub scenarios : List LoadScenario
  pub thresholds : List (Text × Text)
  pub setup_timeout : Option Text

-- A scenario that is started at a constant rate each second.
abbrev pub constant_rate :
    Text
    → Option Text
    → (rate : ℕ) → (duration : Text) → (pre_allocated max_users : ℕ) → LoadScenario
constant_rate name exec rate duration pre_allocated max_users = record {
  name = name;
  executor = lit "constant-arrival-rate";
  exec = exec;
  rate = rate;
  time_unit = lit "1s";
  duration = duration;
  pre_allocated = pre_allocated;
  max_users = max_users;
}

-- `thresholds` and `checkFloor`
abbrev pub login_thresholds : List (Text × Text)
login_thresholds =
    (lit "http_req_duration{operation:login}", lit "p(95)<500")
    ∷ (lit "http_req_failed{operation:login}", lit "rate<0.01")
    ∷ []

abbrev pub refresh_thresholds : List (Text × Text)
refresh_thresholds =
    (lit "http_req_duration{operation:refresh}", lit "p(95)<100")
    ∷ (lit "http_req_failed{operation:refresh}", lit "rate<0.01")
    ∷ []

abbrev pub me_thresholds : List (Text × Text)
me_thresholds =
    (lit "http_req_duration{operation:me}", lit "p(95)<50")
    ∷ (lit "http_req_failed{operation:me}", lit "rate<0.01")
    ∷ []

abbrev pub check_floor : List (Text × Text)
check_floor = (lit "checks", lit "rate>0.99") ∷ []

abbrev pub short_run : LoadEnv → Text
short_run env = or_else env.duration (lit "2m")

-- `options` of login.js, me.js and refresh.js
unfoldable pub login_options : LoadEnv → LoadOptions
login_options env = record {
  scenarios =
      constant_rate (lit "login") none (or_else env.login_rps 50) (short_run env) 50 200 ∷ [];
  thresholds = login_thresholds ++ check_floor;
  setup_timeout = none;
}

unfoldable pub me_options : LoadEnv → LoadOptions
me_options env = record {
  scenarios = constant_rate (lit "me") none (or_else env.me_rps 500) (short_run env) 100 500 ∷ [];
  thresholds = me_thresholds ++ check_floor;
  setup_timeout = none;
}

abbrev pub refresh_max : LoadEnv → ℕ
refresh_max env = or_else env.refresh_max_vus 100

unfoldable pub refresh_options : LoadEnv → LoadOptions
refresh_options env = record {
  scenarios =
      constant_rate (lit "refresh") none (or_else env.refresh_rps 200) (short_run env)
        (smaller 20 (refresh_max env)) (refresh_max env)
      ∷ [];
  thresholds = refresh_thresholds ++ check_floor;
  setup_timeout = some (lit "5m");
}

-- `loginMaxVUs`, `refreshMaxVUs` and `meMaxVUs` of mixed.js
abbrev pub mixed_users : LoadEnv → MixedUsers
mixed_users env = record {
  login_users = or_else env.mixed_login_max_vus 100;
  refresh_users = or_else env.mixed_refresh_max_vus 200;
  me_users = or_else env.mixed_me_max_vus 300;
}

-- `options` of mixed.js
unfoldable pub mixed_options : LoadEnv → LoadOptions
mixed_options env =
    let duration = or_else env.duration (lit "5m") in
    let users = mixed_users env in
    record {
      scenarios =
          constant_rate (lit "login") (some (lit "login")) (or_else env.mixed_login_rps 10) duration
            20 users.login_users
          ∷ constant_rate (lit "refresh") (some (lit "refresh")) (or_else env.mixed_refresh_rps 40)
              duration 40 users.refresh_users
          ∷ constant_rate (lit "me") (some (lit "me")) (or_else env.mixed_me_rps 100) duration 50
              users.me_users
          ∷ [];
      thresholds = login_thresholds ++ (refresh_thresholds ++ (me_thresholds ++ check_floor));
      setup_timeout = some (lit "10m");
    }

-- The users that the scenarios of a run may have in all.
abbrev pub all_users : List LoadScenario → ℕ
all_users [] = 0
all_users (s ∷ ss) = s.max_users + all_users ss

module _ {ℓ} ⦃p : Platform⦄ {S : Type ℓ} (env : Env)
    (batch : List Request → S → List Response × S) where
  -- If the setup of the mixed run succeeds, and the batch call gives a response for each request, then
  -- every virtual user that the options allow, whichever of the scenarios it is numbered in, finds a
  -- session of its own number in the pool, and its first refresh iteration sends a request.
  pub mixed_options-has_sent :
      (post : Request → S → Response × S) (numbers : LoadEnv) (s : S) (mixed : MixedData) (i : ℕ)
      (response : Response)
      → AnswersEach batch
      → mixed_setup env batch post (mixed_users numbers) s ≡ some mixed
      → i < all_users (mixed_options numbers).scenarios
      → has_sent (iterate env mixed.refresh_token_pool (suc i) none response).1 ≡ true
  unfolding mixed_options
  mixed_options-has_sent post numbers s mixed i response each e h =
      mixed_setup-has_sent env batch post (mixed_users numbers) s mixed i response each e
        (omega arith)
