-- ===== src/Plain/Config.antt =====
-- config/config.go: the configuration from the environment.
use shutter_tests.Prelude.{◌*◌, ◌%◌, String, none, some}
use shutter_tests.Prelude.Int.{ℤ, pos}
use shutter_tests.Prelude.Words.{word, int64_of_uint64, uint64_of_int64}
use shutter_tests.Prelude.Text.{atoi}
use shutter_tests.Prelude.Outcomes.{Outcome, ok, err, panic, fatal, ◌>>=◌}

-- A time.Duration is an int64, in nanoseconds.
pub record Config : Type 0 where
  pub mode : String
  pub private_key : String
  pub chiado_url : String
  pub chiado_send_interval : ℤ
  pub gnosis_url : String
  pub gnosis_send_interval : ℤ
  pub interval : ℤ
  pub timeout : ℤ
  pub test_duration : ℤ
  pub node_url : String

-- The zero value of the struct.
unfoldable pub zero_config : Config
zero_config = record {
  mode = "";
  private_key = "";
  chiado_url = "";
  chiado_send_interval = pos 0;
  gnosis_url = "";
  gnosis_send_interval = pos 0;
  interval = pos 0;
  timeout = pos 0;
  test_duration = pos 0;
  node_url = "";
}

-- `os.Getenv`: a variable that is not set reads as "".
abbrev pub Environment : Type 0
Environment = String → String

unfoldable pub get_env_as_int : Environment → String → Outcome ℤ
get_env_as_int env name = elim (atoi (env name)) [
  | none ↦ panic (fatal "Invalid value")
  | some value ↦ ok value
]

-- `time.Duration(n) * time.Second`, which wraps.
unfoldable pub seconds : ℤ → ℤ
seconds n = int64_of_uint64 (uint64_of_int64 n * 1_000_000_000 % word)

-- With what `godotenv.Load` leaves, or its error.
unfoldable pub load_config : Outcome Environment → Outcome Config
load_config (err e) = panic (fatal "Error loading .env file")
load_config (panic p) = panic p
load_config (ok env) = do
  chiado ← get_env_as_int env "CHIADO_SEND_INTERVAL"
  gnosis ← get_env_as_int env "GNOSIS_SEND_INTERVAL"
  timeout ← get_env_as_int env "WAIT_TX_TIMEOUT"
  duration ← get_env_as_int env "TEST_DURATION"
  ok (record {
    mode = env "MODE";
    private_key = env "PRIVATE_KEY";
    chiado_url = env "CHIADO_URL";
    chiado_send_interval = seconds chiado;
    gnosis_url = env "GNOSIS_URL";
    gnosis_send_interval = seconds gnosis;
    interval = pos 0;
    timeout = seconds timeout;
    test_duration = seconds duration;
    node_url = env "NODE_URL";
  })
