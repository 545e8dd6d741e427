-- ===== src/Process/Config.antt =====
-- cmd/config.go: the configuration, which viper reads from the environment.
use ethereum_fetcher.Prelude.{String, ℤ, ◌≡◌, Option, none, some, str_eq, if◌then◌else◌}

-- What the program calls of viper; the errors of `BindEnv` are dropped.
pub record Viper (V : Type 0) : Type 0 where
  pub new : V
  pub automatic_env : V → V
  pub bind_env : (key variable : String) → V → V
  pub set_default : (key value : String) → V → V
  pub get_string : V → String → String
  pub get_int : V → String → ℤ

abbrev pub api_port : String
api_port = "APIPort"

abbrev pub eth_node_url : String
eth_node_url = "EthNodeURL"

abbrev pub db_connection_url : String
db_connection_url = "DBConnectionURL"

abbrev pub jwt_secret : String
jwt_secret = "JWTSecret"

abbrev pub log_level : String
log_level = "LogLevel"

abbrev pub node_rate_limit : String
node_rate_limit = "NodeRateLimit"

-- `NewViper`
pub new_viper : {V : Type 0} → Viper V → V
new_viper viper =
    let v = viper.automatic_env viper.new in
    let v = viper.bind_env api_port "API_PORT" v in
    let v = viper.bind_env eth_node_url "ETH_NODE_URL" v in
    let v = viper.bind_env db_connection_url "DB_CONNECTION_URL" v in
    let v = viper.bind_env jwt_secret "JWT_SECRET" v in
    let v = viper.bind_env log_level "LOG_LEVEL" v in
    let v = viper.bind_env node_rate_limit "NODE_RATE_LIMIT_PER_SECOND" v in
    let v = viper.set_default log_level "info" v in viper.set_default node_rate_limit "10" v

-- The first of two values that is there.
abbrev pub or_else : Option String → Option String → Option String
or_else (some x) y = some x
or_else none y = y

abbrev pub or_blank : Option String → String
or_blank (some x) = x
or_blank none = ""

-- What viper has for a key: what AutomaticEnv finds, the variable that is bound to it, the default.
pub record Reading : Type 0 where
  pub automatic : Option String
  pub bound : Option String
  pub default : Option String

abbrev pub value_of : Reading → String
value_of r = or_blank (or_else r.automatic (or_else r.bound r.default))

-- The settings, with the variable that each is bound to and its default.
pub data Setting : Type 0 where
  port node_url connection_url secret level rate_limit : Setting

abbrev pub key_of : Setting → String
key_of port = api_port
key_of node_url = eth_node_url
key_of connection_url = db_connection_url
key_of secret = jwt_secret
key_of level = log_level
key_of rate_limit = node_rate_limit

abbrev pub lower_key_of : Setting → String
lower_key_of port = "apiport"
lower_key_of node_url = "ethnodeurl"
lower_key_of connection_url = "dbconnectionurl"
lower_key_of secret = "jwtsecret"
lower_key_of level = "loglevel"
lower_key_of rate_limit = "noderatelimit"

-- What viper documents of reading a key, in the environment `env`. `own` is what AutomaticEnv finds
-- for a key. Keys are compared without regard to case, in the lower case that `to_lower` gives.
pub record Reads {V : Type 0} (viper : Viper V) (env own : String → Option String)
    (to_lower : String → String) : Type 0 where
  -- `strings.ToLower` on the six keys
  pub lowered : (s : Setting) → to_lower (key_of s) ≡ lower_key_of s
  pub reading : V → String → Reading
  pub get_string_lem : (v : V) (key : String) → viper.get_string v key ≡ value_of (reading v key)
  pub new_lem :
      (key : String)
      → reading viper.new key ≡ record { automatic = none; bound = none; default = none }
  pub automatic_env_lem :
      (v : V) (key : String)
      → reading (viper.automatic_env v) key ≡ record (reading v key) { automatic = own key }
  pub bind_env_lem :
      (j x : String) (v : V) (key : String)
      → reading (viper.bind_env j x v) key ≡ (
          if str_eq (to_lower j) (to_lower key)
          then record (reading v key) { bound = env x }
          else reading v key)
  pub set_default_lem :
      (j x : String) (v : V) (key : String)
      → reading (viper.set_default j x v) key ≡ (
          if str_eq (to_lower j) (to_lower key)
          then record (reading v key) { default = some x }
          else reading v key)

abbrev pub variable_of : Setting → String
variable_of port = "API_PORT"
variable_of node_url = "ETH_NODE_URL"
variable_of connection_url = "DB_CONNECTION_URL"
variable_of secret = "JWT_SECRET"
variable_of level = "LOG_LEVEL"
variable_of rate_limit = "NODE_RATE_LIMIT_PER_SECOND"

abbrev pub default_of : Setting → Option String
default_of level = some "info"
default_of rate_limit = some "10"
default_of _ = none

module _ {V : Type 0} (viper : Viper V) (env own : String → Option String)
    (to_lower : String → String) (reads : Reads viper env own to_lower) where
  abbrev expected : Setting → Reading
  expected s = record {
    automatic = own (key_of s);
    bound = env (variable_of s);
    default = default_of s;
  }
