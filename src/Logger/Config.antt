-- ===== src/Logger/Config.antt =====
-- logger/logger.config.ts, and what it reads of config/env.schema.ts.
use program_capacity_invoice.Base.{
  ℕ, String, Bool, true, false, ◌&&◌, not, Option, none, some, List, if◌then◌else◌,
}
use program_capacity_invoice.Http.Request.{Headers}
use program_capacity_invoice.Logger.RequestId.{gen_req_id}
use program_capacity_invoice.Logger.AccessLog.{
  LogLevel, info, debug, is_ignored_route, custom_log_level, RequestWithExtras, SerializedRequest,
  request_serializer, SerializedResponse, response_serializer,
}
use program_capacity_invoice.Logger.Redaction.{build_redaction_paths}

pub data NodeEnv : Type 0 where
  development test production : NodeEnv

-- EnvConfig, as the logger reads it.
pub record EnvConfig : Type 0 where
  pub node_env : NodeEnv
  pub service_name : String
  pub app_version : String
  pub log_level : Option LogLevel
  pub log_pretty : Option Bool

abbrev is_development : NodeEnv → Bool
is_development development = true
is_development test = false
is_development production = false

abbrev is_test : NodeEnv → Bool
is_test test = true
is_test development = false
is_test production = false

unfoldable pub log_level : EnvConfig → LogLevel
log_level config = elim config.log_level [
  | some level ↦ level
  | none ↦ if is_development config.node_env then debug else info
]

unfoldable pub use_pretty_transport : EnvConfig → Bool
use_pretty_transport config =
    elim config.log_pretty [ none ↦ is_development config.node_env | some pretty ↦ pretty ]
    && not (is_test config.node_env)

-- `pino-pretty`, with its options
pub record Transport : Type 0 where
  pub target : String
  pub colorize : Bool
  pub single_line : Bool
  pub translate_time : String
  pub ignore : String

pub record Fields : Type 0 where
  pub pid : ℕ
  pub hostname : String
  pub service : String
  pub env : NodeEnv
  pub version : String

-- `pinoHttp`; query and parameters of a request are of any type.
pub record Params (V : Type 0) : Type 1 where
  pub level : LogLevel
  pub gen_req_id : String → Headers → String
  pub custom_log_level : Bool → ℕ → LogLevel
  pub custom_props : RequestWithExtras V → Option String
  pub ignore : RequestWithExtras V → Bool
  pub redact_paths : List String
  pub redact_censor : String
  pub request_serializer : RequestWithExtras V → SerializedRequest V
  pub response_serializer : ℕ → SerializedResponse
  pub base : Fields
  pub transport : Option Transport

-- `req.url ?? ''`
abbrev pub url_of : Option String → String
url_of none = ""
url_of (some url) = url

abbrev pub pino_pretty : Transport
pino_pretty = record {
  target = "pino-pretty";
  colorize = true;
  single_line = true;
  translate_time = "SYS:standard";
  ignore = "pid,hostname";
}

-- The process id and the host's name come from the system.
unfoldable pub build_logger_config : (V : Type 0) → ℕ → String → EnvConfig → Params V
unfolding log_level use_pretty_transport build_redaction_paths is_ignored_route request_serializer
    response_serializer custom_log_level
build_logger_config V pid hostname config = record {
  level = log_level config;
  gen_req_id = gen_req_id;
  custom_log_level = custom_log_level;
  custom_props = λ req. req.id;
  ignore = λ req. is_ignored_route (url_of req.url);
  redact_paths = build_redaction_paths;
  redact_censor = "[Redacted]";
  request_serializer = request_serializer;
  response_serializer = response_serializer;
  base = record {
    pid = pid;
    hostname = hostname;
    service = config.service_name;
    env = config.node_env;
    version = config.app_version;
  };
  transport = if use_pretty_transport config then some pino_pretty else none;
}
