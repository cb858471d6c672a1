-- ===== src/Ingest/Config.antt =====
-- ingest/src/config.py, and the choice of the sink in ingest/main.py. A number is read by `int`, without
-- the white space and underscores that it allows.
use nano_tick.Base.{
  suc, ◌*◌, ◌-◌, Bool, Option, none, some, List, [], ◌∷◌, not, if◌then◌else◌, Result, ok, ◌>>=◌,
}
use nano_tick.Base.Int.{ℤ, pos, negsuc}
use nano_tick.Base.Text.{Text, lower, same_text}
use nano_tick.Data.{int}
use nano_tick.Reader.{or_default}
use nano_tick.Ingest.{symbols}

-- the environment variables that `from_env` reads
pub data Variable : Type 0 where
  env_symbols env_symbol env_log_level env_stream_quotes env_sink_type env_mqtt_host : Variable
  env_mqtt_port env_mqtt_max_queued env_sink_host env_sink_port env_sink_buffer_mb : Variable

pub record Config : Type 0 where
  pub log_level : Text
  pub config_symbols : List Text
  pub stream_quotes : Bool
  pub sink_type : Text
  pub mqtt_host : Text
  pub mqtt_port : ℤ
  pub mqtt_max_queued : ℤ
  pub sink_host : Text
  pub sink_port : ℤ
  pub sink_buffer_mb : ℤ

-- `os.environ.get(first) or os.environ.get(second, default)`: an empty text counts as missing
unfoldable pub first_set : Option Text → Option Text → Text → Text
first_set none second default = or_default default second
first_set (some []) second default = or_default default second
first_set (some (c ∷ cs)) second default = c ∷ cs

-- "btcusdt", "INFO", "false", "mqtt", "tcp" and "192.168.100.2"
abbrev pub default_symbol : Text
default_symbol = 98 ∷ 116 ∷ 99 ∷ 117 ∷ 115 ∷ 100 ∷ 116 ∷ []

abbrev pub info : Text
info = 73 ∷ 78 ∷ 70 ∷ 79 ∷ []

abbrev pub false_text : Text
false_text = 102 ∷ 97 ∷ 108 ∷ 115 ∷ 101 ∷ []

abbrev pub mqtt : Text
mqtt = 109 ∷ 113 ∷ 116 ∷ 116 ∷ []

abbrev pub tcp : Text
tcp = 116 ∷ 99 ∷ 112 ∷ []

abbrev pub store_host : Text
store_host = 49 ∷ 57 ∷ 50 ∷ 46 ∷ 49 ∷ 54 ∷ 56 ∷ 46 ∷ 49 ∷ 48 ∷ 48 ∷ 46 ∷ 50 ∷ []

-- the instruments of `from_env`
unfoldable pub instruments : (Variable → Option Text) → List Text
unfolding first_set symbols
instruments environ =
    symbols (first_set (environ Variable.env_symbols) (environ Variable.env_symbol) default_symbol)

-- `Config.from_env`
unfoldable pub config_from_env : (Variable → Option Text) → Result Config
unfolding instruments lower same_text int
config_from_env environ = do
  let quotes = or_default (116 ∷ 114 ∷ 117 ∷ 101 ∷ []) (environ Variable.env_stream_quotes)
  port ← int (or_default (49 ∷ 56 ∷ 56 ∷ 51 ∷ []) (environ Variable.env_mqtt_port))
  queued ← int (or_default (53 ∷ 48 ∷ 48 ∷ 48 ∷ 48 ∷ []) (environ Variable.env_mqtt_max_queued))
  tcp_port ← int (or_default (57 ∷ 48 ∷ 48 ∷ 48 ∷ []) (environ Variable.env_sink_port))
  buffer_mb ← int (or_default (54 ∷ 52 ∷ []) (environ Variable.env_sink_buffer_mb))
  ok (record {
    log_level = or_default info (environ Variable.env_log_level);
    config_symbols = instruments environ;
    stream_quotes = not (same_text (lower quotes) false_text);
    sink_type = or_default mqtt (environ Variable.env_sink_type);
    mqtt_host = or_default store_host (environ Variable.env_mqtt_host);
    mqtt_port = port;
    mqtt_max_queued = queued;
    sink_host = or_default store_host (environ Variable.env_sink_host);
    sink_port = tcp_port;
    sink_buffer_mb = buffer_mb;
  })

-- what `start_sink` makes and starts, with the arguments that it passes
pub data Sink : Type 0 where
  tcp_sink : (host : Text) (port max_buffer_bytes : ℤ) → Sink
  mqtt_sink : (host : Text) (port max_queued_messages : ℤ) → Sink

-- `sink_buffer_mb * 1024 * 1024`
abbrev pub bytes_of : ℤ → ℤ
bytes_of (pos n) = pos (n * 1024 * 1024)
bytes_of (negsuc n) = negsuc (suc n * 1024 * 1024 - 1)

unfoldable pub start_sink : Config → Sink
unfolding same_text
start_sink config =
    if same_text config.sink_type tcp
    then Sink.tcp_sink config.sink_host config.sink_port (bytes_of config.sink_buffer_mb)
    else Sink.mqtt_sink config.mqtt_host config.mqtt_port config.mqtt_max_queued
