-- ===== src/Backfill/Config.antt =====
-- `BackfillConfig` of resources/backfill.py. A number is read by `int`, without the white space and
-- underscores that it allows; the path of schema.q, which stands beside the source, and the home
-- directory's default path are parameters.
use nano_tick.Base.{◌-◌, ℕ, Option, List, [], ◌∷◌, ◌&&◌, leb, if◌then◌else◌, Result, ok, ◌>>=◌}
use nano_tick.Base.Int.{ℤ}
use nano_tick.Base.Text.{Text, lstrip, rstrip}
use nano_tick.Data.{int}
use nano_tick.Reader.{or_default}
use nano_tick.Ingest.{split_comma}
use nano_tick.Ingest.Config.{first_set, store_host}

pub data Variable : Type 0 where
  env_symbols env_symbol env_venue env_backfill_days env_backfill_chunk env_hdb_path : Variable
  env_api_key env_mqtt_host env_mqtt_port : Variable

pub record BackfillConfig : Type 0 where
  pub config_symbols : List Text
  pub venue : Text
  pub days : ℤ
  pub chunk_size : ℤ
  pub hdb_path : Text
  pub schema_q : Text
  pub api_key : Option Text
  pub mqtt_host : Text
  pub mqtt_port : ℤ

-- `s.upper()`, of ASCII texts
unfoldable pub upper_char : ℕ → ℕ
upper_char c = if leb 97 c && leb c 122 then c - 32 else c

unfoldable pub upper : Text → Text
unfolding upper_char
upper [] = []
upper (c ∷ cs) = upper_char c ∷ upper cs

-- the generator of `symbols`
unfoldable pub clean_upper : List Text → List Text
unfolding lstrip rstrip upper
clean_upper [] = []
clean_upper (part ∷ parts) = elim (rstrip (lstrip part)) [
  | [] ↦ clean_upper parts
  | c ∷ cs ↦ upper (c ∷ cs) ∷ clean_upper parts
]

-- "BTCUSDT" and "binance"
abbrev pub default_symbol : Text
default_symbol = 66 ∷ 84 ∷ 67 ∷ 85 ∷ 83 ∷ 68 ∷ 84 ∷ []

abbrev pub binance : Text
binance = 98 ∷ 105 ∷ 110 ∷ 97 ∷ 110 ∷ 99 ∷ 101 ∷ []

-- the instruments of `from_env`
unfoldable pub instruments : (Variable → Option Text) → List Text
unfolding first_set split_comma clean_upper
instruments environ =
    let raw =
      first_set (environ Variable.env_symbols) (environ Variable.env_symbol) default_symbol in
    let (part, parts) = split_comma raw in clean_upper (part ∷ parts)

-- `BackfillConfig.from_env`
unfoldable pub config_from_env : Text → Text → (Variable → Option Text) → Result BackfillConfig
unfolding instruments int
config_from_env schema_q home environ = do
  days ← int (or_default (51 ∷ 48 ∷ []) (environ Variable.env_backfill_days))
  chunk_size ←
      int (or_default (53 ∷ 48 ∷ 48 ∷ 48 ∷ 48 ∷ 48 ∷ []) (environ Variable.env_backfill_chunk))
  port ← int (or_default (49 ∷ 56 ∷ 56 ∷ 51 ∷ []) (environ Variable.env_mqtt_port))
  ok (record {
    config_symbols = instruments environ;
    venue = or_default binance (environ Variable.env_venue);
    days = days;
    chunk_size = chunk_size;
    hdb_path = or_default home (environ Variable.env_hdb_path);
    schema_q = schema_q;
    api_key = environ Variable.env_api_key;
    mqtt_host = or_default store_host (environ Variable.env_mqtt_host);
    mqtt_port = port;
  })
