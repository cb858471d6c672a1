-- ===== src/Reader.antt =====
-- resources/reader.py: bar sizes and dates as arguments, the configuration, and the queries of
-- `HdbReader`. The embedded q is a parameter: a function from a query to the frame that it returns,
-- or to an error. A date is its ordinal.
pub mod Coerce
pub mod Queries
mod Tests
use nano_tick.Base.{
  ℕ, zero, suc, ◌+◌, ◌*◌, Bool, Option, none, some, List, [], ◌∷◌, ◌==◌, if◌then◌else◌, Result, ok,
  raise, ◌>>=◌, Error,
}
use nano_tick.Base.Int.{ℤ, pos, negsuc, leb_ℤ}
use nano_tick.Base.Text.{Text, lstrip, rstrip}
use nano_tick.Data.{int}
use nano_tick.Dates.{Fields, strptime, date_of, ymd}

-- A bar width: a timedelta, of which the code reads `total_seconds()`, a number, a Boolean, or else.
-- The floats are `F`.
pub data BarSize (F : Type 0) : Type 0 where
  timedelta_size : F → BarSize F
  bool_size : Bool → BarSize F
  int_size : ℤ → BarSize F
  float_size : F → BarSize F
  other_size : BarSize F

abbrev pub ns_per_sec : ℕ
ns_per_sec = 1_000_000_000

abbrev pub times_ns : ℤ → ℤ
times_ns (pos n) = pos (n * ns_per_sec)
times_ns (negsuc n) = negsuc (n * ns_per_sec + 999_999_999)

module _ {F : Type 0} (round_ns : F → Result ℤ) where
  -- `round(size * _NS_PER_SEC)`, where `round` of a float raises on a NaN and on an infinity
  unfoldable pub bar_ns : BarSize F → Result ℤ
  bar_ns (BarSize.timedelta_size s) = round_ns s
  bar_ns (BarSize.bool_size b) = raise Error.type_error
  bar_ns (BarSize.int_size n) = ok (times_ns n)
  bar_ns (BarSize.float_size s) = round_ns s
  bar_ns BarSize.other_size = raise Error.type_error

  -- `to_bar_ns`
  unfoldable pub to_bar_ns : BarSize F → Result ℤ
  unfolding bar_ns
  to_bar_ns size = do
    ns ← bar_ns size
    (if leb_ℤ ns (pos 0) then raise Error.value_error else ok ns)

-- a datetime is its date and its time of the day
pub data DateLike : Type 0 where
  of_datetime : ℕ → ℕ → DateLike
  of_date : ℕ → DateLike
  of_str : Text → DateLike
  of_other : DateLike

-- `s.replace("-", ".")`
unfoldable pub dotted : Text → Text
dotted [] = []
dotted (c ∷ cs) = (if c == 45 then 46 else c) ∷ dotted cs

-- `coerce_date`
unfoldable pub coerce_date : DateLike → Result ℕ
unfolding dotted lstrip rstrip strptime
coerce_date (DateLike.of_datetime d t) = ok d
coerce_date (DateLike.of_date d) = ok d
coerce_date (DateLike.of_str s) = do
  f ← strptime (ymd 46) (dotted (rstrip (lstrip s)))
  ok (date_of f)
coerce_date DateLike.of_other = raise Error.type_error

-- the environment variables that `from_env` reads
pub data Variable : Type 0 where
  env_symbol env_hdb_path env_bar_seconds env_label_horizon env_feature_window : Variable
  env_roundtrip_cost : Variable

-- `os.environ.get(name, default)`
abbrev pub or_default : {A : Type 0} → A → Option A → A
or_default d none = d
or_default d (some x) = x

pub record ReaderConfig (F : Type 0) : Type 0 where
  pub symbol : Text
  pub hdb_path : Text
  pub analytics_q : Text
  pub bar_seconds : ℤ
  pub horizon : ℤ
  pub window : ℤ
  pub cost : F

-- `ReaderConfig.from_env`. The path of analytics.q, which stands beside the source, the default path
-- of the store in the home directory, `str.upper` and `float` are parameters.
unfoldable pub from_env :
    {F : Type 0}
    → (analytics_q home : Text) → (upper : Text → Text) → (float : Text → Result F)
    → (Variable → Option Text)
    → Result (ReaderConfig F)
unfolding int
from_env analytics_q home upper float environ = do
  bar_seconds ← int (or_default (54 ∷ 48 ∷ []) (environ Variable.env_bar_seconds))
  horizon ← int (or_default (49 ∷ []) (environ Variable.env_label_horizon))
  window ← int (or_default (50 ∷ 48 ∷ []) (environ Variable.env_feature_window))
  cost ← float (or_default (48 ∷ 46 ∷ 48 ∷ 48 ∷ 50 ∷ []) (environ Variable.env_roundtrip_cost))
  ok (record {
    symbol =
        upper (or_default (66 ∷ 84 ∷ 67 ∷ 85 ∷ 83 ∷ 68 ∷ 84 ∷ []) (environ Variable.env_symbol));
    hdb_path = or_default home (environ Variable.env_hdb_path);
    analytics_q = analytics_q;
    bar_seconds = bar_seconds;
    horizon = horizon;
    window = window;
    cost = cost;
  })

-- the queries to q, by the functions of platform/analytics.q, with the span in nanoseconds
pub data Query (F : Type 0) : Type 0 where
  ask_bars ask_quote_bars : Text → ℕ → ℤ → Query F
  ask_features : Text → ℕ → ℤ → ℤ → ℤ → F → Query F
  ask_vwap_day : Text → ℕ → Query F
  ask_counts : Text → Query F

-- the reader, with the configuration that `open_reader` attaches
pub record HdbReader (F : Type 0) : Type 0 where
  pub config : Option (ReaderConfig F)

unfoldable pub default_size : {F : Type 0} → HdbReader F → Option (BarSize F) → BarSize F
default_size reader (some size) = size
default_size reader none = elim reader.config [
  | some cfg ↦ BarSize.int_size cfg.bar_seconds
  | none ↦ BarSize.int_size (pos 60)
]

-- `_config_default`, where `attr` reads the field
unfoldable pub config_default :
    {F A : Type 0} → HdbReader F → Option A → (ReaderConfig F → A) → A → A
config_default reader (some value) attr fallback = value
config_default reader none attr fallback = elim reader.config [
  | some cfg ↦ attr cfg
  | none ↦ fallback
]

-- The paths that exist are a parameter: `__init__` raises on a store or a file that is not there.
unfoldable pub open_reader : {F : Type 0} → (Text → Bool) → ReaderConfig F → Result (HdbReader F)
open_reader exists config =
    if exists config.hdb_path
    then (if exists config.analytics_q
        then ok (record { config = some config })
        else raise Error.os_error)
    else raise Error.os_error

module _ {F R : Type 0} (round_ns : F → Result ℤ) (q : Query F → Result R)
    (reader : HdbReader F) where
  unfoldable pub read_bars : Text → DateLike → Option (BarSize F) → Result R
  read_bars symbol day size = do
    d ← coerce_date day
    span ← to_bar_ns round_ns (default_size reader size)
    q (Query.ask_bars symbol d span)

  unfoldable pub read_quote_bars : Text → DateLike → Option (BarSize F) → Result R
  read_quote_bars symbol day size = do
    d ← coerce_date day
    span ← to_bar_ns round_ns (default_size reader size)
    q (Query.ask_quote_bars symbol d span)

  -- `feature_table`, whose last fallback for the cost is the constant 0.002
  unfoldable pub read_features :
      F → Text → DateLike → Option (BarSize F) → Option ℤ → Option ℤ → Option F → Result R
  read_features fallback_cost symbol day size horizon window cost = do
    let h = config_default reader horizon (λ c. c.horizon) (pos 1)
    let w = config_default reader window (λ c. c.window) (pos 20)
    let c = config_default reader cost (λ c. c.cost) fallback_cost
    d ← coerce_date day
    span ← to_bar_ns round_ns (default_size reader size)
    q (Query.ask_features symbol d span h w c)

  unfoldable pub read_vwap_day : Text → DateLike → Result R
  read_vwap_day symbol day = do d ← coerce_date day; q (Query.ask_vwap_day symbol d)

  unfoldable pub read_counts : Text → Result R
  read_counts symbol = q (Query.ask_counts symbol)
