-- ===== src/Dashboard.antt =====
-- resources/dashboard.py: instants and windows of time, the bars of a window, and the page. Times
-- are signed milliseconds since the epoch, a date is its ordinal. A bar `B` shows its time; the
-- reader is a parameter, a function from a day to the bars of that day or to an error.
pub mod Formats
pub mod Instant
pub mod Window
pub mod Midnight
pub mod Escape
mod Tests
use nano_tick.Base.{
  ℕ, zero, suc, ◌+◌, ◌-◌, ◌*◌, ◌/◌, Bool, true, false, ◌&&◌, Option, none, some, List, [], ◌∷◌,
  ◌++◌, map, length, leb, ltb, ◌==◌, count_from, if◌then◌else◌, Result, ok, raise, ◌>>=◌, Error,
}
use nano_tick.Base.Int.{ℤ, pos, negsuc, pos_part, ◌+ℤ◌, ◌-ℤ◌, ltb_ℤ, leb_ℤ}
use nano_tick.Base.Text.{Text, lstrip, rstrip}
use nano_tick.Data.{isdigit, digits_value}
use nano_tick.Dates.{Fields, Directive, ymd, strptime, date_of}
use nano_tick.Reader.{DateLike}
use nano_tick.Experiment.{date_range, load_frames, end_or_start}

-- `s.replace("Z", "").replace("T", " ")`
unfoldable pub normalised : Text → Text
normalised [] = []
normalised (c ∷ cs) =
    let rest = normalised cs in if c == 90 then rest else if c == 84 then 32 ∷ rest else c ∷ rest

-- the six formats of `parse_instant`: a date with `sep`, without a time, with hours and minutes, and
-- with seconds
abbrev pub with_minutes : ℕ → List Directive
with_minutes sep =
    ymd sep ++ Directive.spaces ∷ Directive.hour_2 ∷ Directive.literal 58 ∷ Directive.minute_2 ∷ []

abbrev pub with_seconds : ℕ → List Directive
with_seconds sep = with_minutes sep ++ Directive.literal 58 ∷ Directive.second_2 ∷ []

abbrev pub formats : List (List Directive)
formats =
    with_seconds 45 ∷ with_minutes 45 ∷ ymd 45 ∷ with_seconds 46 ∷ with_minutes 46 ∷ ymd 46 ∷ []

-- the ordinal of 1970-01-01
abbrev pub epoch : ℕ
epoch = 719_163

abbrev pub day_ms : ℕ
day_ms = 86_400_000

-- `int(dt.replace(tzinfo=timezone.utc).timestamp() * 1000)`
unfoldable pub instant_of : Fields → ℤ
instant_of f =
    pos (date_of f * day_ms + f.hour * 3_600_000 + f.minute * 60_000 + f.second * 1_000)
    -ℤ pos (epoch * day_ms)

-- the loop over the formats
unfoldable pub try_formats : List (List Directive) → Text → Result ℤ
try_formats [] s = raise Error.value_error
try_formats (f ∷ fs) s = elim (strptime f s) [
  | ok r ↦ ok (instant_of r)
  | raise e ↦ try_formats fs s
]

-- an epoch number in milliseconds, or in seconds if it is small
unfoldable pub epoch_ms : ℕ → ℤ
epoch_ms n = if leb 100_000_000_000 n then pos n else pos (n * 1_000)

-- `parse_instant` of a text
unfoldable pub parse_instant : Text → Result ℤ
parse_instant value =
    let s = rstrip (lstrip value) in
    if isdigit s then ok (epoch_ms (digits_value 0 s)) else try_formats formats (normalised s)

-- `window_bounds`
abbrev pub minutes_ms : ℤ → ℤ
minutes_ms (pos n) = pos (n * 60_000)
minutes_ms (negsuc n) = negsuc (n * 60_000 + 59_999)

unfoldable pub window_bounds : ℤ → ℤ → ℤ × ℤ
window_bounds center_ms window_min =
    let w = minutes_ms window_min in (center_ms -ℤ w, center_ms +ℤ w)

-- the day of an instant, counted from the epoch: the division rounds down
unfoldable pub day_of : ℤ → ℤ
day_of (pos n) = pos (n / day_ms)
day_of (negsuc n) = negsuc (n / day_ms)

-- `range(n)` of a signed count, and the ordinal of the day `first + n`; `datetime` has no day before
-- the year 1, which a number below would be
unfoldable pub window_days : ℤ → ℤ → List ℕ
unfolding day_of
window_days lo_ms hi_ms =
    let first = day_of lo_ms in
    let count = pos_part (day_of hi_ms -ℤ first +ℤ pos 1) in
    map (λ n. pos_part (pos epoch +ℤ first) + n) (count_from 0 count)

-- `load_bars`, which is the code of `load_features` of resources/experiment.py
abbrev pub load_bars : {B : Type 0} → (ℕ → Result (List B)) → List ℕ → Result (List B)
load_bars read days = load_frames read days

module _ {B : Type 0} (time : B → ℤ) where
  -- `filter_window`
  unfoldable pub filter_window : ℤ → ℤ → List B → List B
  filter_window lo_ms hi_ms [] = []
  filter_window lo_ms hi_ms (b ∷ bars) =
      let rest = filter_window lo_ms hi_ms bars in
      if leb_ℤ lo_ms (time b) && leb_ℤ (time b) hi_ms then b ∷ rest else rest

  -- `if not len(df): raise ValueError`
  abbrev pub or_empty : List B → Result (List B)
  or_empty [] = raise Error.value_error
  or_empty (b ∷ bars) = ok (b ∷ bars)

  -- The bars that `main` shows in the window mode, around an instant.
  unfoldable pub window_bars : (ℕ → Result (List B)) → ℤ → ℤ → Result (List B)
  window_bars read center_ms window_min = do
    let (lo, hi) = window_bounds center_ms window_min
    df ← load_bars read (window_days lo hi)
    or_empty (filter_window lo hi df)

  -- The bars that `main` shows in the range mode.
  unfoldable pub range_bars : (ℕ → Result (List B)) → DateLike → Option DateLike → Result (List B)
  range_bars read start end = do
    days ← date_range start (end_or_start end start)
    load_bars read days

-- `ohlcv_records`, by the fields of a bar and by `round(float(...), dp)`
pub record Bar (F : Type 0) : Type 0 where
  pub time : ℤ
  pub open_ : F
  pub high : F
  pub low : F
  pub close_ : F
  pub vol : F

pub record Ohlcv (F : Type 0) : Type 0 where
  pub ms : ℤ
  pub o : F
  pub h : F
  pub l : F
  pub c : F
  pub v : F

module _ {F : Type 0} (round : F → ℕ → F) where
  unfoldable pub ohlcv_records : ℕ → ℕ → List (Bar F) → List (Ohlcv F)
  ohlcv_records price_dp vol_dp bars =
      map
        (λ b. record {
          ms = b.time;
          o = round b.open_ price_dp;
          h = round b.high price_dp;
          l = round b.low price_dp;
          c = round b.close_ price_dp;
          v = round b.vol vol_dp;
        })
        bars

-- `blob.replace("</", "<\\/")`
abbrev pub is_slash_next : Text → Bool
is_slash_next [] = false
is_slash_next (c ∷ cs) = c == 47

unfoldable pub escape : Text → Text
escape [] = []
escape (c ∷ cs) =
    let rest = escape cs in if (c == 60) && is_slash_next cs then 60 ∷ 92 ∷ rest else c ∷ rest

-- `text.replace(mark, blob)` of a mark that is not empty: `skip` characters belong to the last match
unfoldable pub starts_with : Text → Text → Bool
starts_with [] s = true
starts_with (m ∷ mark) [] = false
starts_with (m ∷ mark) (c ∷ cs) = (m == c) && starts_with mark cs

unfoldable pub replace : Text → Text → ℕ → Text → Text
unfolding starts_with
replace mark blob skip [] = []
replace mark blob (suc skip) (c ∷ cs) = replace mark blob skip cs
replace mark blob zero (c ∷ cs) =
    if starts_with mark (c ∷ cs)
    then blob ++ replace mark blob (length mark - 1) cs
    else c ∷ replace mark blob 0 cs

-- `__PAYLOAD__`
abbrev pub payload_mark : Text
payload_mark = 95 ∷ 95 ∷ 80 ∷ 65 ∷ 89 ∷ 76 ∷ 79 ∷ 65 ∷ 68 ∷ 95 ∷ 95 ∷ []

-- a pin on the time axis
pub record Marker : Type 0 where
  pub t : ℤ
  pub label : Text
  pub side : Option Text

-- what the page shows; without a note the code puts in its default
pub record Payload (F : Type 0) : Type 0 where
  pub symbol : Text
  pub bar_seconds : ℤ
  pub range : Text
  pub n : ℕ
  pub note : Option Text
  pub ohlcv : List (Ohlcv F)
  pub markers : List Marker
  pub sma : ℤ

-- `render_html`, where `dumps` is `json.dumps` of the payload in its compact form
unfoldable pub render_html :
    {F : Type 0}
    → (Payload F → Text)
    → (symbol range : Text) → (bar_seconds sma : ℤ) → List Marker
    → Option Text
    → List (Ohlcv F)
    → Text
    → Text
unfolding escape replace
render_html {F = F} dumps symbol range bar_seconds sma markers note records template =
    let payload : Payload F = record {
      symbol = symbol;
      bar_seconds = bar_seconds;
      range = range;
      n = length records;
      note = note;
      ohlcv = records;
      markers = markers;
      sma = sma;
    } in
    replace payload_mark (escape (dumps payload)) 0 template

-- the markers of `main` in the window mode
unfoldable pub center_marker : ℤ → Text → Option Text → List Marker → List Marker
center_marker center_ms label side markers =
    markers ++ record { t = center_ms; label = label; side = side } ∷ []
