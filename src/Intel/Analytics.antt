-- ===== src/Intel/Analytics.antt =====
-- `buildAnalyticsPayload` of internal/intel/engine.go.
use ssh_arena.Prelude.{ℕ, String, Bool, not, List, [], ◌∷◌, if◌then◌else◌}
use ssh_arena.Prelude.Int.{ℤ, add64, div64, is_positive, is_negative}
use ssh_arena.Prelude.Text.{is_empty}
use ssh_arena.Prelude.Outcome.{Outcome, ok, err}
use ssh_arena.MarketEvents.{Range, ticker_at}
use ssh_arena.Intel.Feeds.{Definition, IntelError, no_tickers, no_price}

pub data Bias : Type 0 where
  mixed bullish bearish : Bias

-- The parts of an analytics report that are worked out.
pub record Report : Type 0 where
  pub symbol : String
  pub bias : Bias
  pub average : ℤ

unfoldable pub bias_of : Range → Bias × ℤ
unfolding div64
bias_of r =
    let average = div64 (add64 r.low r.high) 2 in
    (
      if is_positive average then bullish else if is_negative average then bearish else mixed,
      average,
    )

-- The symbol of a report; `i` is the random index into the tickers.
unfoldable pub report_symbol : ℕ → Definition → List String → String
report_symbol i d tickers =
    if not (is_empty d.ticker)
    then d.ticker
    else if d.global
    then ticker_at tickers 0
    else ticker_at tickers i

-- `buildAnalyticsPayload`; `has_chart` says which symbols have a chart.
unfoldable pub build_analytics :
    (String → Bool) → ℕ → List String → Definition → Outcome IntelError Report
unfolding bias_of report_symbol
build_analytics has_chart i [] d = err no_tickers
build_analytics has_chart i (t ∷ ts) d =
    let symbol = report_symbol i d (t ∷ ts) in
    let (bias, average) = bias_of d.multiplier in
    if has_chart symbol
    then ok (record { symbol = symbol; bias = bias; average = average })
    else err no_price
