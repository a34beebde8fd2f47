-- ===== src/Tests/Klines.antt =====
-- Candlesticks of a few deals (marketprice/src/mp_kline.c).
use viabtc_future.Prelude.{◌≡◌, refl, [], ◌∷◌, List, arith}
use viabtc_future.Prelude.Int.{ℤ, pos, ◌+ℤ◌, ◌*ℤ◌}
use viabtc_future.Kline.{KlineInfo, kline_info_new, kline_info_update, kline_info_merge}
use viabtc_future.Kline.Laws.{IsKline, interval, candle_ops-IsKline}
use viabtc_future.Tests.Data.{exact}

abbrev morning : List (ℤ × ℤ)
morning = (pos 12, pos 1) ∷ (pos 8, pos 2) ∷ []

abbrev evening : List (ℤ × ℤ)
evening = (pos 15, pos 1) ∷ []

candle : interval exact (pos 10) (pos 3) morning ≡ record {
  open_ = pos 10;
  close = pos 8;
  high = pos 12;
  low = pos 8;
  volume = pos 6;
  deal = pos 58;
}
unfolding kline_info_new kline_info_update ◌+ℤ◌ ◌*ℤ◌
candle = refl

-- A candlestick from 10 to 12, with 8 as the lowest price.
abbrev tall : KlineInfo
tall = record {
  open_ = pos 10;
  close = pos 12;
  high = pos 12;
  low = pos 8;
  volume = pos 6;
  deal = pos 58;
}

tall-IsKline : IsKline tall
tall-IsKline = record {
  low_open = omega arith;
  open_high = omega arith;
  low_close = omega arith;
  close_high = omega arith;
}

candle_ops-IsKline_example :
    IsKline (kline_info_new (pos 7))
    × IsKline (kline_info_update exact tall (pos 7) (pos 1))
    × IsKline (kline_info_merge exact tall tall)
candle_ops-IsKline_example =
    candle_ops-IsKline exact tall tall (pos 7) (pos 1) tall-IsKline tall-IsKline
