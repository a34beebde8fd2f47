-- ===== src/Kline.antt =====
-- marketprice/src/mp_kline.c: a candlestick, made of the first price of an interval, updated by each
-- deal, and merged into a longer interval. The JSON of `kline_from_str` and `kline_to_str` is left
-- out.
pub mod Laws
use viabtc_future.Prelude.{if◌then◌else◌}
use viabtc_future.Prelude.Int.{ℤ, pos, ltb_ℤ}
use viabtc_future.Decimal.{Decimal}
use viabtc_future.Decimal

-- `struct kline_info`.
pub record KlineInfo : Type 0 where
  pub open_ : ℤ
  pub close : ℤ
  pub high : ℤ
  pub low : ℤ
  pub volume : ℤ
  pub deal : ℤ

unfoldable pub kline_info_new : ℤ → KlineInfo
kline_info_new first = record {
  open_ = first;
  close = first;
  high = first;
  low = first;
  volume = pos 0;
  deal = pos 0;
}

module _ (d : Decimal) where
  unfoldable pub kline_info_update : KlineInfo → ℤ → ℤ → KlineInfo
  kline_info_update info price amount = record info {
    close = price;
    volume = Decimal.add d info.volume amount;
    deal = Decimal.add d info.deal (d.mul price amount);
    high = if ltb_ℤ info.high price then price else info.high;
    low = if ltb_ℤ price info.low then price else info.low;
  }

  unfoldable pub kline_info_merge : KlineInfo → KlineInfo → KlineInfo
  kline_info_merge info update = record info {
    close = update.close;
    volume = Decimal.add d info.volume update.volume;
    deal = Decimal.add d info.deal update.deal;
    high = if ltb_ℤ info.high update.high then update.high else info.high;
    low = if ltb_ℤ update.low info.low then update.low else info.low;
  }
