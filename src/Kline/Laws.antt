-- ===== src/Kline/Laws.antt =====
-- The prices of a candlestick (marketprice/src/mp_kline.c), over its deals and over mergers.
use viabtc_future.Prelude.{◌≡◌, refl, sym, List, [], ◌∷◌, ◌++◌, arith}
use mathlib.Core.Path.{subst}
use viabtc_future.Prelude.Int.{ℤ, ◌≤ℤ◌, eq_of_parts}
use viabtc_future.Decimal.{Decimal}
use viabtc_future.Kline.{KlineInfo, kline_info_new, kline_info_update, kline_info_merge}

-- The first and the last price lie between the lowest and the highest.
pub record IsKline (k : KlineInfo) : Type 0 where
  pub low_open : k.low ≤ℤ k.open_
  pub open_high : k.open_ ≤ℤ k.high
  pub low_close : k.low ≤ℤ k.close
  pub close_high : k.close ≤ℤ k.high

-- The four prices are the same.
pub record SamePrices (j k : KlineInfo) : Type 0 where
  pub open_ : j.open_ ≡ k.open_
  pub close : j.close ≡ k.close
  pub high : j.high ≡ k.high
  pub low : j.low ≡ k.low

module _ (d : Decimal) where
  -- The deals of an interval, prices and amounts.
  abbrev pub update_all : List (ℤ × ℤ) → KlineInfo → KlineInfo
  update_all [] k = k
  update_all ((price, amount) ∷ deals) k = update_all deals (kline_info_update d k price amount)

  -- The candlestick of the deals that start with this one.
  abbrev pub interval : ℤ → ℤ → List (ℤ × ℤ) → KlineInfo
  interval price amount deals = update_all ((price, amount) ∷ deals) (kline_info_new price)

  update-IsKline :
      (k : KlineInfo) (price amount : ℤ) → IsKline k → IsKline (kline_info_update d k price amount)
  unfolding kline_info_update
  update-IsKline k price amount h = record {
    low_open = ground (arith, h.low_open);
    open_high = ground (arith, h.open_high);
    low_close = ground (arith, h.low_close);
    close_high = ground (arith, h.close_high);
  }

  merge-IsKline : (k j : KlineInfo) → IsKline k → IsKline j → IsKline (kline_info_merge d k j)
  unfolding kline_info_merge
  merge-IsKline k j h i = record {
    low_open = ground (arith, h.low_open, i.low_close);
    open_high = ground (arith, h.open_high, i.close_high);
    low_close = ground (arith, h.low_close, i.low_close);
    close_high = ground (arith, h.close_high, i.close_high);
  }

  merge_new :
      (k : KlineInfo) (price amount : ℤ)
      → SamePrices
          (kline_info_merge d k (kline_info_update d (kline_info_new price) price amount))
          (kline_info_update d k price amount)
  unfolding kline_info_merge kline_info_update kline_info_new
  merge_new k price amount = record {
    open_ = refl;
    close = refl;
    high = ground arith;
    low = ground arith;
  }

  merge_update :
      (k j l : KlineInfo) (price amount : ℤ)
      → SamePrices (kline_info_merge d k j) l
      → SamePrices
          (kline_info_merge d k (kline_info_update d j price amount))
          (kline_info_update d l price amount)
  unfolding kline_info_merge kline_info_update
  merge_update k j l price amount h = record {
    open_ = h.open_;
    close = refl;
    high = ground (arith, h.high, eq_of_parts l.high price);
    low = ground (arith, h.low);
  }

  merge_all :
      (k j l : KlineInfo) (deals : List (ℤ × ℤ))
      → SamePrices (kline_info_merge d k j) l
      → SamePrices (kline_info_merge d k (update_all deals j)) (update_all deals l)
  merge_all k j l [] h = h
  merge_all k j l ((price, amount) ∷ deals) h =
      merge_all k (kline_info_update d j price amount) (kline_info_update d l price amount) deals
        (merge_update k j l price amount h)

  update_all-append :
      (xs ys : List (ℤ × ℤ)) (k : KlineInfo)
      → update_all (xs ++ ys) k ≡ update_all ys (update_all xs k)
  update_all-append [] ys k = refl
  update_all-append ((price, amount) ∷ xs) ys k =
      update_all-append xs ys (kline_info_update d k price amount)

  -- Merging the candlesticks of two intervals gives the four prices of one candlestick that has seen
  -- all the deals of the first and then all of the second.
  merge-interval :
      (price amount price' amount' : ℤ) (deals deals' : List (ℤ × ℤ))
      → SamePrices
          (kline_info_merge d (interval price amount deals) (interval price' amount' deals'))
          (interval price amount (deals ++ (price', amount') ∷ deals'))
  merge-interval price amount price' amount' deals deals' =
      let first = interval price amount deals in
      subst (SamePrices (kline_info_merge d first (interval price' amount' deals')))
        (sym (
          update_all-append ((price, amount) ∷ deals) ((price', amount') ∷ deals')
            (kline_info_new price)))
        (merge_all first (kline_info_update d (kline_info_new price') price' amount')
          (kline_info_update d first price' amount') deals' (merge_new first price' amount'))

  -- In a new candlestick, and after each update and each merger of such, the first and the last price
  -- lie between the lowest and the highest.
  pub candle_ops-IsKline :
      (k j : KlineInfo) (price amount : ℤ)
      → IsKline k
      → IsKline j
      → IsKline (kline_info_new price)
        × IsKline (kline_info_update d k price amount)
        × IsKline (kline_info_merge d k j)
  unfolding kline_info_new
  candle_ops-IsKline k j price amount h i = (
    record {
      low_open = omega arith;
      open_high = omega arith;
      low_close = omega arith;
      close_high = omega arith;
    },
    update-IsKline k price amount h,
    merge-IsKline k j h i,
  )
