-- ===== src/Tests/Balances.antt =====
-- The theorems on matchengine/src/me_balance.c and on the profits of matchengine/src/me_market.c,
-- applied to concrete amounts.
use viabtc_future.Prelude.{◌≡◌, refl, arith}
use viabtc_future.Prelude.Int.{pos}
use viabtc_future.Decimal.{add}
use viabtc_future.Dict.{nat_eq}
use viabtc_future.Balance.{
  key_eq, key, balance_freeze, balance_unfreeze, balance_set, balance_add, balance_sub,
  available_type,
}
use viabtc_future.Balance.Invariant.{IsValid, balance_ops-IsValid}
use viabtc_future.Balance.Moves.{unfreeze-freeze, held}
use viabtc_future.Market.Pnl.{get_pnl, get_part_pnl}
use viabtc_future.Market.Pnl.Laws.{get_pnl_signed}
use viabtc_future.Tests.Data.{
  exact, exact-RoundsDown, exact-IsExact, exact-SignBlind, balances, two_places, long,
}

balances-IsValid : IsValid balances
balances-IsValid = record {
  distinct = (refl, (refl, tt));
  nonneg = (omega arith, (omega arith, tt));
}

-- 30 of the 100 that user 7 has are frozen.
balance_ops-IsValid_example :
    IsValid (balance_set exact 7 available_type 1 (pos 30) balances).1
    × IsValid (balance_add exact 7 available_type 1 (pos 30) balances).1
    × IsValid (balance_sub exact 7 available_type 1 (pos 30) balances).1
    × IsValid (balance_freeze exact 7 1 (pos 30) balances).1
    × IsValid (balance_unfreeze exact 7 1 (pos 30) balances).1
balance_ops-IsValid_example =
    balance_ops-IsValid exact exact-RoundsDown 7 available_type 1 (pos 30) balances balances-IsValid

unfreeze-freeze_example :
    held
      (key 8 available_type 1)
      (balance_unfreeze exact 7 1 (pos 30) (balance_freeze exact 7 1 (pos 30) balances).1).1
    ≡ held (key 8 available_type 1) balances
unfreeze-freeze_example =
    unfreeze-freeze exact 7 1 two_places (pos 30) (pos 100) balances refl (omega arith) refl
      (omega arith) (omega arith) (exact-IsExact _ _) (exact-IsExact _ _) (exact-IsExact _ _)
      (exact-IsExact _ _) (key 8 available_type 1)

get_pnl_signed_example :
    get_pnl exact long (pos 6)
    ≡ add exact (get_part_pnl exact long (add exact (pos 5) (pos 1)) (pos 6)) (pos 6)
get_pnl_signed_example = get_pnl_signed exact long (pos 6) exact-SignBlind
