-- ===== src/Tests/Data.antt =====
-- Exact arithmetic in place of libmpdec, and a small market: user 7 sells 5 at 10, user 8 bids 4
-- at 8.
use viabtc_future.Prelude.{ℕ, ◌+◌, ◌*◌, ◌/◌, ◌≡◌, refl, true, false, [], ◌∷◌, arith}
use viabtc_future.Prelude.Int.{ℤ, pos, pos_part, neg_part, sub_ℕ, ◌-ℤ◌, ◌*ℤ◌}
use viabtc_future.Decimal.{Decimal, RoundsDown, IsExact}
use viabtc_future.Balance.{AssetType, Balances, key, available_type}
use viabtc_future.Market.Defs.{Order, Position, Market, Engine}
use viabtc_future.Market.Put.{Args}
use viabtc_future.Market.Pnl.Laws.{SignBlind}

-- The quotient, rounded toward zero.
unfoldable pub quotient : ℤ → ℤ → ℤ
quotient a b =
    sub_ℕ (pos_part a / pos_part b + neg_part a / neg_part b)
      (neg_part a / pos_part b + pos_part a / neg_part b)

abbrev pub exact : Decimal
exact = record {
  round = λ x. x;
  mul = λ x y. x *ℤ y;
  div = λ x y. quotient x y;
  rescale = λ e x. x;
  one = pos 1;
  is_integer = λ x. true;
}

pub exact-RoundsDown : RoundsDown exact
exact-RoundsDown = record {
  round_nonneg = λ x h. h;
  rescale_nonneg = λ x e h. h;
  round_le = λ x h. omega arith;
  rescale_le = λ x e h. omega arith;
}

pub exact-IsExact : (e x : ℤ) → IsExact exact e x
exact-IsExact e x = record { rounded = refl; rescaled = refl }

flip_sub : (a b : ℕ) → sub_ℕ b a ≡ pos 0 -ℤ sub_ℕ a b
unfolding ◌-ℤ◌
flip_sub a b = ground arith

flip_pos : (x : ℤ) → pos_part (pos 0 -ℤ x) ≡ neg_part x
unfolding ◌-ℤ◌
flip_pos x = ground arith

flip_neg : (x : ℤ) → neg_part (pos 0 -ℤ x) ≡ pos_part x
unfolding ◌-ℤ◌
flip_neg x = ground arith

mul_neg : (x y : ℤ) → (pos 0 -ℤ x) *ℤ y ≡ pos 0 -ℤ x *ℤ y
unfolding ◌*ℤ◌
mul_neg x y =
    rw (flip_pos x, flip_neg x)
      (rw
        (← flip_sub (pos_part x * pos_part y + neg_part x * neg_part y)
          (pos_part x * neg_part y + neg_part x * pos_part y))
        (ground arith))

div_neg : (x y : ℤ) → quotient (pos 0 -ℤ x) y ≡ pos 0 -ℤ quotient x y
unfolding quotient
div_neg x y =
    rw (flip_pos x, flip_neg x)
      (rw
        (← flip_sub (pos_part x / pos_part y + neg_part x / neg_part y)
          (neg_part x / pos_part y + pos_part x / neg_part y))
        refl)

pub exact-SignBlind : SignBlind exact
exact-SignBlind = record { round_neg = λ x. refl; mul_neg = mul_neg; div_neg = div_neg }

abbrev pub two_places : AssetType
two_places = record { prec_save = pos 2; prec_show = pos 2 }

abbrev pub balances : Balances
balances = record {
  assets = (1, two_places) ∷ [];
  entries = (key 7 available_type 1, pos 100) ∷ (key 8 available_type 1, pos 90) ∷ [];
}

-- An opening limit order of leverage 1 without fees: id, user, side, price, amount.
abbrev pub limit_order : ℕ → ℕ → ℕ → ℤ → ℤ → Order
limit_order id user side price amount = record {
  id = id;
  type = 1;
  isblast = false;
  side = side;
  pattern = 1;
  oper_type = 1;
  user_id = user;
  market = 3;
  relate_order = 0;
  price = price;
  amount = amount;
  leverage = pos 1;
  trigger = pos 0;
  current_price = pos 0;
  taker_fee = pos 0;
  maker_fee = pos 0;
  tp_price = pos 0;
  tp_amount = pos 0;
  sl_price = pos 0;
  sl_amount = pos 0;
  left = amount;
  freeze = amount;
  deal_stock = pos 0;
  deal_money = pos 0;
  pnl = pos 0;
  deal_fee = pos 0;
  mm = 0;
}

abbrev pub ask : Order
ask = limit_order 1 7 1 (pos 10) (pos 5)

abbrev pub bid : Order
bid = limit_order 2 8 2 (pos 8) (pos 4)

abbrev pub market : Market
market = record {
  name = 3;
  stock = 2;
  money = 1;
  stock_prec = pos 2;
  money_prec = pos 2;
  fee_prec = pos 2;
  min_amount = pos 1;
  latest_price = pos 9;
  orders = 1 ∷ 2 ∷ [];
  users = (7, 1 ∷ []) ∷ (8, 2 ∷ []) ∷ [];
  asks = ask ∷ [];
  bids = bid ∷ [];
  plan_asks = [];
  plan_bids = [];
}

abbrev pub engine : Engine
engine = record {
  balances = balances;
  positions = [];
  modes = [];
  user_orders = (7, 1 ∷ []) ∷ (8, 2 ∷ []) ∷ [];
  market = market;
  configured = 3 ∷ [];
  other_price = λ name. pos 0;
  order_id_start = 2;
  deals_id_start = 0;
  position_id_start = 0;
  events = [];
}

abbrev pub long : Position
long = record {
  id = 1;
  user_id = 7;
  market = 3;
  side = 2;
  pattern = 1;
  leverage = pos 1;
  position = pos 5;
  frozen = pos 1;
  price = pos 2;
  principal = pos 6;
}

abbrev pub short : Position
short = record long { user_id = 8; side = 1 }

-- A cheaper and newer ask, and a bid that takes all of the ask of the market.
abbrev pub ask' : Order
ask' = limit_order 3 8 1 (pos 9) (pos 2)

abbrev pub bid' : Order
bid' = limit_order 3 8 2 (pos 12) (pos 7)

-- User 8 bids 12 for 7, which takes the ask of the market; or closes 7, without a position.
abbrev pub request : Args
request = record {
  user_id = 8;
  direction = 2;
  type = 1;
  pattern = 1;
  trigger_price = pos 0;
  entrust_price = pos 12;
  leverage = pos 1;
  volume = pos 7;
  taker_fee_rate = pos 0;
  maker_fee_rate = pos 0;
  real = true;
  tp_price = pos 0;
  tp_amount = pos 0;
  sl_price = pos 0;
  sl_amount = pos 0;
}

-- A plan order to buy 7 at 12 once the price is 9, and a take-profit order.
abbrev pub waiting : Order
waiting = record (limit_order 3 8 2 (pos 12) (pos 7)) {
  type = 2;
  trigger = pos 9;
  current_price = pos 9;
  tp_amount = pos 0;
  sl_amount = pos 0;
}

abbrev pub take_profit : Order
take_profit = record waiting { type = 3; oper_type = 2 }

-- A stop-loss at 5 for a long, without a take-profit and without a price.
abbrev pub stop_loss : Args
stop_loss = record request { type = 3; entrust_price = pos 0; sl_price = pos 5; sl_amount = pos 2 }
