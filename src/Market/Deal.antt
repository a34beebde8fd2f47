-- ===== src/Market/Deal.antt =====
-- One deal between two orders: `adjustOrder`, `adjustPosition`, `adjustBalance` and
-- `execute_order_open_imp` of matchengine/src/me_market.c, over the struct of
-- matchengine/inc/me_deal.h. The taker's and the maker's half of each function are the same code
-- on other fields, so a half is one definition over the fields of one party.
pub mod Frame
use viabtc_future.Prelude.{
  ℕ, ◌+◌, ◌%◌, ◌^◌, Bool, true, false, not, ◌&&◌, Option, none, some, List, [], ◌∷◌, ◌++◌,
  if◌then◌else◌, ◌==◌,
}
use viabtc_future.Prelude.Int.{ℤ, pos, ◌-ℤ◌, eqb_ℤ}
use viabtc_future.Decimal.{Decimal}
use viabtc_future.Decimal
use viabtc_future.Balance.{Balances, available_type, balance_add, balance_sub, balance_unfreeze}
use viabtc_future.Market.Defs.{
  Order, Position, Market, Engine, Event, position_message, balance_history, deal_message,
  deal_history, bear, bull, sells,
}
use viabtc_future.Market.Book.{emit}
use viabtc_future.Market.Pnl.{
  get_position, add_position, del_position, write_position, get_pnl, get_part_pnl,
}

-- The fields of `deal_t` for one party: its order, `_fee`, `_priAmount`, `_PNL` and the partial
-- profit, the last two NULL at first.
pub record Party : Type 0 where
  pub order : Order
  pub fee : ℤ
  pub pri_amount : ℤ
  pub pnl : Option ℤ
  pub part_pnl : Option ℤ

-- `initDeal` with the order set.
abbrev pub new_party : Order → Party
new_party o = record { order = o; fee = pos 0; pri_amount = pos 0; pnl = none; part_pnl = none }

-- What both parties share: `real`, `amount`, `price` and `deal`, the sum of money.
pub record Terms : Type 0 where
  pub real : Bool
  pub amount : ℤ
  pub price : ℤ
  pub deal : ℤ

abbrev pub opposite : ℕ → ℕ
opposite side = if side == bull then bear else bull

-- `push_position_message`: the position, and the one on the other side if it is there.
abbrev pub push_position_message : Bool → Position → Engine → Engine
push_position_message real p e =
    let e' = emit real (position_message p) e in
    elim (get_position p.user_id p.market (opposite p.side) e) [
      | none ↦ e'
      | some q ↦ emit real (position_message q) e'
    ]

module _ (d : Decimal) where
  -- One half of `adjustOrder`, at the fee rate of the party's role.
  unfoldable pub adjust_order : Terms → ℤ → Party → Party
  adjust_order t rate s =
      let o = s.order in
      let fee = d.mul t.amount rate in
      let pri_amount = d.div t.amount o.leverage in
      record s {
        fee = fee;
        pri_amount = pri_amount;
        order = record o {
          left = Decimal.sub d o.left t.amount;
          deal_fee = Decimal.add d o.deal_fee fee;
          deal_stock = Decimal.add d o.deal_stock (Decimal.sub d pri_amount fee);
          deal_money = Decimal.add d o.deal_money t.deal;
        };
      }

  -- The position that a party without one gets, as `initPosition` and the lines after it fill it.
  abbrev pub opened : Terms → Party → ℕ → Position
  opened t s id = record {
    id = id % 2 ^ 32;
    user_id = s.order.user_id;
    market = s.order.market;
    side = s.order.side;
    pattern = s.order.pattern;
    leverage = s.order.leverage;
    position = t.amount;
    frozen = pos 0;
    price = t.price;
    principal = Decimal.sub d (d.div t.amount s.order.leverage) s.fee;
  }

  -- An opening deal on a position that is there: the price becomes the mean of the two.
  unfoldable pub grow : Terms → Party → Position → Position
  grow t s p =
      let total_position = Decimal.add d p.frozen p.position in
      let sum = d.mul p.price total_position in
      record p {
        principal = Decimal.sub d (Decimal.add d p.principal s.pri_amount) s.fee;
        price = d.div (Decimal.add d t.deal sum) (Decimal.add d t.amount total_position);
        position = Decimal.add d p.position t.amount;
      }

  -- A closing deal: the share of the margin with its profit is paid out, and the frozen part of
  -- the position shrinks.
  unfoldable pub shrink : Terms → Party → Position → Party × Position
  shrink t s p =
      let total_position = Decimal.add d p.frozen p.position in
      let whole = Decimal.add d p.position p.frozen in
      let part = get_part_pnl d p t.amount t.price in
      let pnl = d.div (d.mul (get_pnl d p t.price) t.amount) whole in
      let pri_amount = d.div (d.mul t.amount p.principal) total_position in
      let principal = Decimal.sub d p.principal pri_amount in
      let rest = Decimal.sub d total_position t.amount in
      (
        record s {
          order = record (s.order) { pnl = Decimal.add d s.order.pnl part };
          pri_amount = pri_amount;
          pnl = some pnl;
          part_pnl = some part;
        },
        if eqb_ℤ rest (pos 0)
            then record p { principal = principal; frozen = pos 0; position = pos 0 }
            else record p { principal = principal; frozen = Decimal.sub d p.frozen t.amount },
      )

  -- The lines behind the two branches: the messages, and the end of an empty position.
  abbrev pub settle_position : Bool → Position → Engine → Engine
  settle_position real p e =
      let e' = push_position_message real p e in
      if eqb_ℤ p.position (pos 0) && eqb_ℤ p.frozen (pos 0)
      then del_position p.user_id p.market p.side e'
      else e'

  -- One half of `adjustPosition`.
  unfoldable pub adjust_position : Terms → Party → Engine → Party × Engine
  adjust_position t s e =
      let o = s.order in
      elim (get_position o.user_id o.market o.side e) [
        | none ↦
            let id = (e.position_id_start + 1) % 2 ^ 64 in
            let p = opened t s id in
            (
              s,
              settle_position t.real p
                  (add_position o.user_id o.market o.side p (record e { position_id_start = id })),
            )
        | some p ↦
            if o.oper_type == 1
            then (
              s,
              settle_position t.real (grow t s p)
                  (write_position o.user_id o.market o.side (grow t s p) e),
            )
            else let (s', p') = shrink t s p in
              (s', settle_position t.real p' (write_position o.user_id o.market o.side p' e))
      ]

  abbrev pub with_balances : (Balances → Option ℤ × Balances) → Engine → Engine
  with_balances f e = record e { balances = (f e.balances).1 }

  -- One half of `adjustBalance`; the results of the balance calls are not looked at. `paid` is
  -- false for the taker of a liquidation, whose closing moves no balance. A NULL profit, which
  -- the code would dereference, credits nothing.
  unfoldable pub adjust_balance : Terms → Bool → Party → Engine → Party × Engine
  adjust_balance t paid s e =
      let o = s.order in
      let money = e.market.money in
      if o.oper_type == 1
      then (let released =
            if o.type == 1
            then with_balances (balance_unfreeze d o.user_id money s.pri_amount) e
            else e in
          let charged =
            with_balances (balance_sub d o.user_id available_type money s.pri_amount) released in
          (
            record s { order = record o { freeze = Decimal.sub d o.freeze s.pri_amount } },
            emit t.real (balance_history o.user_id money (pos 0 -ℤ s.pri_amount)) charged,
          ))
      else if paid
      then elim s.pnl [
        | none ↦ (s, e)
        | some pnl ↦
            let credited = with_balances (balance_add d o.user_id available_type money pnl) e in
            let charged =
              with_balances (balance_sub d o.user_id available_type money s.fee) credited in
            (
              s,
              emit t.real (balance_history o.user_id money (pos 0 -ℤ s.fee))
                  (emit t.real (balance_history o.user_id money pnl) charged),
            )
      ]
      else (s, e)

  -- The history and the message of the deal, seller first.
  abbrev pub record_deal : Terms → Party → Party → Engine → Engine
  record_deal t taker maker e =
      let id = e.deals_id_start in
      let history = λ (ask bid : Order).
        deal_history ask bid t.price t.amount t.deal taker.fee maker.fee taker.part_pnl
          maker.part_pnl id in
      let message =
        λ (ask bid : Order). deal_message ask bid t.price t.amount taker.fee maker.fee id in
      if sells taker.order
      then emit t.real (message taker.order maker.order)
          (emit t.real (history taker.order maker.order) e)
      else emit t.real (message maker.order taker.order)
          (emit t.real (history maker.order taker.order) e)

  -- `execute_order_open_imp`: the taker's and the maker's order after the deal, and the state.
  unfoldable pub execute_order_open_imp : Terms → Order → Order → Engine → Order × Order × Engine
  execute_order_open_imp t taker maker e =
      let t₁ = adjust_order t taker.taker_fee (new_party taker) in
      let m₁ = adjust_order t maker.maker_fee (new_party maker) in
      let (t₂, e₁) = adjust_position t t₁ e in
      let (m₂, e₂) = adjust_position t m₁ e₁ in
      let (t₃, e₃) = adjust_balance t (not taker.isblast) t₂ e₂ in
      let (m₃, e₄) = adjust_balance t true m₂ e₃ in
      let e₅ = record e₄ { deals_id_start = (e₄.deals_id_start + 1) % 2 ^ 64 } in
      (t₃.order, m₃.order, record_deal t t₃ m₃ e₅)
