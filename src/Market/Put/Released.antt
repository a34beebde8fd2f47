-- ===== src/Market/Put/Released.antt =====
-- A closing order that `market_put_order_close` has accepted and `market_cancel_order` cancels
-- (matchengine/src/me_market.c).
use viabtc_future.Prelude.{
  Bool, true, ◌≡◌, refl, ap, ◌∙◌, [], some, inl, inr, Option-cases, arith, ◌==◌,
}
use viabtc_future.Prelude.Int.{pos, ◌<ℤ◌, ◌+ℤ◌, ◌-ℤ◌, add_sub_cancel, sub_add_cancel}
use viabtc_future.Decimal.{Decimal, add, sub}
use viabtc_future.Dict.{Dict, find, assign}
use viabtc_future.Dict.Laws.{find-assign}
use viabtc_future.Market.Defs.{
  Order, OrderEvent, order_message, Engine, Position, PositionKey, limit_type,
}
use viabtc_future.Market.Book.{book, emit, order_put_future}
use viabtc_future.Market.Pnl.{position_key_eq, position_key_beq_iff, get_position, position_key}
use viabtc_future.Market.Match.{matched_side, execute_order, market_cancel_order, release_position}
use viabtc_future.Market.Match.Closing.{
  emit-positions, finish-positions, put-positions, cancel_closing, execute_waiting,
}
use viabtc_future.Market.Put.{
  Args, Reply, freeze_position, init_order, close_error, market_put_order_close,
}

-- Writing another value and then the old one changes no lookup.
rewrite_back :
    (j k : PositionKey) (p q : Position) (d : Dict PositionKey Position)
    → find k d ≡ some p
    → find j (assign k p (assign k q d)) ≡ find j d
rewrite_back j k p q d h =
    ground (arith, find-assign j k p (assign k q d), find-assign j k q d, position_key_beq_iff k j)

-- The order that the request makes.
abbrev pub closing_order : Args → Position → Engine → Order
closing_order a p e = (init_order 2 (record a { leverage = p.leverage }) e).0

module _ (d : Decimal) (a : Args) (p : Position) (e : Engine)
    (held : get_position a.user_id e.market.name a.direction e ≡ some p)
    (now_ : a.type ≡ limit_type) (x1 : d.round (p.frozen +ℤ a.volume) ≡ p.frozen +ℤ a.volume)
    (x2 : d.round (p.position -ℤ a.volume) ≡ p.position -ℤ a.volume)
    (x3 : d.round p.frozen ≡ p.frozen) (x4 : d.round p.position ≡ p.position) where
  abbrev key : PositionKey
  key = position_key a.user_id e.market.name a.direction

  abbrev frozen_part : Position
  frozen_part = record p { frozen = add d p.frozen a.volume; position = sub d p.position a.volume }

  abbrev given_back : Position
  given_back = record frozen_part {
    frozen = sub d frozen_part.frozen a.volume;
    position = add d frozen_part.position a.volume;
  }

  back_frozen : sub d (add d p.frozen a.volume) a.volume ≡ p.frozen
  back_frozen = rw x1 (ap d.round (add_sub_cancel p.frozen a.volume) ∙ x3)

  back_position : add d (sub d p.position a.volume) a.volume ≡ p.position
  back_position = rw x2 (ap d.round (sub_add_cancel p.position a.volume) ∙ x4)

  given_back_same : given_back ≡ p
  given_back_same = rw (back_frozen, back_position) refl

  -- The state in which the order is matched.
  abbrev frozen_state : Engine
  frozen_state = (init_order 2 (record a { leverage = p.leverage }) (freeze_position d a p e)).1

  frozen_state-positions : frozen_state.positions ≡ assign key frozen_part e.positions
  frozen_state-positions = ground (arith, now_)

  frozen_state-market : frozen_state.market ≡ e.market
  frozen_state-market = ground (arith, now_)

  -- An accepted request is matched with its part of the position frozen.
  accepted :
      (market_put_order_close d a e).0 ≡ Reply.done
      → (market_put_order_close d a e).1
        ≡ execute_order d a.real a.direction (closing_order a p e) frozen_state
  unfolding market_put_order_close
  accepted done = elim (Option-cases (close_error d a e.market.latest_price)) [
    | inl fine ↦ ground (arith, fine, held, done, now_)
    | inr (code, bad) ↦ absurd (ground (arith, done, bad))
  ]

  released :
      (y : Engine)
      → y.positions ≡ assign key frozen_part e.positions
      → (release_position d (closing_order a p e) y).positions
        ≡ assign key p (assign key frozen_part e.positions)
  released y at =
      let found : find key y.positions ≡ some frozen_part =
        ap (find key) at
        ∙ ground
            (arith, find-assign key key frozen_part e.positions, position_key_beq_iff key key) in
      rw (release_position, found)
        (ap (assign key given_back) at
          ∙ ap (λ q. assign key q (assign key frozen_part e.positions)) given_back_same)

-- A request to close a part of a position by a limit order is accepted, and nobody is on the other
-- side of the book. Cancelling the order then succeeds and gives that part back: every position of
-- every user is looked up as before the request. The two sizes of the position need no rounding
-- before and after the freeze.
pub cancel-close :
    (d : Decimal) (a : Args) (p : Position) (e : Engine) (real : Bool)
    → get_position a.user_id e.market.name a.direction e ≡ some p
    → a.type ≡ limit_type
    → (market_put_order_close d a e).0 ≡ Reply.done
    → book (matched_side (a.direction == 2)) e.market ≡ []
    → pos 0 <ℤ a.volume
    → d.round (p.frozen +ℤ a.volume) ≡ p.frozen +ℤ a.volume
    → d.round (p.position -ℤ a.volume) ≡ p.position -ℤ a.volume
    → d.round p.frozen ≡ p.frozen
    → d.round p.position ≡ p.position
    → (k : PositionKey)
    → let (done, e') =
        market_cancel_order d real (closing_order a p e) (market_put_order_close d a e).1 in
      (done ≡ true) × (find k e'.positions ≡ find k e.positions)
cancel-close d a p e real held now_ done empty some_left x1 x2 x3 x4 k =
    let j : PositionKey = position_key a.user_id e.market.name a.direction in
    let o = closing_order a p e in
    let q = frozen_part d a p e held now_ x1 x2 x3 x4 in
    let x = frozen_state d a p e held now_ x1 x2 x3 x4 in
    let put = order_message OrderEvent.put o in
    let finish = order_message OrderEvent.finish o in
    let market : x.market ≡ e.market = frozen_state-market d a p e held now_ x1 x2 x3 x4 in
    let resting : (market_put_order_close d a e).1 ≡ (order_put_future o (emit a.real put x)).1 =
      accepted d a p e held now_ x1 x2 x3 x4 done
      ∙ execute_waiting d a.real a.direction o x now_
          (ap (book (matched_side (a.direction == 2))) market ∙ empty) in
    let w = (market_put_order_close d a e).1 in
    let w-positions : w.positions ≡ assign j q e.positions =
      ap (λ (y : Engine). y.positions) resting
      ∙ put-positions o (emit a.real put x)
      ∙ emit-positions a.real put x
      ∙ frozen_state-positions d a p e held now_ x1 x2 x3 x4 in
    let cancelled = cancel_closing d real o w refl (ground (arith, some_left)) in
    let y = emit real finish w in
    (
      ap (λ r. r.0) cancelled,
      ap (λ (r : Bool × Engine). find k r.1.positions) cancelled
          ∙ ap (find k) (
              finish-positions real o (release_position d o y)
              ∙ released d a p e held now_ x1 x2 x3 x4 y
                  (emit-positions real finish w ∙ w-positions))
          ∙ rewrite_back k j p q e.positions held,
    )
