-- ===== src/Market/Match/Exhausts.antt =====
-- The loop of `execute_order` (matchengine/src/me_market.c) as a whole: the prices that the matched
-- book holds when it ends.
use viabtc_future.Prelude.{
  ◌≡◌, refl, sym, ◌∙◌, Bool, true, false, not, Option, none, some, List, [], ◌∷◌, All, ◌⊎◌, inl,
  inr, Bool-cases, arith,
}
use mathlib.Core.Path.{subst}
use viabtc_future.Prelude.Int.{ℤ}
use viabtc_future.Decimal.{Decimal, RoundsDown}
use viabtc_future.Skiplist.Laws.{IsSorted, Fresh}
use viabtc_future.Market.Defs.{Order, Engine, sells, limit_type}
use viabtc_future.Market.Book.{order_match_compare, order_finish_future}
use viabtc_future.Market.Book.Priority.{InBook}
use viabtc_future.Market.Deal.Frame.{Traded, Traded-trans}
use viabtc_future.Market.Match.{
  trade, is_finished, match_loop, decide, Decision, pass, stop, deal_at,
}
use viabtc_future.Market.Match.Rounds.{
  matched, Round, trade-Round, IsTaker, AllPrices, Worse, sorted-Above, Worse-All, decide_stop,
  decide_pass, Fresh-Traded, finish-Fresh,
}
use viabtc_future.Market.Match.Loop.{Traded-sells}

pub Traded-refl : (a : Order) → Traded a a
Traded-refl a = record {
  id = refl;
  type = refl;
  price = refl;
  side = refl;
  oper_type = refl;
  user_id = refl;
}

pub Decision-cases : (x : Decision) → (x ≡ pass) ⊎ ((x ≡ stop) ⊎ ((p : ℤ) × (x ≡ deal_at p)))
Decision-cases pass = inl refl
Decision-cases stop = inr (inl refl)
Decision-cases (deal_at p) = inr (inr (p, refl))

-- The loop's first round, by how it ends.
module _ (d : Decimal) (real sell : Bool) (maker : Order) (rest : List Order) (taker : Order)
    (e : Engine) (open_ : is_finished taker ≡ false) where
  pub loop_stop :
      decide sell taker maker ≡ stop
      → match_loop d real sell (maker ∷ rest) taker e ≡ (some taker, e)
  unfolding match_loop
  loop_stop h = ground arith

  module _ (price : ℤ) (dealt : decide sell taker maker ≡ deal_at price) where
    pub loop_filled :
        is_finished (trade d real sell taker maker price e).0 ≡ true
        → match_loop d real sell (maker ∷ rest) taker e ≡ (
          none,
          order_finish_future real
              (trade d real sell taker maker price e).0
              (trade d real sell taker maker price e).1,
        )
    unfolding match_loop
    loop_filled h = ground arith

    pub loop_next :
        is_finished (trade d real sell taker maker price e).0 ≡ false
        → match_loop d real sell (maker ∷ rest) taker e
          ≡ match_loop d real sell rest
              (trade d real sell taker maker price e).0
              (trade d real sell taker maker price e).1
    unfolding match_loop
    loop_next h = ground arith

module _ (d : Decimal) (down : RoundsDown d) (real sell : Bool) (P : ℤ → Type 0) where
  -- What is known of a taker that the loop leaves over.
  abbrev pub LeftOver : Order → Option Order → List Order → Type 0
  LeftOver taker none l = Unit
  LeftOver taker (some t) l = Traded taker t × AllPrices (Worse sell t.price) l

  -- Behind the loop the matched book holds old prices only, none that the taker left over could
  -- trade with, and the other book is as it was.
  pub record Done (taker : Order) (e : Engine) (r : Option Order × Engine) : Type 0 where
    pub prices : AllPrices P (matched sell r.1)
    pub other : matched (not sell) r.1 ≡ matched (not sell) e
    pub left_over : LeftOver taker r.0 (matched sell r.1)

  LeftOver-trans :
      (a b : Order) (o : Option Order) (l : List Order)
      → Traded a b
      → LeftOver b o l
      → LeftOver a o l
  LeftOver-trans a b none l h k = tt
  LeftOver-trans a b (some t) l h k = (Traded-trans h k.0, k.1)

  -- The prices in the matched book after a round.
  round_prices :
      (taker maker : Order) (rest : List Order) (e : Engine) (r : Order × Engine)
      → Round d down real sell taker maker rest e r
      → AllPrices P (maker ∷ rest)
      → AllPrices P (matched sell r.1)
  round_prices taker maker rest e r rd p = elim rd.after [
    | inl gone ↦ rw gone p.1
    | inr (m, h, kept, fin) ↦ rw (kept, h.price) p
  ]

  pub match_loop-Done :
      (l : List Order) (taker : Order) (e : Engine)
      → matched sell e ≡ l
      → All (InBook limit_type (not sell)) l
      → IsSorted order_match_compare l
      → AllPrices P l
      → IsTaker taker
      → sells taker ≡ sell
      → is_finished taker ≡ false
      → Fresh order_match_compare taker (matched (not sell) e)
      → Done taker e (match_loop d real sell l taker e)
  unfolding match_loop
  match_loop-Done [] taker e here il s p kind dir open_ f = record {
    prices = rw here tt;
    other = refl;
    left_over = (Traded-refl taker, rw here tt);
  }
  match_loop-Done (maker ∷ rest) taker e here il s p kind dir open_ f =
      let up = sorted-Above sell maker rest il.0 il.1 s.0 in
      elim (Decision-cases (decide sell taker maker)) [
        | inl skipped ↦ absurd (decide_pass sell taker maker kind il.0.0 skipped)
        | inr (inl stopped) ↦
            let w = decide_stop sell taker maker kind il.0.0 stopped in
            rw (loop_stop d real sell maker rest taker e open_ stopped) (record {
              prices = rw here p;
              other = refl;
              left_over = (
                Traded-refl taker,
                rw here (w, Worse-All sell taker.price maker rest il.0 il.1 s.0 w),
              );
            })
        | inr (inr (price, dealt)) ↦
            let r = trade d real sell taker maker price e in
            let rd = trade-Round d down real sell taker maker rest price e here up il.0 in
            let dir' = Traded-sells rd.traded ∙ dir in
            let kind' : IsTaker r.0 = ground (arith, rd.traded.type) in
            let f' =
              subst (Fresh order_match_compare r.0) (sym rd.other)
                (Fresh-Traded taker r.0 (matched (not sell) e) rd.traded f) in
            elim (Bool-cases (is_finished r.0)) [
              | inl fin ↦
                  let quiet = finish-Fresh real sell r.0 r.1 kind' dir' f' in
                  rw (loop_filled d real sell maker rest taker e open_ price dealt fin) (record {
                    prices = rw (quiet sell) (round_prices taker maker rest e r rd p);
                    other = quiet (not sell) ∙ rd.other;
                    left_over = tt;
                  })
              | inr more ↦
                  let gone : matched sell r.1 ≡ rest = elim rd.after [
                    | inl g ↦ g
                    | inr (m, h, kept, fin) ↦ cc
                  ] in
                  let ih = match_loop-Done rest r.0 r.1 gone il.1 s.1 p.1 kind' dir' more f' in
                  rw (loop_next d real sell maker rest taker e open_ price dealt more) (record {
                    prices = ih.prices;
                    other = ih.other ∙ rd.other;
                    left_over = LeftOver-trans taker r.0 _ _ rd.traded ih.left_over;
                  })
            ]
      ]
