-- ===== src/Market/Match/Rounds.antt =====
-- The rounds of the loop of `execute_order` (matchengine/src/me_market.c): what a deal does to the
-- two live books, and what the price tests say of the orders behind.
use Prim.Native.Nat.{Ordering}
use viabtc_future.Prelude.{
  ◌≡◌, ◌≢◌, refl, sym, ap, ◌∙◌, Bool, true, false, not, List, [], ◌∷◌, All, ◌⊎◌, inl, inr,
  Bool-cases, arith,
}
use viabtc_future.Prelude.Int.{ℤ, ◌<ℤ◌}
use viabtc_future.Decimal.{Decimal, RoundsDown}
use viabtc_future.Skiplist.Laws.{Fresh, remove-Fresh}
use viabtc_future.Market.Defs.{Order, Engine, Event, order_message, sells, limit_type, market_type}
use viabtc_future.Market.Book.{book, same_order, order_match_compare, order_finish_future, emit}
use viabtc_future.Market.Book.Priority.{InBook, book-Orders}
use viabtc_future.Market.Deal.{execute_order_open_imp}
use viabtc_future.Market.Deal.Frame.{Traded, execute_order_open_imp-Traded}
use viabtc_future.Market.Match.{
  trade, terms, deal_amount, matched_side, is_finished, set_market, event_of, decide, Decision,
}
use viabtc_future.Market.Match.Loop.{
  Above, Cleaned, clean_up, clean_up-Cleaned, one_finished, compare-Traded,
}

abbrev pub matched : Bool → Engine → List Order
matched sell e = book (matched_side sell) e.market

pub emit-market : (real : Bool) (ev : Event) (e : Engine) → (emit real ev e).market ≡ e.market
emit-market real ev e = ground arith

pub matched_market :
    (sell : Bool) (a b : Engine) → a.market ≡ b.market → matched sell a ≡ matched sell b
matched_market sell a b h = ap (book (matched_side sell)) h

pub matched_price :
    (sell : Bool) (p : ℤ) (e : Engine)
    → matched sell (set_market (record (e.market) { latest_price = p }) e) ≡ matched sell e
matched_price true p e = refl
matched_price false p e = refl

module _ (d : Decimal) (down : RoundsDown d) (real sell : Bool) where
  -- What a round does to the books, `rest` being the book behind the maker.
  pub record Round (taker maker : Order) (rest : List Order) (e : Engine) (r : Order × Engine)
      : Type 0 where
    pub traded : Traded taker r.0
    pub after :
        (matched sell r.1 ≡ rest)
        ⊎ ((m : Order) × Traded maker m × (matched sell r.1 ≡ m ∷ rest) × (is_finished r.0 ≡ true))
    pub other : matched (not sell) r.1 ≡ matched (not sell) e

  pub trade-Round :
      (taker maker : Order) (rest : List Order) (price : ℤ) (e : Engine)
      → matched sell e ≡ maker ∷ rest
      → Above maker rest
      → InBook limit_type (not sell) maker
      → Round taker maker rest e (trade d real sell taker maker price e)
  unfolding trade
  trade-Round taker maker rest price e here up live =
      let e₀ = set_market (record (e.market) { latest_price = price }) e in
      let (t', m', e₁) = execute_order_open_imp d (terms d real taker maker price) taker maker e₀ in
      let (th, mh, t_left, m_left, same) =
        execute_order_open_imp-Traded d (terms d real taker maker price) taker maker e₀ in
      let e₂ = emit real (order_message (event_of t') t') e₁ in
      let e₃ = emit real (order_message (event_of m') m') e₂ in
      let quiet : e₃.market ≡ e₀.market =
        emit-market real (order_message (event_of m') m') e₂
        ∙ emit-market real (order_message (event_of t') t') e₁
        ∙ same in
      let books = λ (s : Bool). matched_market s e₃ e₀ quiet ∙ matched_price s price e in
      let clean : Cleaned real maker m' rest e₃ mh up live.0 sell (clean_up real sell m' e₃) =
        clean_up-Cleaned real maker m' rest e₃ mh up live.0 sell live.1 (books sell ∙ here) in
      record {
        traded = th;
        after = elim (Bool-cases (is_finished m')) [
          | inl done ↦ inl (clean.gone done)
          | inr open_ ↦ inr (
            m',
            mh,
            clean.kept open_,
            ground (
              arith,
              t_left,
              m_left,
              one_finished d down taker maker (deal_amount d taker maker) refl,
            ),
          )
        ];
        other = clean.other ∙ books (not sell);
      }

-- The price of a taker against that of an order it does not trade with.
abbrev pub Worse : Bool → ℤ → ℤ → Type 0
Worse true taker maker = maker <ℤ taker
Worse false taker maker = taker <ℤ maker

abbrev pub AllPrices : (ℤ → Type 0) → List Order → Type 0
AllPrices P l = All (λ o. P o.price) l

abbrev pub IsTaker : Order → Type 0
IsTaker o = (o.type ≡ limit_type) ⊎ (o.type ≡ market_type)

module _ (sell : Bool) where
  pub sorted-Above :
      (maker : Order) (l : List Order)
      → InBook limit_type (not sell) maker
      → All (InBook limit_type (not sell)) l
      → All (λ y. order_match_compare maker y ≡ Ordering.lt) l
      → Above maker l
  sorted-Above maker [] im il s = tt
  sorted-Above maker (y ∷ l) im il s = (
    (book-Orders limit_type (not sell)).cmp_asym maker y im il.0 s.0,
    sorted-Above maker l im il.1 s.1,
  )

  Worse-behind :
      (t : ℤ) (maker y : Order)
      → InBook limit_type (not sell) maker
      → InBook limit_type (not sell) y
      → order_match_compare maker y ≡ Ordering.lt
      → Worse sell t maker.price
      → Worse sell t y.price
  Worse-behind t maker y im iy s w = elim (Bool-cases sell) [
    | inl yes_ ↦ ground arith
    | inr no_ ↦ ground arith
  ]

  pub Worse-All :
      (t : ℤ) (maker : Order) (l : List Order)
      → InBook limit_type (not sell) maker
      → All (InBook limit_type (not sell)) l
      → All (λ y. order_match_compare maker y ≡ Ordering.lt) l
      → Worse sell t maker.price
      → AllPrices (Worse sell t) l
  Worse-All t maker [] im il s w = tt
  Worse-All t maker (y ∷ l) im il s w =
      (Worse-behind t maker y im il.0 s.0 w, Worse-All t maker l im il.1 s.1 w)

  pub decide_stop :
      (taker maker : Order)
      → IsTaker taker
      → maker.type ≡ limit_type
      → decide sell taker maker ≡ Decision.stop
      → Worse sell taker.price maker.price
  unfolding decide
  decide_stop taker maker kind live e = elim (Bool-cases sell) [
    | inl yes_ ↦ ground arith
    | inr no_ ↦ ground arith
  ]

  pub decide_pass :
      (taker maker : Order)
      → IsTaker taker
      → maker.type ≡ limit_type
      → decide sell taker maker ≢ Decision.pass
  unfolding decide
  decide_pass taker maker kind live e = ground arith

pub Fresh-Traded :
    (a b : Order) (l : List Order)
    → Traded a b
    → Fresh order_match_compare a l
    → Fresh order_match_compare b l
Fresh-Traded a b [] h f = tt
Fresh-Traded a b (y ∷ l) h f =
    (λ e. f.0 (sym (compare-Traded y a b h) ∙ e), Fresh-Traded a b l h f.1)

-- A finished order that no book holds is taken out of none of the live books.
pub finish-Fresh :
    (real sell : Bool) (o : Order) (e : Engine)
    → IsTaker o
    → sells o ≡ sell
    → Fresh order_match_compare o (matched (not sell) e)
    → (s : Bool) → matched s (order_finish_future real o e) ≡ matched s e
unfolding order_finish_future
finish-Fresh real true o e kind dir f =
    let gone =
      remove-Fresh order_match_compare same_order o (ground arith) (ground arith) e.market.asks f in
    elim [ true ↦ ground arith | false ↦ ground arith ]
finish-Fresh real false o e kind dir f =
    let gone =
      remove-Fresh order_match_compare same_order o (ground arith) (ground arith) e.market.bids f in
    elim [ true ↦ ground arith | false ↦ ground arith ]
