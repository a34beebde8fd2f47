-- ===== src/Market/Match/Kept.antt =====
-- The two live books and `orders` through the loop of `execute_order`
-- (matchengine/src/me_market.c).
use viabtc_future.Prelude.{
  ℕ, Bool, false, not, ◌≡◌, inl, inr, refl, sym, ap, ◌∙◌, Option, some, List, [], ◌∷◌, arith,
  Bool-cases, if◌then◌else◌,
}
use mathlib.Core.Path.{subst}
use viabtc_future.Prelude.Int.{ℤ}
use viabtc_future.Decimal.{Decimal, RoundsDown}
use viabtc_future.Market.Defs.{Order, Market, Engine, order_message, sells}
use viabtc_future.Market.Book.{mem, erase, book, set_book, emit, order_finish_future}
use viabtc_future.Market.Match.Rounds.{trade-Round}
use viabtc_future.Market.Book.Index.{some_inj, Known-Fresh}
use viabtc_future.Market.Book.Undone.{set_book-orders}
use viabtc_future.Market.Deal.{execute_order_open_imp}
use viabtc_future.Market.Deal.Frame.{Traded, Traded-trans, execute_order_open_imp-Traded}
use viabtc_future.Market.Match.{
  trade, terms, matched_side, is_finished, set_market, event_of, match_loop, decide, replace_order,
}
use viabtc_future.Market.Match.Loop.{clean_up, Cleaned, clean_up-Cleaned, Traded-sells}
use viabtc_future.Market.Match.Rounds.{
  matched, matched_market, matched_price, emit-market, sorted-Above, IsTaker, decide_pass,
  finish-Fresh,
}
use viabtc_future.Market.Match.Exhausts.{
  Decision-cases, loop_stop, loop_filled, loop_next, Traded-refl,
}
use viabtc_future.Market.Match.Books.{
  Books, gone-Books, kept-Books, unknown-Books, mem-erase_absent,
}

pub finish-orders :
    (real : Bool) (o : Order) (e : Engine)
    → (order_finish_future real o e).market.orders ≡ erase o.id e.market.orders
unfolding order_finish_future
finish-orders real o e = ground arith

-- The two live books of an engine, and its `orders`.
abbrev pub Live : Bool → Engine → Type 0
Live sell e = Books sell e.market.orders (matched sell e) (matched (not sell) e)

pub same-Books :
    {sell : Bool} {ids ids' : List ℕ} {l l' k k' : List Order}
    → ids' ≡ ids
    → l' ≡ l
    → k' ≡ k
    → Books sell ids l k
    → Books sell ids' l' k'
same-Books i l k b = rw (i, l, k) b

clean_up-orders :
    (real sell : Bool) (m : Order) (e : Engine)
    → (clean_up real sell m e).market.orders
      ≡ (if is_finished m then erase m.id e.market.orders else e.market.orders)
clean_up-orders real sell m e =
    let side = matched_side sell in
    let l = replace_order m (book side e.market) in
    let e' = set_market (set_book side l e.market) e in
    ground (arith, finish-orders real m e', set_book-orders side l e.market)

module _ (d : Decimal) (down : RoundsDown d) (real sell : Bool) where
  -- What a round does to `orders`, and that the books stay well formed.
  record Kept (taker : Order) (e : Engine) (r : Order × Engine) : Type 0 where
    live : Live sell r.1
    unknown : (i : ℕ) → mem i e.market.orders ≡ false → mem i r.1.market.orders ≡ false
    traded : Traded taker r.0

  trade-Kept :
      (taker maker : Order) (rest : List Order) (price : ℤ) (e : Engine)
      → matched sell e ≡ maker ∷ rest
      → Live sell e
      → Kept taker e (trade d real sell taker maker price e)
  unfolding trade
  trade-Kept taker maker rest price e here b =
      let before : Books sell e.market.orders (maker ∷ rest) (matched (not sell) e) =
        same-Books refl (sym here) refl b in
      let in_book = before.matched_book.in_book in
      let up = sorted-Above sell maker rest in_book.0 in_book.1 before.matched_book.sorted.0 in
      let e₀ = set_market (record (e.market) { latest_price = price }) e in
      let (t', m', e₁) = execute_order_open_imp d (terms d real taker maker price) taker maker e₀ in
      let (th, mh, t_left, m_left, same) =
        execute_order_open_imp-Traded d (terms d real taker maker price) taker maker e₀ in
      let e₂ = emit real (order_message (event_of t') t') e₁ in
      let e₃ = emit real (order_message (event_of m') m') e₂ in
      let quiet : e₃.market ≡ e₀.market =
        emit-market real (order_message (event_of m') m') e₂
        ∙ emit-market real (order_message (event_of t') t') e₁
        ∙ same in
      let books = λ (s : Bool). matched_market s e₃ e₀ quiet ∙ matched_price s price e in
      let ids : e₃.market.orders ≡ e.market.orders = ap (λ (m : Market). m.orders) quiet in
      let e₅ = clean_up real sell m' e₃ in
      let clean : Cleaned real maker m' rest e₃ mh up in_book.0.0 sell e₅ =
        clean_up-Cleaned real maker m' rest e₃ mh up in_book.0.0 sell in_book.0.1
          (books sell ∙ here) in
      let orders = clean_up-orders real sell m' e₃ in
      elim (Bool-cases (is_finished m')) [
        | inl done ↦
            let left : e₅.market.orders ≡ erase maker.id e.market.orders =
              ground (arith, orders, ids, mh.id) in
            record {
              live =
                  same-Books left (clean.gone done) (clean.other ∙ books (not sell))
                    (gone-Books sell e.market.orders maker rest (matched (not sell) e) before);
              unknown = λ i h. rw left (mem-erase_absent maker.id i e.market.orders h);
              traded = th;
            }
        | inr open_ ↦
            let left : e₅.market.orders ≡ e.market.orders = ground (arith, orders, ids) in
            record {
              live =
                  same-Books left (clean.kept open_) (clean.other ∙ books (not sell)) (
                    kept-Books sell e.market.orders maker m' rest (matched (not sell) e) mh before);
              unknown = λ i h. rw left h;
              traded = th;
            }
      ]

  -- Behind the loop the books are well formed, and a taker that is left over is not in `orders`.
  pub record Outcome (taker : Order) (r : Option Order × Engine) : Type 0 where
    pub live : Live sell r.1
    pub left_over :
        (t : Order) → r.0 ≡ some t → Traded taker t × (mem t.id r.1.market.orders ≡ false)

  stopped-Outcome :
      (taker : Order) (e : Engine)
      → Live sell e
      → mem taker.id e.market.orders ≡ false
      → Outcome taker (some taker, e)
  stopped-Outcome taker e b new = record {
    live = b;
    left_over = λ t h.
        let same = some_inj h in
        (
          subst (Traded taker) same (Traded-refl taker),
          subst (λ (x : Order). mem x.id e.market.orders ≡ false) same new,
        );
  }

  pub finish-Live :
      (o : Order) (e : Engine)
      → Live sell e
      → IsTaker o
      → sells o ≡ sell
      → mem o.id e.market.orders ≡ false
      → Live sell (order_finish_future real o e)
  finish-Live o e b kind dir new =
      let quiet =
        finish-Fresh real sell o e kind dir
          (Known-Fresh o e.market.orders (matched (not sell) e) new b.own_book.known) in
      same-Books (finish-orders real o e) (quiet sell) (quiet (not sell))
        (unknown-Books sell e.market.orders o.id (matched sell e) (matched (not sell) e) new b)

  pub match_loop-Outcome :
      (l : List Order) (taker : Order) (e : Engine)
      → matched sell e ≡ l
      → Live sell e
      → IsTaker taker
      → sells taker ≡ sell
      → is_finished taker ≡ false
      → mem taker.id e.market.orders ≡ false
      → Outcome taker (match_loop d real sell l taker e)
  unfolding match_loop
  match_loop-Outcome [] taker e here b kind dir open_ new = stopped-Outcome taker e b new
  match_loop-Outcome (maker ∷ rest) taker e here b kind dir open_ new =
      let before : Books sell e.market.orders (maker ∷ rest) (matched (not sell) e) =
        same-Books refl (sym here) refl b in
      let in_book = before.matched_book.in_book in
      let up = sorted-Above sell maker rest in_book.0 in_book.1 before.matched_book.sorted.0 in
      elim (Decision-cases (decide sell taker maker)) [
        | inl skipped ↦ absurd (decide_pass sell taker maker kind in_book.0.0 skipped)
        | inr (inl stopped) ↦
            rw (loop_stop d real sell maker rest taker e open_ stopped)
              (stopped-Outcome taker e b new)
        | inr (inr (price, dealt)) ↦
            let r = trade d real sell taker maker price e in
            let k = trade-Kept taker maker rest price e here b in
            let rd = trade-Round d down real sell taker maker rest price e here up in_book.0 in
            let dir' = Traded-sells k.traded ∙ dir in
            let kind' : IsTaker r.0 = ground (arith, k.traded.type) in
            let new' : mem r.0.id r.1.market.orders ≡ false =
              subst (λ i. mem i r.1.market.orders ≡ false) (sym k.traded.id)
                (k.unknown taker.id new) in
            elim (Bool-cases (is_finished r.0)) [
              | inl fin ↦
                  rw (loop_filled d real sell maker rest taker e open_ price dealt fin) (record {
                    live = finish-Live r.0 r.1 k.live kind' dir' new';
                    left_over = λ t h. absurd (ground arith);
                  })
              | inr more ↦
                  let gone : matched sell r.1 ≡ rest = elim rd.after [
                    | inl g ↦ g
                    | inr (m, h, kept, fin) ↦ cc
                  ] in
                  let ih = match_loop-Outcome rest r.0 r.1 gone k.live kind' dir' more new' in
                  rw (loop_next d real sell maker rest taker e open_ price dealt more) (record {
                    live = ih.live;
                    left_over =
                        λ t h. let (tr, un) = ih.left_over t h in (Traded-trans k.traded tr, un);
                  })
            ]
      ]
