-- ===== src/Market/Match/Loop.antt =====
-- One round of the loop of `execute_order` (matchengine/src/me_market.c) on the book that it
-- matches against: the two orders of the deal, and the clean-up of the maker.
use Prim.Native.Nat.{Ordering}
use viabtc_future.Prelude.{
  ◌≡◌, refl, ◌∙◌, Bool, true, false, not, List, [], ◌∷◌, All, ◌⊎◌, inl, inr, Bool-cases, arith,
  if◌then◌else◌,
}
use viabtc_future.Prelude.Int.{ℤ, pos, ◌-ℤ◌, eqb_ℤ, -ℤ_parts}
use viabtc_future.Decimal.{Decimal, RoundsDown, sub}
use viabtc_future.Skiplist.{remove}
use viabtc_future.Skiplist.Laws.{remove_head}
use viabtc_future.Market.Defs.{Order, Engine, sells, limit_type}
use viabtc_future.Market.Book.{book, set_book, same_order, order_match_compare, order_finish_future}
use viabtc_future.Market.Deal.Frame.{Traded}
use viabtc_future.Market.Match.{deal_amount, matched_side, replace_order, is_finished, set_market}

pub Traded-sells : {a b : Order} → Traded a b → sells b ≡ sells a
unfolding sells
Traded-sells h = ground (arith, h.side, h.oper_type)

abbrev pub Above : Order → List Order → Type 0
Above o l = All (λ y. order_match_compare y o ≡ Ordering.gt) l

pub compare-Traded :
    (y a b : Order) → Traded a b → order_match_compare y b ≡ order_match_compare y a
compare-Traded y a b h = ground (arith, h.id, h.type, h.price)

Above-Traded : (a b : Order) (l : List Order) → Traded a b → Above a l → Above b l
Above-Traded a b [] h up = tt
Above-Traded a b (y ∷ l) h up = (compare-Traded y a b h ∙ up.0, Above-Traded a b l h up.1)

replace_order-Above : (o : Order) (l : List Order) → Above o l → replace_order o l ≡ l
replace_order-Above o [] up = refl
replace_order-Above o (y ∷ l) up = ground (arith, replace_order-Above o l up.1)

-- A number less itself is zero, however the difference is rounded.
sub_self : (d : Decimal) → RoundsDown d → (x : ℤ) → eqb_ℤ (sub d x x) (pos 0) ≡ true
sub_self d down x = ground (arith, -ℤ_parts x x, down.round_nonneg (x -ℤ x), down.round_le (x -ℤ x))

module _ (d : Decimal) (down : RoundsDown d) where
  -- After a deal of the smaller of two amounts one of the two is used up.
  pub one_finished :
      (taker maker : Order) (x : ℤ)
      → deal_amount d taker maker ≡ x
      → (eqb_ℤ (sub d taker.left x) (pos 0) ≡ true) ⊎ (eqb_ℤ (sub d maker.left x) (pos 0) ≡ true)
  one_finished taker maker x e =
      ground (arith, sub_self d down taker.left, sub_self d down maker.left)

-- The clean-up of the maker: written back to its book, or taken out of it.
abbrev pub clean_up : Bool → Bool → Order → Engine → Engine
clean_up real sell maker e =
    let side = matched_side sell in
    let e' = set_market (set_book side (replace_order maker (book side e.market)) e.market) e in
    if is_finished maker then order_finish_future real maker e' else e'

module _ (real : Bool) (maker maker' : Order) (rest : List Order) (e : Engine)
    (h : Traded maker maker') (up : Above maker rest) (live : maker.type ≡ limit_type) where
  replaced : replace_order maker' (maker ∷ rest) ≡ maker' ∷ rest
  replaced =
      ground (arith, h.id, replace_order-Above maker' rest (Above-Traded maker maker' rest h up))

  unlinked : remove order_match_compare same_order maker' (maker' ∷ rest) ≡ rest
  unlinked =
      remove_head order_match_compare same_order maker' (ground arith) (ground arith) rest
        (Above-Traded maker maker' rest h up)

  pub record Cleaned (sell : Bool) (e' : Engine) : Type 0 where
    pub gone : is_finished maker' ≡ true → book (matched_side sell) e'.market ≡ rest
    pub kept : is_finished maker' ≡ false → book (matched_side sell) e'.market ≡ maker' ∷ rest
    pub other : book (matched_side (not sell)) e'.market ≡ book (matched_side (not sell)) e.market

  pub clean_up-Cleaned :
      (sell : Bool)
      → sells maker ≡ not sell
      → book (matched_side sell) e.market ≡ maker ∷ rest
      → Cleaned sell (clean_up real sell maker' e)
  unfolding order_finish_future
  clean_up-Cleaned true dir here =
      let dir' = Traded-sells h ∙ dir in
      elim (Bool-cases (is_finished maker')) [
        | inl done ↦ record {
          gone = λ _. ground (arith, replaced, unlinked, h.type);
          kept = λ no_. cc;
          other = ground (arith, h.type);
        }
        | inr open_ ↦ record {
          gone = λ yes_. cc;
          kept = λ _. ground (arith, replaced);
          other = ground arith;
        }
      ]
  clean_up-Cleaned false dir here =
      let dir' = Traded-sells h ∙ dir in
      elim (Bool-cases (is_finished maker')) [
        | inl done ↦ record {
          gone = λ _. ground (arith, replaced, unlinked, h.type);
          kept = λ no_. cc;
          other = ground (arith, h.type);
        }
        | inr open_ ↦ record {
          gone = λ yes_. cc;
          kept = λ _. ground (arith, replaced);
          other = ground arith;
        }
      ]
