-- ===== src/Market/Match/Books.antt =====
-- The two live books of a market as the matching of matchengine/src/me_market.c changes them: an
-- order leaves its book or has traded, and ids leave `orders`.
use Prim.Native.Nat.{Ordering}
use viabtc_future.Prelude.{
  ℕ, Bool, true, false, not, ◌≡◌, ◌≢◌, refl, sym, ◌∙◌, List, [], ◌∷◌, All, arith,
}
use viabtc_future.Skiplist.Laws.{place, place-All}
use viabtc_future.Market.Defs.{Order}
use viabtc_future.Market.Book.{order_match_compare, mem, erase}
use viabtc_future.Market.Book.Index.{IsBook, Known}
use viabtc_future.Market.Deal.Frame.{Traded}
use viabtc_future.Market.Match.Loop.{Traded-sells}

-- No order of the one list has the id of one of the other.
abbrev pub Disjoint : List Order → List Order → Type 0
Disjoint l k = All (λ (a : Order). All (λ (b : Order). b.id ≢ a.id) k) l

-- The matched book `l` and the book `k` of the taker's direction.
pub record Books (sell : Bool) (ids : List ℕ) (l k : List Order) : Type 0 where
  pub matched_book : IsBook (not sell) ids l
  pub own_book : IsBook sell ids k
  pub apart : Disjoint l k

pub mem-erase : (i j : ℕ) (ids : List ℕ) → mem j ids ≡ true → j ≢ i → mem j (erase i ids) ≡ true
mem-erase i j [] h ne = h
mem-erase i j (x ∷ ids) h ne = ground (arith, mem-erase i j ids)

pub mem-erase_absent : (i j : ℕ) (ids : List ℕ) → mem j ids ≡ false → mem j (erase i ids) ≡ false
mem-erase_absent i j [] h = refl
mem-erase_absent i j (x ∷ ids) h = ground (arith, mem-erase_absent i j ids)

-- Erasing an id that no order of a list has leaves them all known.
erase-Known :
    (i : ℕ) (ids : List ℕ) (l : List Order)
    → All (Known ids) l
    → All (λ (x : Order). x.id ≢ i) l
    → All (Known (erase i ids)) l
erase-Known i ids [] k h = tt
erase-Known i ids (x ∷ l) k h = (mem-erase i x.id ids k.0 h.0, erase-Known i ids l k.1 h.1)

erase-IsBook :
    (i : ℕ) (s : Bool) (ids : List ℕ) (l : List Order)
    → IsBook s ids l
    → All (λ (x : Order). x.id ≢ i) l
    → IsBook s (erase i ids) l
erase-IsBook i s ids l b h = record {
  in_book = b.in_book;
  sorted = b.sorted;
  known = erase-Known i ids l b.known h;
}

pub unknown-All :
    (i : ℕ) (ids : List ℕ) (l : List Order)
    → mem i ids ≡ false
    → All (Known ids) l
    → All (λ (x : Order). x.id ≢ i) l
unknown-All i ids [] h k = tt
unknown-All i ids (x ∷ l) h k = (λ e. ground arith, unknown-All i ids l h k.1)

behind-All :
    (o : Order) (l : List Order)
    → All (λ y. order_match_compare o y ≡ Ordering.lt) l
    → All (λ (x : Order). x.id ≢ o.id) l
behind-All o [] h = tt
behind-All o (x ∷ l) h = (λ e. ground arith, behind-All o l h.1)

module _ (sell : Bool) (ids : List ℕ) where
  tail-IsBook : (s : Bool) (o : Order) (l : List Order) → IsBook s ids (o ∷ l) → IsBook s ids l
  tail-IsBook s o l b = record { in_book = b.in_book.1; sorted = b.sorted.1; known = b.known.1 }

  -- The best order is used up.
  pub gone-Books :
      (maker : Order) (rest k : List Order)
      → Books sell ids (maker ∷ rest) k
      → Books sell (erase maker.id ids) rest k
  gone-Books maker rest k b = record {
    matched_book =
        erase-IsBook maker.id (not sell) ids rest (tail-IsBook (not sell) maker rest b.matched_book)
          (behind-All maker rest b.matched_book.sorted.0);
    own_book = erase-IsBook maker.id sell ids k b.own_book b.apart.0;
    apart = b.apart.1;
  }

  Traded-below :
      (maker m : Order) (l : List Order)
      → Traded maker m
      → All (λ y. order_match_compare maker y ≡ Ordering.lt) l
      → All (λ y. order_match_compare m y ≡ Ordering.lt) l
  Traded-below maker m [] h s = tt
  Traded-below maker m (y ∷ l) h s =
      (ground (arith, h.id, h.type, h.price, Traded-sells h), Traded-below maker m l h s.1)

  -- The best order has traded.
  pub kept-Books :
      (maker m : Order) (rest k : List Order)
      → Traded maker m
      → Books sell ids (maker ∷ rest) k
      → Books sell ids (m ∷ rest) k
  kept-Books maker m rest k h b =
      let old = b.matched_book in
      record {
        matched_book = record {
          in_book = ((h.type ∙ old.in_book.0.0, Traded-sells h ∙ old.in_book.0.1), old.in_book.1);
          sorted = (Traded-below maker m rest h old.sorted.0, old.sorted.1);
          known = (rw h.id old.known.0, old.known.1);
        };
        own_book = b.own_book;
        apart = (rw h.id b.apart.0, b.apart.1);
      }

  -- An id that no order has is erased.
  pub unknown-Books :
      (i : ℕ) (l k : List Order)
      → mem i ids ≡ false
      → Books sell ids l k
      → Books sell (erase i ids) l k
  unknown-Books i l k h b = record {
    matched_book =
        erase-IsBook i (not sell) ids l b.matched_book (unknown-All i ids l h b.matched_book.known);
    own_book = erase-IsBook i sell ids k b.own_book (unknown-All i ids k h b.own_book.known);
    apart = b.apart;
  }

Disjoint-nil : (k : List Order) → Disjoint k []
Disjoint-nil [] = tt
Disjoint-nil (b ∷ k) = (tt, Disjoint-nil k)

Disjoint-cons :
    (a : Order) (l k : List Order)
    → All (λ (b : Order). b.id ≢ a.id) k
    → Disjoint k l
    → Disjoint k (a ∷ l)
Disjoint-cons a l [] h t = tt
Disjoint-cons a l (b ∷ k) h t = ((λ e. h.0 (sym e), t.0), Disjoint-cons a l k h.1 t.1)

pub Disjoint-flip : (l k : List Order) → Disjoint l k → Disjoint k l
Disjoint-flip [] k h = Disjoint-nil k
Disjoint-flip (a ∷ l) k h = Disjoint-cons a l k h.0 (Disjoint-flip l k h.1)

-- A new order is placed in one of the lists.
pub placed-Disjoint :
    (t : Order) (l k : List Order)
    → All (λ (x : Order). x.id ≢ t.id) l
    → Disjoint l k
    → Disjoint l (place order_match_compare t k)
placed-Disjoint t [] k h s = tt
placed-Disjoint t (a ∷ l) k h s = (
  place-All order_match_compare (λ (b : Order). b.id ≢ a.id) t k (λ e. h.0 (sym e)) s.0,
  placed-Disjoint t l k h.1 s.1,
)
