-- ===== src/Market/Pnl.antt =====
-- Margins, fees and profits of matchengine/src/me_market.c: `calcFee`, `getPNL`, `getPartPNL`, the
-- sums over a user's cross-margin positions, `checkPriAndFee`, and the lookups of me_position.c.
pub mod Laws
use viabtc_future.Prelude.{
  ℕ, ◌+◌, ◌↔◌, ◌≡◌, Bool, true, false, not, ◌&&◌, ◌||◌, Option, none, some, List, [], ◌∷◌, arith,
  if◌then◌else◌, ◌==◌,
}
use viabtc_future.Prelude.Int.{ℤ, pos, ltb_ℤ, leb_ℤ}
use viabtc_future.Decimal.{Decimal}
use viabtc_future.Decimal
use viabtc_future.Dict.{Eq, Dict}
use viabtc_future.Dict
use viabtc_future.Market.Defs.{
  Position, PositionKey, PositionMode, PositionModeKey, Engine, bear, bull,
}

abbrev pub position_key_beq : PositionKey → PositionKey → Bool
position_key_beq j k = j.user_id == k.user_id && j.market == k.market && j.side == k.side

pub position_key_beq_iff : (j k : PositionKey) → (position_key_beq j k ≡ true) ↔ (j ≡ k)
position_key_beq_iff j k = ground arith

instance abbrev pub position_key_eq : Eq PositionKey
position_key_eq = record { beq = position_key_beq; beq_iff = position_key_beq_iff }

abbrev pub mode_key_beq : PositionModeKey → PositionModeKey → Bool
mode_key_beq j k = j.user_id == k.user_id && j.market == k.market

pub mode_key_beq_iff : (j k : PositionModeKey) → (mode_key_beq j k ≡ true) ↔ (j ≡ k)
mode_key_beq_iff j k = ground arith

instance abbrev pub mode_key_eq : Eq PositionModeKey
mode_key_eq = record { beq = mode_key_beq; beq_iff = mode_key_beq_iff }

abbrev pub position_key : ℕ → ℕ → ℕ → PositionKey
position_key user market side = record { user_id = user; market = market; side = side }

abbrev pub mode_key : ℕ → ℕ → PositionModeKey
mode_key user market = record { user_id = user; market = market }

-- `get_position`, `add_position`, `del_position` and `get_position_mode`.
abbrev pub get_position : ℕ → ℕ → ℕ → Engine → Option Position
get_position user market side e = Dict.find (position_key user market side) e.positions

-- `dict_add` keeps an entry that is there.
abbrev pub add_position : ℕ → ℕ → ℕ → Position → Engine → Engine
add_position user market side p e = elim (Dict.add (position_key user market side) p e.positions) [
  | none ↦ e
  | some d ↦ record e { positions = d }
]

abbrev pub del_position : ℕ → ℕ → ℕ → Engine → Engine
del_position user market side e = record e {
  positions = Dict.delete (position_key user market side) e.positions;
}

-- Writes through the pointer that `get_position` returned.
abbrev pub write_position : ℕ → ℕ → ℕ → Position → Engine → Engine
write_position user market side p e = record e {
  positions = Dict.assign (position_key user market side) p e.positions;
}

abbrev pub get_position_mode : ℕ → ℕ → Engine → Option PositionMode
get_position_mode user market e = Dict.find (mode_key user market) e.modes

abbrev pub add_position_mode : ℕ → ℕ → ℕ → ℤ → Engine → Engine
add_position_mode user market pattern leverage e =
    let mode : PositionMode = record { user_id = user; pattern = pattern; leverage = leverage } in
    elim (Dict.add (mode_key user market) mode e.modes) [
      | none ↦ e
      | some d ↦ record e { modes = d }
    ]

-- The same with a mode that the caller has made.
abbrev pub add_position_mode_2 : ℕ → ℕ → PositionMode → Engine → Engine
add_position_mode_2 user market mode e = elim (Dict.add (mode_key user market) mode e.modes) [
  | none ↦ e
  | some d ↦ record e { modes = d }
]

-- `get_market(name)->latestPrice`.
abbrev pub latest_price_of : ℕ → Engine → ℤ
latest_price_of name e = if name == e.market.name then e.market.latest_price else e.other_price name

module _ (d : Decimal) where
  unfoldable pub calc_fee : ℤ → ℤ → ℤ → ℤ
  calc_fee volume price fee_rate = d.mul (d.mul volume price) fee_rate

  -- `getPartPNL`: the profit on `amount` of a position.
  unfoldable pub get_part_pnl : Position → ℤ → ℤ → ℤ
  get_part_pnl p amount latest =
      if p.side == bull
      then d.mul (d.div (Decimal.sub d latest p.price) p.price) amount
      else d.mul (d.div (Decimal.sub d p.price latest) p.price) amount

  -- `getPNL`: the margin of a position with its profit, or less its loss.
  unfoldable pub get_pnl : Position → ℤ → ℤ
  get_pnl p latest =
      let total = Decimal.add d p.position p.frozen in
      let up = d.mul (d.div (Decimal.sub d latest p.price) p.price) total in
      let down = d.mul (d.div (Decimal.sub d p.price latest) p.price) total in
      if p.side == bull
      then if leb_ℤ p.price latest
        then Decimal.add d up p.principal
        else Decimal.sub d p.principal down
      else if leb_ℤ latest p.price
      then Decimal.add d down p.principal
      else Decimal.sub d p.principal up

  -- A position counts toward the cross margin if it is there and its pattern is 2.
  abbrev pub cross : Option Position → Option Position
  cross none = none
  cross (some p) = if p.pattern == 2 then some p else none

  abbrev pub count_cross : Option Position → ℕ
  count_cross none = 0
  count_cross (some _) = 1

  abbrev pub sum_cross_count_from : ℕ → Engine → ℕ → List ℕ → ℕ
  sum_cross_count_from user e n [] = n
  sum_cross_count_from user e n (name ∷ names) =
      let n₁ = n + count_cross (cross (get_position user name 1 e)) in
      let n₂ = n₁ + count_cross (cross (get_position user name 2 e)) in
      sum_cross_count_from user e n₂ names

  -- `getSumCrossCount`.
  unfoldable pub get_sum_cross_count : ℕ → Engine → ℕ
  get_sum_cross_count user e = sum_cross_count_from user e 0 e.configured

  -- The loop of `getSumPNL`, `getSumCloseFee` and `getSumMaintenance`: what each cross-margin
  -- position contributes is added up, the side `first` of a market before the side `second`.
  abbrev pub add_cross : (ℕ → Position → ℤ) → ℕ → Option Position → ℤ → ℤ
  add_cross part name none acc = acc
  add_cross part name (some p) acc = Decimal.add d acc (part name p)

  abbrev pub sum_cross_from : (ℕ → Position → ℤ) → ℕ → ℕ → ℕ → Engine → ℤ → List ℕ → ℤ
  sum_cross_from part first second user e acc [] = acc
  sum_cross_from part first second user e acc (name ∷ names) =
      let acc₁ = add_cross part name (cross (get_position user name first e)) acc in
      let acc₂ = add_cross part name (cross (get_position user name second e)) acc₁ in
      sum_cross_from part first second user e acc₂ names

  unfoldable pub get_sum_pnl : ℕ → Engine → ℤ
  unfolding get_pnl
  get_sum_pnl user e =
      sum_cross_from (λ name p. get_pnl p (latest_price_of name e)) 1 2 user e (pos 0) e.configured

  -- The rates 0.0001 and 0.0003 that the code reads by `decimal` are parameters.
  unfoldable pub get_sum_close_fee : ℤ → ℕ → Engine → ℤ
  get_sum_close_fee rate user e =
      sum_cross_from (λ name p. d.mul (Decimal.add d p.position p.frozen) rate) bear bull user e
        (pos 0) e.configured

  unfoldable pub get_sum_maintenance : ℤ → ℕ → Engine → ℤ
  get_sum_maintenance rate user e =
      sum_cross_from (λ name p. d.mul (Decimal.add d p.position p.frozen) rate) bear bull user e
        (pos 0) e.configured

  -- `checkPriAndFee`: `true` for 0, `false` for -1. The margin pointer is never NULL in the calls.
  unfoldable pub check_pri_and_fee : ℕ → ℕ → Option ℤ → ℤ → Engine → Bool
  unfolding get_sum_pnl get_sum_cross_count
  check_pri_and_fee pattern user none need e = false
  check_pri_and_fee pattern user (some balance) need e =
      if pattern == 1
      then not (ltb_ℤ balance need)
      else if pattern == 2
      then if get_sum_cross_count user e == 0
        then not (ltb_ℤ balance need)
        else (let total = get_sum_pnl user e in
            if ltb_ℤ total (pos 0)
            then not (ltb_ℤ (Decimal.add d total balance) need)
            else not (ltb_ℤ balance need))
      else true
