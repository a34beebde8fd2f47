-- ===== src/Rpc/Fields.antt =====
-- Fields of a packet's header (utils/src/ut_rpc.c) against their bytes.
use viabtc_future.Prelude.{
  ℕ, ◌+◌, ◌≤◌, ◌<◌, ◌≡◌, refl, List, [], ◌∷◌, ◌++◌, length, length-append, take-append_le,
  drop-append_le, length-drop, drop, arith,
}
use mathlib.Core.List.{append_assoc}
use viabtc_future.Pack.{le_bytes}
use viabtc_future.Pack.Words.{
  room, length-le_bytes, le_value-le_bytes, take-append_length, drop-append_length,
}
use viabtc_future.Rpc.{put_fields, get_fields}

-- Each value fits its field.
abbrev pub Fit : List ℕ → List ℕ → Type 0
Fit [] [] = Unit
Fit [] (value ∷ values) = ⊥
Fit (width ∷ widths) [] = ⊥
Fit (width ∷ widths) (value ∷ values) = (value < room width) × Fit widths values

abbrev pub sum : List ℕ → ℕ
sum [] = 0
sum (width ∷ widths) = width + sum widths

pub get_fields-put_fields :
    (widths values rest : List ℕ)
    → Fit widths values
    → get_fields widths (put_fields widths values ++ rest) ≡ values
unfolding get_fields put_fields
get_fields-put_fields [] [] rest h = refl
get_fields-put_fields [] (value ∷ values) rest h = absurd h
get_fields-put_fields (width ∷ widths) [] rest h = absurd h
get_fields-put_fields (width ∷ widths) (value ∷ values) rest h =
    let behind = put_fields widths values ++ rest in
    let bytes = le_bytes width value in
    rw (
      append_assoc bytes (put_fields widths values) rest,
      take-append_length width bytes behind (length-le_bytes width value),
      drop-append_length width bytes behind (length-le_bytes width value),
      le_value-le_bytes width value h.0,
      get_fields-put_fields widths values rest h.1,
    )

pub length-put_fields :
    (widths values : List ℕ) → Fit widths values → length (put_fields widths values) ≡ sum widths
unfolding put_fields
length-put_fields [] [] h = refl
length-put_fields [] (value ∷ values) h = absurd h
length-put_fields (width ∷ widths) [] h = absurd h
length-put_fields (width ∷ widths) (value ∷ values) h = omega (
  arith,
  length-append (le_bytes width value) (put_fields widths values),
  length-le_bytes width value,
  length-put_fields widths values h.1,
)

-- Only the fields that are wholly there are read.
pub get_fields-take :
    (widths bytes rest : List ℕ)
    → sum widths ≤ length bytes
    → get_fields widths (bytes ++ rest) ≡ get_fields widths bytes
unfolding get_fields
get_fields-take [] bytes rest h = refl
get_fields-take (width ∷ widths) bytes rest h = rw (
  take-append_le width bytes rest (omega arith),
  drop-append_le width bytes rest (omega arith),
  get_fields-take widths (drop width bytes) rest (omega (arith, length-drop width bytes)),
)
