-- ===== src/Crc32/Serial.antt =====
-- The table of utils/src/ut_crc32.c against a register that is shifted bit by bit.
use Prim.Native.Nat.{bit_xor}
use viabtc_future.Prelude.{
  ℕ, zero, suc, ◌+◌, ◌*◌, ◌/◌, ◌%◌, ◌^◌, ◌<◌, ◌≡◌, refl, ap, sym, ◌∙◌, Bool, true, ◌&&◌, List, [],
  ◌∷◌, arith, if◌then◌else◌, ◌==◌, All, Bool-cases, inl, inr,
}
use viabtc_future.Prelude.Bits.{
  xor-half, xor-parity, xor_comm, xor_assoc, xor-zero, xor_fields, xor-lt, double_mul,
}
use viabtc_future.Pack.Words.{IsByte}
use viabtc_future.Crc32.{crc_c, get_word, crc32_byte, crc32_loop, generate_crc32c}

-- The polynomial of IEEE 802.3, the highest power in the lowest bit.
abbrev pub polynomial : ℕ
polynomial = 0xedb8_8320

-- One bit is shifted out, and the polynomial is added if it was set.
unfoldable pub shift_bit : ℕ → ℕ
shift_bit crc = if crc % 2 == 1 then bit_xor (crc / 2) polynomial else crc / 2

unfoldable pub shift_bits : ℕ → ℕ → ℕ
shift_bits zero crc = crc
shift_bits (suc k) crc = shift_bits k (shift_bit crc)

unfoldable pub serial_loop : ℕ → List ℕ → ℕ
serial_loop crc [] = crc
serial_loop crc (byte ∷ bytes) = serial_loop (shift_bits 8 (bit_xor crc byte)) bytes

-- The checksum by definition.
unfoldable pub serial_crc32 : List ℕ → ℕ
serial_crc32 bytes = bit_xor (serial_loop 0xffff_ffff bytes) 0xffff_ffff

-- Rearranging a sum of four.
xor_swap : (a b c d : ℕ) → bit_xor (bit_xor a b) (bit_xor c d) ≡ bit_xor (bit_xor a c) (bit_xor b d)
xor_swap a b c d =
    xor_assoc a b (bit_xor c d)
    ∙ ap (bit_xor a)
        (sym (xor_assoc b c d) ∙ ap (λ m. bit_xor m d) (xor_comm b c) ∙ xor_assoc c b d)
    ∙ sym (xor_assoc a c (bit_xor b d))

-- What the lowest bit adds.
abbrev tap : ℕ → ℕ
tap bit = if bit == 1 then polynomial else 0

tap_sum : (x y : ℕ) → x < 2 → y < 2 → tap ((x + y) % 2) ≡ bit_xor (tap x) (tap y)
tap_sum zero zero h j = refl
tap_sum zero (suc zero) h j = refl
tap_sum (suc zero) zero h j = refl
tap_sum (suc zero) (suc zero) h j = refl
tap_sum x (suc (suc y)) h j = absurd (omega arith)
tap_sum (suc (suc x)) y h j = absurd (omega arith)

shift_bit-tap : (crc : ℕ) → shift_bit crc ≡ bit_xor (crc / 2) (tap (crc % 2))
unfolding shift_bit
shift_bit-tap crc = ground (arith, xor-zero (crc / 2))

shift_bit-xor : (a b : ℕ) → shift_bit (bit_xor a b) ≡ bit_xor (shift_bit a) (shift_bit b)
shift_bit-xor a b =
    let parity : bit_xor a b % 2 ≡ (a % 2 + b % 2) % 2 = omega (arith, xor-parity a b) in
    let taps : tap (bit_xor a b % 2) ≡ bit_xor (tap (a % 2)) (tap (b % 2)) =
      ap tap parity ∙ tap_sum (a % 2) (b % 2) (omega arith) (omega arith) in
    rw (shift_bit-tap (bit_xor a b), shift_bit-tap a, shift_bit-tap b, taps, xor-half a b)
      (xor_swap (a / 2) (b / 2) (tap (a % 2)) (tap (b % 2)))

pub shift_bits-xor :
    (k a b : ℕ) → shift_bits k (bit_xor a b) ≡ bit_xor (shift_bits k a) (shift_bits k b)
unfolding shift_bits
shift_bits-xor zero a b = refl
shift_bits-xor (suc k) a b =
    ap (shift_bits k) (shift_bit-xor a b) ∙ shift_bits-xor k (shift_bit a) (shift_bit b)

-- Zeros only move.
shift_even : (q : ℕ) → shift_bit (q * 2) ≡ q
shift_even q =
    shift_bit-tap (q * 2)
    ∙ ap (λ m. bit_xor (q * 2 / 2) (tap m)) {x = q * 2 % 2} {y = 0} (omega arith)
    ∙ xor-zero (q * 2 / 2)
    ∙ omega arith

pub shift_zeros : (k q : ℕ) → shift_bits k (q * 2 ^ k) ≡ q
unfolding shift_bits
shift_zeros zero q = omega arith
shift_zeros (suc k) q =
    ap (λ m. shift_bits k (shift_bit m)) {x = q * 2 ^ suc k} {y = q * 2 ^ k * 2}
      (omega (arith, double_mul q k))
    ∙ ap (shift_bits k) (shift_even (q * 2 ^ k))
    ∙ shift_zeros k q

-- Every entry of the table is its index, shifted eight times.
table_checked : ℕ → Bool
table_checked zero = true
table_checked (suc i) = (get_word crc_c i == shift_bits 8 i) && table_checked i

table_right : table_checked 256 ≡ true
unfolding table_checked get_word crc_c shift_bits shift_bit
table_right = refl

table_at : (n i : ℕ) → table_checked n ≡ true → i < n → get_word crc_c i ≡ shift_bits 8 i
unfolding table_checked
table_at zero i h j = absurd (omega arith)
table_at (suc n) i h j = elim (Bool-cases (i == n)) [
  | inl same ↦
      ap (get_word crc_c) {x = i} {y = n} (ground (arith, same))
      ∙ ground (arith, h)
      ∙ ap (shift_bits 8) {x = n} {y = i} (ground (arith, same))
  | inr other ↦ table_at n i (ground (arith, h)) (ground (arith, other))
]

pub split_byte : (x : ℕ) → bit_xor (x / 256 * 256) (x % 256) ≡ x
split_byte x =
    let apart = xor_fields 8 (x / 256) 0 0 (x % 256) (omega arith) (omega arith) in
    omega (
      arith,
      xor-zero (x / 256),
      xor_comm 0 (x % 256) ∙ xor-zero (x % 256),
      ap (λ m. bit_xor m (x % 256)) {x = x / 256 * 2 ^ 8 + 0} {y = x / 256 * 256} (omega arith),
      ap (bit_xor (x / 256 * 2 ^ 8 + 0)) {x = 0 * 2 ^ 8 + x % 256} {y = x % 256} (omega arith),
      apart,
    )

high_bits : (crc byte : ℕ) → byte < 256 → bit_xor crc byte / 256 ≡ crc / 256
high_bits crc byte h =
    let apart = xor_fields 8 (crc / 256) 0 (crc % 256) byte (omega arith) h in
    omega (
      arith,
      xor-zero (crc / 256),
      xor-lt 8 (crc % 256) byte (omega arith) h,
      ap (λ m. bit_xor m byte) {x = crc / 256 * 2 ^ 8 + crc % 256} {y = crc} (omega arith),
      ap (bit_xor (crc / 256 * 2 ^ 8 + crc % 256)) {x = 0 * 2 ^ 8 + byte} {y = byte} (omega arith),
      apart,
    )

-- The table does eight shifts at once.
pub byte-shifts :
    (crc byte : ℕ) → byte < 256 → crc32_byte crc byte ≡ shift_bits 8 (bit_xor crc byte)
unfolding crc32_byte
byte-shifts crc byte h =
    let x = bit_xor crc byte in
    rw (table_at 256 (x % 256) table_right (omega arith)) (
      ap (λ m. bit_xor m (shift_bits 8 (x % 256)))
        (sym (high_bits crc byte h) ∙ sym (shift_zeros 8 (x / 256)))
      ∙ sym (shift_bits-xor 8 (x / 256 * 256) (x % 256))
      ∙ ap (shift_bits 8) (split_byte x))

loop-serial :
    (crc : ℕ) (bytes : List ℕ) → All IsByte bytes → crc32_loop crc bytes ≡ serial_loop crc bytes
unfolding crc32_loop serial_loop
loop-serial crc [] h = refl
loop-serial crc (byte ∷ bytes) h =
    ap (λ c. crc32_loop c bytes) (byte-shifts crc byte h.0)
    ∙ loop-serial (shift_bits 8 (bit_xor crc byte)) bytes h.1

-- On bytes, generate_crc32c computes the checksum that shifts a register bit by bit, with the
-- polynomial of IEEE 802.3.
pub generate_crc32c-serial :
    (buffer : List ℕ) → All IsByte buffer → generate_crc32c buffer ≡ serial_crc32 buffer
unfolding generate_crc32c serial_crc32
generate_crc32c-serial buffer h = ap (λ c. bit_xor c 0xffff_ffff) (loop-serial 0xffff_ffff buffer h)
