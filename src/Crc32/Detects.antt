-- ===== src/Crc32/Detects.antt =====
-- What the checksum of utils/src/ut_crc32.c detects.
use Prim.Native.Nat.{bit_xor}
use viabtc_future.Prelude.{
  ℕ, zero, suc, ◌+◌, ◌*◌, ◌/◌, ◌%◌, ◌^◌, ◌≤◌, ◌<◌, ◌≡◌, refl, ap, sym, ◌∙◌, List, [], ◌∷◌, ◌++◌,
  arith, length, All, Bool-cases, inl, inr, ◌==◌,
}
use viabtc_future.Prelude.Bits.{xor_comm, xor_assoc, xor_self, xor-zero, xor-lt, xor_cancel}
use viabtc_future.Pack.{le_bytes, le_value}
use viabtc_future.Pack.Words.{IsByte, room, le_value-lt, le_bytes-le_value}
use viabtc_future.Crc32.{crc32_byte, crc32_loop, generate_crc32c}
use viabtc_future.Crc32.Serial.{
  polynomial, shift_bit, shift_bits, shift_bits-xor, shift_zeros, split_byte, byte-shifts,
}

-- A word whose bits are shifted out to nothing has none.
shift_bit-zero : (crc : ℕ) → crc < 2 ^ 32 → shift_bit crc ≡ 0 → crc ≡ 0
unfolding shift_bit
shift_bit-zero crc h none = elim (Bool-cases (crc % 2 == 1)) [
  | inl odd ↦
      let gone : bit_xor (crc / 2) polynomial ≡ bit_xor polynomial polynomial =
        ground (arith, none, odd, xor_self polynomial) in
      absurd (omega (arith, xor_cancel (crc / 2) polynomial polynomial gone))
  | inr even ↦ ground (arith, none, even)
]

shift_bit-lt : (crc : ℕ) → crc < 2 ^ 32 → shift_bit crc < 2 ^ 32
unfolding shift_bit
shift_bit-lt crc h = ground (arith, xor-lt 32 (crc / 2) polynomial)

shift_bits-lt : (k crc : ℕ) → crc < 2 ^ 32 → shift_bits k crc < 2 ^ 32
unfolding shift_bits
shift_bits-lt zero crc h = h
shift_bits-lt (suc k) crc h = shift_bits-lt k (shift_bit crc) (shift_bit-lt crc h)

shift_bits-zero : (k crc : ℕ) → crc < 2 ^ 32 → shift_bits k crc ≡ 0 → crc ≡ 0
unfolding shift_bits
shift_bits-zero zero crc h none = none
shift_bits-zero (suc k) crc h none =
    shift_bit-zero crc h (shift_bits-zero k (shift_bit crc) (shift_bit-lt crc h) none)

-- Different words stay different.
shift_bits_inj : (k a b : ℕ) → a < 2 ^ 32 → b < 2 ^ 32 → shift_bits k a ≡ shift_bits k b → a ≡ b
shift_bits_inj k a b h j same =
    let apart : shift_bits k (bit_xor a b) ≡ 0 =
      shift_bits-xor k a b
      ∙ ap (λ m. bit_xor m (shift_bits k b)) same
      ∙ xor_self (shift_bits k b) in
    xor_cancel a b b (shift_bits-zero k (bit_xor a b) (xor-lt 32 a b h j) apart ∙ sym (xor_self b))

byte-lt : (crc byte : ℕ) → crc < 2 ^ 32 → byte < 256 → crc32_byte crc byte < 2 ^ 32
byte-lt crc byte h j =
    rw (byte-shifts crc byte j)
      (shift_bits-lt 8 (bit_xor crc byte) (xor-lt 32 crc byte h (omega arith)))

loop-lt :
    (crc : ℕ) (bytes : List ℕ) → crc < 2 ^ 32 → All IsByte bytes → crc32_loop crc bytes < 2 ^ 32
unfolding crc32_loop
loop-lt crc [] h j = h
loop-lt crc (byte ∷ bytes) h j = loop-lt (crc32_byte crc byte) bytes (byte-lt crc byte h j.0) j.1

loop-append :
    (crc : ℕ) (xs ys : List ℕ) → crc32_loop crc (xs ++ ys) ≡ crc32_loop (crc32_loop crc xs) ys
unfolding crc32_loop
loop-append crc [] ys = refl
loop-append crc (x ∷ xs) ys = loop-append (crc32_byte crc x) xs ys

shift_bits-add : (j k crc : ℕ) → shift_bits k (shift_bits j crc) ≡ shift_bits (j + k) crc
unfolding shift_bits
shift_bits-add zero k crc = ap (λ n. shift_bits n crc) {x = k} {y = 0 + k} (omega arith)
shift_bits-add (suc j) k crc =
    shift_bits-add j k (shift_bit crc)
    ∙ ap (λ n. shift_bits n crc) {x = suc (j + k)} {y = suc j + k} (omega arith)

join_byte : (byte v : ℕ) → byte < 256 → bit_xor byte (v * 256) ≡ byte + 256 * v
join_byte byte v h =
    let x = byte + 256 * v in
    let high : x / 256 * 256 ≡ v * 256 = omega arith in
    let low : x % 256 ≡ byte = omega arith in
    xor_comm byte (v * 256)
    ∙ sym (ap (λ m. bit_xor m (x % 256)) high ∙ ap (bit_xor (v * 256)) low)
    ∙ split_byte x

-- Some bytes are added and shifted out as one number.
loop-shifts :
    (crc : ℕ) (bytes : List ℕ)
    → All IsByte bytes
    → crc32_loop crc bytes ≡ shift_bits (8 * length bytes) (bit_xor crc (le_value bytes))
unfolding crc32_loop le_value shift_bits
loop-shifts crc [] h = sym (xor-zero crc)
loop-shifts crc (byte ∷ bytes) h =
    let v = le_value bytes in
    let n = 8 * length bytes in
    let both : bit_xor (crc32_byte crc byte) v ≡ shift_bits 8 (bit_xor crc (byte + 256 * v)) =
      ap (λ m. bit_xor m v) (byte-shifts crc byte h.0)
      ∙ ap (bit_xor (shift_bits 8 (bit_xor crc byte))) (sym (shift_zeros 8 v))
      ∙ sym (shift_bits-xor 8 (bit_xor crc byte) (v * 256))
      ∙ ap (shift_bits 8)
          (xor_assoc crc byte (v * 256) ∙ ap (bit_xor crc) (join_byte byte v h.0)) in
    loop-shifts (crc32_byte crc byte) bytes h.1
    ∙ ap (shift_bits n) both
    ∙ shift_bits-add 8 n (bit_xor crc (byte + 256 * v))
    ∙ ap (λ m. shift_bits m (bit_xor crc (byte + 256 * v))) {x = 8 + n} {y = 8 * suc (length bytes)}
        (omega arith)

-- Bytes that differ leave words that differ.
loop_inj :
    (a b : ℕ) (bytes : List ℕ)
    → a < 2 ^ 32
    → b < 2 ^ 32
    → All IsByte bytes
    → crc32_loop a bytes ≡ crc32_loop b bytes
    → a ≡ b
unfolding crc32_loop
loop_inj a b [] ha hb h same = same
loop_inj a b (byte ∷ bytes) ha hb h same =
    let one =
      loop_inj (crc32_byte a byte) (crc32_byte b byte) bytes (byte-lt a byte ha h.0)
        (byte-lt b byte hb h.0) h.1 same in
    let word : byte < 2 ^ 32 = omega (arith, h.0) in
    xor_cancel a b byte (
      shift_bits_inj 8 (bit_xor a byte) (bit_xor b byte) (xor-lt 32 a byte ha word)
        (xor-lt 32 b byte hb word) (sym (byte-shifts a byte h.0) ∙ one ∙ byte-shifts b byte h.0))

room-le : (n : ℕ) → n ≤ 4 → room n ≤ 2 ^ 32
room-le zero h = omega arith
room-le (suc zero) h = omega arith
room-le (suc (suc zero)) h = omega arith
room-le (suc (suc (suc zero))) h = omega arith
room-le (suc (suc (suc (suc zero)))) h = omega arith
room-le (suc (suc (suc (suc (suc n))))) h = absurd (omega arith)

word-lt : (bytes : List ℕ) → length bytes ≤ 4 → All IsByte bytes → le_value bytes < 2 ^ 32
word-lt bytes h j = omega (arith, le_value-lt bytes j, room-le (length bytes) h)

pub generate_crc32c-lt : (buffer : List ℕ) → All IsByte buffer → generate_crc32c buffer < 2 ^ 32
unfolding generate_crc32c
generate_crc32c-lt buffer h =
    xor-lt 32 (crc32_loop 0xffff_ffff buffer) 0xffff_ffff
      (loop-lt 0xffff_ffff buffer (omega arith) h) (omega arith)

-- Where two buffers of bytes differ in at most four bytes in a row, their checksums differ.
pub generate_crc32c_detects :
    (before error error' after : List ℕ)
    → All IsByte before
    → All IsByte error
    → All IsByte error'
    → All IsByte after
    → length error ≡ length error'
    → length error ≤ 4
    → generate_crc32c (before ++ (error ++ after)) ≡ generate_crc32c (before ++ (error' ++ after))
    → error ≡ error'
unfolding generate_crc32c
generate_crc32c_detects before error error' after hb he he' ha long short same =
    let c = crc32_loop 0xffff_ffff before in
    let start : c < 2 ^ 32 = loop-lt 0xffff_ffff before (omega arith) hb in
    let state : (m : List ℕ)
        → crc32_loop 0xffff_ffff (before ++ (m ++ after)) ≡ crc32_loop (crc32_loop c m) after =
      λ m. loop-append 0xffff_ffff before (m ++ after) ∙ loop-append c m after in
    let states : crc32_loop c error ≡ crc32_loop c error' =
      loop_inj (crc32_loop c error) (crc32_loop c error') after (loop-lt c error start he)
        (loop-lt c error' start he') ha
        (sym (state error)
          ∙ xor_cancel (crc32_loop 0xffff_ffff (before ++ (error ++ after)))
              (crc32_loop 0xffff_ffff (before ++ (error' ++ after))) 0xffff_ffff same
          ∙ state error') in
    let v = word-lt error short he in
    let v' = word-lt error' (omega (arith, short, long)) he' in
    let words : bit_xor c (le_value error) ≡ bit_xor c (le_value error') =
      shift_bits_inj (8 * length error) (bit_xor c (le_value error)) (bit_xor c (le_value error'))
        (xor-lt 32 c (le_value error) start v) (xor-lt 32 c (le_value error') start v')
        (sym (loop-shifts c error he)
          ∙ states
          ∙ loop-shifts c error' he'
          ∙ ap (λ n. shift_bits (8 * n) (bit_xor c (le_value error'))) (sym long)) in
    let values : le_value error ≡ le_value error' =
      xor_cancel (le_value error) (le_value error') c
        (xor_comm (le_value error) c ∙ words ∙ xor_comm c (le_value error')) in
    sym (le_bytes-le_value error he)
    ∙ ap (λ n. le_bytes n (le_value error)) long
    ∙ ap (le_bytes (length error')) values
    ∙ le_bytes-le_value error' he'
