-- ===== src/Session/Cuts.antt =====
-- The bytes that a session has read (network/src/nw_ses.c), as the packets of a stream.
use viabtc_future.Prelude.{
  ℕ, zero, suc, ◌+◌, ◌-◌, ◌≤◌, ◌<◌, ◌≡◌, refl, ap, sym, ◌∙◌, ◌⊎◌, inl, inr, Bool, true, false,
  Bool-cases, some, List, [], ◌∷◌, ◌++◌, All, length, length-append, length-drop, take, drop, arith,
  ◌==◌,
}
use mathlib.Core.List.{append_assoc, append-nil}
use viabtc_future.Buffer.{Buf, nw_buf_shift, nw_buf_size}
use viabtc_future.Buffer.Fifo.{IsBuf, unread}
use viabtc_future.Rpc.{Decoded, incomplete, complete}
use viabtc_future.Pack.Words.{take-append_length, drop-append_length}
use viabtc_future.Session.{running, decode_all, wait_more}

abbrev pub concat : List (List ℕ) → List ℕ
concat [] = []
concat (xs ∷ xss) = xs ++ concat xss

-- A packet of a stream: the decoder wants more bytes of a part of it, and takes the whole packet out
-- of whatever begins with it. It fits in a buffer of the size.
pub record IsFrame (decode_pkg : List ℕ → Decoded) (size : ℕ) (pkg : List ℕ) : Type 0 where
  pub some_bytes : 0 < length pkg
  pub fits : length pkg ≤ size
  pub whole : (rest : List ℕ) → decode_pkg (pkg ++ rest) ≡ complete (length pkg)
  pub part : (xs ys : List ℕ) → xs ++ ys ≡ pkg → 0 < length ys → decode_pkg xs ≡ incomplete

-- Two ways to cut a list: the first part of one holds that of the other, or is shorter.
pub cut :
    (xs ys ps qs : List ℕ)
    → xs ++ ys ≡ ps ++ qs
    → ((us : List ℕ) × (xs ≡ ps ++ us) × (us ++ ys ≡ qs))
      ⊎ ((us : List ℕ) × (xs ++ us ≡ ps) × (0 < length us) × (us ++ qs ≡ ys))
cut xs ys [] qs h = inl (xs, refl, h)
cut [] ys (p ∷ ps) qs h = inr (p ∷ ps, refl, omega arith, sym h)
cut (x ∷ xs) ys (p ∷ ps) qs h =
    let tails : xs ++ ys ≡ ps ++ qs = cc in
    let heads : x ≡ p = cc in
    elim (cut xs ys ps qs tails) [
      | inl (us, e, rest) ↦ inl (us, cc, rest)
      | inr (us, e, more, rest) ↦ inr (us, cc, more, rest)
    ]

-- What the loop of `on_can_read` leaves: some packets are received, and there is not yet all of the
-- next one.
abbrev pub Short : List ℕ → List (List ℕ) → Type 0
Short bytes [] = bytes ≡ []
Short bytes (pkg ∷ pkgs) = length bytes < length pkg

abbrev pub Cut : ℕ → List ℕ → List (List ℕ) → List (List ℕ) → Buf → List (List ℕ) → Type 0
Cut size ahead pkgs received buf received' =
    (done : List (List ℕ)) × (pkgs' : List (List ℕ)) × (pkgs ≡ done ++ pkgs')
    × (received' ≡ received ++ done)
    × IsBuf buf
    × (buf.size ≡ size)
    × (unread buf ++ ahead ≡ concat pkgs')
    × Short (unread buf) pkgs'

pub nw_buf_size-unread : (buf : Buf) → IsBuf buf → nw_buf_size buf ≡ length (unread buf)
nw_buf_size-unread buf b = omega (arith, length-drop buf.rpos buf.bytes, b.filled)

drop-all : (k : ℕ) (xs : List ℕ) → length xs ≤ k → drop k xs ≡ []
drop-all zero [] h = refl
drop-all zero (x ∷ xs) h = absurd (omega arith)
drop-all (suc k) [] h = refl
drop-all (suc k) (x ∷ xs) h = drop-all k xs (omega arith)

drop-nil : (k : ℕ) → drop {A = ℕ} k [] ≡ []
drop-nil zero = refl
drop-nil (suc k) = refl

drop-add : (j k : ℕ) (xs : List ℕ) → drop (j + k) xs ≡ drop k (drop j xs)
drop-add zero k xs = ap (λ n. drop n xs) {x = 0 + k} {y = k} (omega arith)
drop-add (suc j) k [] = drop-nil (suc j + k) ∙ sym (drop-nil k)
drop-add (suc j) k (x ∷ xs) =
    ap (λ n. drop n (x ∷ xs)) {x = suc j + k} {y = suc (j + k)} (omega arith) ∙ drop-add j k xs

-- A shift moves the bytes to the front.
abbrev pub Shifted : Buf → Buf → Type 0
Shifted buf buf' =
    IsBuf buf'
    × (buf'.size ≡ buf.size)
    × (unread buf' ≡ unread buf)
    × (buf'.wpos ≡ length (unread buf))

pub nw_buf_shift-Shifted : (buf : Buf) → IsBuf buf → Shifted buf (nw_buf_shift buf)
unfolding nw_buf_shift
nw_buf_shift-Shifted buf b = elim (Bool-cases (buf.rpos == buf.wpos)) [
  | inl all ↦
      let none_left : unread buf ≡ [] =
        drop-all buf.rpos buf.bytes (ground (arith, all, b.filled)) in
      rw (all, none_left)
        (record { read = omega arith; fits = omega arith; filled = refl }, refl, refl, refl)
  | inr some_left ↦ elim (Bool-cases (buf.rpos == 0)) [
    | inl first ↦
        let front : unread buf ≡ buf.bytes =
          ap (λ n. drop n buf.bytes) {x = buf.rpos} {y = 0} (ground (arith, first)) in
        rw (some_left, first) (b, refl, refl, omega (arith, ap length front, b.filled))
    | inr later ↦
        let long = length-drop buf.rpos buf.bytes in
        rw (some_left, later)
          (
            record {
              read = omega arith;
              fits = omega (arith, b.fits);
              filled = omega (arith, long, b.filled);
            },
            refl,
            refl,
            omega (arith, long, b.filled),
          )
  ]
]

stay :
    (size : ℕ) (ahead : List ℕ) (pkgs received : List (List ℕ)) (buf : Buf)
    → IsBuf buf
    → buf.size ≡ size
    → unread buf ++ ahead ≡ concat pkgs
    → Short (unread buf) pkgs
    → Cut size ahead pkgs received buf received
stay size ahead pkgs received buf b same h short =
    ([], pkgs, refl, sym (append-nil received), b, same, h, short)

step :
    (size : ℕ) (ahead : List ℕ) (pkg : List ℕ) (pkgs received : List (List ℕ)) (buf : Buf)
    (received' : List (List ℕ))
    → Cut size ahead pkgs (received ++ pkg ∷ []) buf received'
    → Cut size ahead (pkg ∷ pkgs) received buf received'
step size ahead pkg pkgs received buf received' c =
    let (done, pkgs', parts, got, b, same, h, short) = c in
    (
      pkg ∷ done,
      pkgs',
      ap (◌∷◌ pkg) parts,
      got ∙ append_assoc received (pkg ∷ []) done,
      b,
      same,
      h,
      short,
    )

no_bytes : (xs : List ℕ) → length xs ≡ 0 → xs ≡ []
no_bytes [] h = refl
no_bytes (x ∷ xs) h = absurd (omega arith)

module _ (decode_pkg : List ℕ → Decoded) (keeps : List ℕ → Bool) where
  -- One round of the loop.
  decode_wait :
      (fuel : ℕ) (buf : Buf) (received : List (List ℕ))
      → 0 < nw_buf_size buf
      → decode_pkg (unread buf) ≡ incomplete
      → (nw_buf_shift buf).wpos < (nw_buf_shift buf).size
      → decode_all decode_pkg keeps (suc fuel) buf received
        ≡ some (running, nw_buf_shift buf, received)
  unfolding decode_all wait_more
  decode_wait fuel buf received some_left part room =
      let go_on : (nw_buf_size buf == 0) ≡ false = ground arith in
      let free : ((nw_buf_shift buf).wpos == (nw_buf_shift buf).size) ≡ false = ground arith in
      rw (go_on, part, free)

  decode_take :
      (fuel : ℕ) (buf : Buf) (pkg us : List ℕ) (received : List (List ℕ))
      → IsBuf buf
      → IsFrame decode_pkg buf.size pkg
      → keeps pkg ≡ true
      → unread buf ≡ pkg ++ us
      → decode_all decode_pkg keeps (suc fuel) buf received
        ≡ decode_all decode_pkg keeps fuel
            (record buf { rpos = buf.rpos + length pkg })
            (received ++ pkg ∷ [])
  unfolding decode_all
  decode_take fuel buf pkg us received b f kept whole =
      let all : length (unread buf) ≡ length pkg + length us =
        ap length whole ∙ length-append pkg us in
      let go_on : (nw_buf_size buf == 0) ≡ false =
        ground (arith, nw_buf_size-unread buf b, all, f.some_bytes) in
      let n = length pkg - 1 in
      let long : length pkg ≡ suc n = omega (arith, f.some_bytes) in
      let decoded : decode_pkg (unread buf) ≡ complete (suc n) =
        ap decode_pkg whole ∙ f.whole us ∙ ap complete long in
      let taken : take (suc n) (unread buf) ≡ pkg =
        ap (take (suc n)) whole ∙ take-append_length (suc n) pkg us long in
      let moved : buf.rpos + suc n ≡ buf.rpos + length pkg = omega (arith, long) in
      rw (go_on, decoded, taken, kept, moved)

  -- The buffer behind the packet.
  take-IsBuf :
      (buf : Buf) (pkg us : List ℕ)
      → IsBuf buf
      → unread buf ≡ pkg ++ us
      → IsBuf (record buf { rpos = buf.rpos + length pkg })
        × (unread (record buf { rpos = buf.rpos + length pkg }) ≡ us)
  take-IsBuf buf pkg us b whole =
      let all : length (unread buf) ≡ length pkg + length us =
        ap length whole ∙ length-append pkg us in
      (
        record {
          read = omega (arith, all, length-drop buf.rpos buf.bytes, b.filled, b.read);
          fits = b.fits;
          filled = b.filled;
        },
        drop-add buf.rpos (length pkg) buf.bytes
            ∙ ap (drop (length pkg)) whole
            ∙ drop-append_length (length pkg) pkg us refl,
      )

  pub decode_all-Cut :
      (fuel : ℕ) (buf : Buf) (ahead : List ℕ) (pkgs received : List (List ℕ))
      → IsBuf buf
      → All (IsFrame decode_pkg buf.size) pkgs
      → All (λ pkg. keeps pkg ≡ true) pkgs
      → unread buf ++ ahead ≡ concat pkgs
      → length (unread buf) < fuel
      → (buf' : Buf) × (received' : List (List ℕ)) × (decode_all decode_pkg keeps fuel buf received
          ≡ some (running, buf', received'))
        × Cut buf.size ahead pkgs received buf' received'
  unfolding decode_all
  decode_all-Cut zero buf ahead pkgs received b f k h enough = absurd (omega arith)
  decode_all-Cut (suc fuel) buf ahead [] received b f k h enough =
      let nothing : unread buf ≡ [] =
        ground (arith, ap length h, length-append (unread buf) ahead, no_bytes (unread buf)) in
      let empty : nw_buf_size buf ≡ 0 = nw_buf_size-unread buf b ∙ ap length nothing in
      (buf, received, rw (empty), stay buf.size ahead [] received buf b refl h nothing)
  decode_all-Cut (suc fuel) buf ahead (pkg ∷ pkgs) received b f k h enough =
      elim (cut (unread buf) ahead pkg (concat pkgs) h) [
        | inl (us, whole, rest) ↦
            let buf' = record buf { rpos = buf.rpos + length pkg } in
            let (b', left) = take-IsBuf buf pkg us b whole in
            let fewer : length (unread buf') < fuel = omega (
              arith,
              ap length left,
              ap length whole,
              length-append pkg us,
              f.0.some_bytes,
              enough,
            ) in
            let (buf'', received'', ended, cuts) =
              decode_all-Cut fuel buf' ahead pkgs (received ++ pkg ∷ []) b' f.1 k.1
                (ap (λ xs. xs ++ ahead) left ∙ rest) fewer in
            (
              buf'',
              received'',
              decode_take fuel buf pkg us received b f.0 k.0 whole ∙ ended,
              step buf.size ahead pkg pkgs received buf'' received'' cuts,
            )
        | inr (us, part, more, rest) ↦
            let shorter : length (unread buf) < length pkg =
              omega (arith, ap length part, length-append (unread buf) us, more) in
            elim (Bool-cases (nw_buf_size buf == 0)) [
              | inl empty ↦ (
                buf,
                received,
                rw empty,
                stay buf.size ahead (pkg ∷ pkgs) received buf b refl h shorter,
              )
              | inr some_left ↦
                  let (b', same, left, wpos) = nw_buf_shift-Shifted buf b in
                  (
                    nw_buf_shift buf,
                    received,
                    decode_wait fuel buf received (ground (arith, some_left))
                        (f.0.part (unread buf) us part more)
                        (omega (arith, wpos, same, shorter, f.0.fits)),
                    stay buf.size ahead (pkg ∷ pkgs) received (nw_buf_shift buf) b' same
                        (ap (λ xs. xs ++ ahead) left ∙ h) (omega (arith, ap length left, shorter)),
                  )
            ]
      ]
