-- ===== src/Session/Reads.antt =====
-- A stream session gets the packets of its stream (network/src/nw_ses.c), however the socket cuts it.
use viabtc_future.Prelude.{
  ℕ, suc, ◌≤◌, ◌<◌, ◌≡◌, refl, ap, sym, ◌∙◌, Bool, true, Bool-cases, Option-cases, inl, inr, Option,
  none, some, List, [], ◌∷◌, ◌++◌, All, length, length-append, drop-append_le, arith, ◌==◌,
}
use mathlib.Core.List.{append_assoc, append-nil}
use mathlib.Core.Path.{subst}
use viabtc_future.Buffer.{Buf, Pool, nw_buf_shift, nw_buf_size, nw_buf_avail, nw_buf_free}
use viabtc_future.Buffer.Fifo.{IsBuf, unread, alloc-new_buf}
use viabtc_future.Rpc.{Decoded}
use viabtc_future.Session.{
  Answer, got, interrupted, failed, running, Session, Read, fill_buf, decode_all, read_all,
  finish_read, take_buf, on_can_read,
}
use viabtc_future.Session.Cuts.{
  concat, IsFrame, Short, Cut, nw_buf_size-unread, nw_buf_shift-Shifted, decode_all-Cut,
}

fill_buf-IsBuf :
    (bytes : List ℕ) (buf : Buf)
    → IsBuf buf
    → length bytes ≤ nw_buf_avail buf
    → IsBuf (fill_buf bytes buf)
      × ((fill_buf bytes buf).size ≡ buf.size)
      × (unread (fill_buf bytes buf) ≡ unread buf ++ bytes)
unfolding fill_buf
fill_buf-IsBuf bytes buf b room = (
  record {
    read = omega (arith, b.read);
    fits = omega (arith, b.fits, room);
    filled = omega (arith, length-append buf.bytes bytes, b.filled);
  },
  refl,
  drop-append_le buf.rpos buf.bytes bytes (omega (arith, b.read, b.filled)),
)

-- What is cut off first and then.
more :
    (size n : ℕ) (left : List ℕ) (pkgs pkgs' done received received' received'' : List (List ℕ))
    (buf : Buf)
    → pkgs ≡ done ++ pkgs'
    → received' ≡ received ++ done
    → n ≡ size
    → Cut n left pkgs' received' buf received''
    → Cut size left pkgs received buf received''
more size n left pkgs pkgs' done received received' received'' buf parts all same c =
    let (done', rest, parts', all', b, same', h, short) = c in
    (
      done ++ done',
      rest,
      parts ∙ ap (λ xs. done ++ xs) parts' ∙ sym (append_assoc done done' rest),
      all' ∙ ap (λ xs. xs ++ done') all ∙ append_assoc received done done',
      b,
      same' ∙ same,
      h,
      short,
    )

All-suffix {ℓ} :
    (P : List ℕ → Type ℓ) (pkgs done pkgs' : List (List ℕ))
    → pkgs ≡ done ++ pkgs'
    → All P pkgs
    → All P pkgs'
All-suffix P pkgs done pkgs' parts h = drop_done done (subst (All P) parts h)
  where
    drop_done : (done : List (List ℕ)) → All P (done ++ pkgs') → All P pkgs'
    drop_done [] h = h
    drop_done (pkg ∷ done) h = drop_done done h.1

module _ (decode_pkg : List ℕ → Decoded) (keeps : List ℕ → Bool) where
  -- The answers of the socket bring the bytes that are ahead up to those that are left: each at least
  -- one byte, and no more than the buffer has room for.
  abbrev pub Brings : List Answer → Buf → List (List ℕ) → List ℕ → List ℕ → Type 0
  Brings [] buf received ahead left = ahead ≡ left
  Brings (interrupted ∷ answers) buf received ahead left = Brings answers buf received ahead left
  Brings (failed ∷ answers) buf received ahead left = ⊥
  Brings (got [] ∷ answers) buf received ahead left = ⊥
  Brings (got (b ∷ bs) ∷ answers) buf received ahead left =
      (length (b ∷ bs) ≤ nw_buf_avail buf)
      × (ahead' : List ℕ) × ((b ∷ bs) ++ ahead' ≡ ahead)
      × (elim (decode_all decode_pkg keeps (suc (nw_buf_size (fill_buf (b ∷ bs) buf)))
          (fill_buf (b ∷ bs) buf) received) [
            | none ↦ Unit {0}
            | some (_, buf', received') ↦ Brings answers (nw_buf_shift buf') received' ahead' left
          ])

  read_all-Cut :
      (answers : List Answer) (buf : Buf) (ahead left : List ℕ) (pkgs received : List (List ℕ))
      → IsBuf buf
      → All (IsFrame decode_pkg buf.size) pkgs
      → All (λ pkg. keeps pkg ≡ true) pkgs
      → unread buf ++ ahead ≡ concat pkgs
      → Short (unread buf) pkgs
      → Brings answers buf received ahead left
      → (buf' : Buf) × (received' : List (List ℕ)) × (read_all decode_pkg keeps answers buf received
          ≡ some (running, buf', received'))
        × Cut buf.size left pkgs received buf' received'
  unfolding read_all
  read_all-Cut [] buf ahead left pkgs received b f k h short brings = (
    buf,
    received,
    refl,
    (
      [],
      pkgs,
      refl,
      sym (append-nil received),
      b,
      refl,
      ap (λ xs. unread buf ++ xs) (sym brings) ∙ h,
      short,
    ),
  )
  read_all-Cut (interrupted ∷ answers) buf ahead left pkgs received b f k h short brings =
      read_all-Cut answers buf ahead left pkgs received b f k h short brings
  read_all-Cut (failed ∷ answers) buf ahead left pkgs received b f k h short brings = absurd brings
  read_all-Cut (got [] ∷ answers) buf ahead left pkgs received b f k h short brings = absurd brings
  read_all-Cut (got (x ∷ xs) ∷ answers) buf ahead left pkgs received b f k h short brings =
      let (room, ahead', here, rest) = brings in
      let filled = fill_buf (x ∷ xs) buf in
      let (b', size₀, bytes) = fill_buf-IsBuf (x ∷ xs) buf b room in
      let stream : unread filled ++ ahead' ≡ concat pkgs =
        ap (λ bs. bs ++ ahead') bytes
        ∙ append_assoc (unread buf) (x ∷ xs) ahead'
        ∙ ap (λ bs. unread buf ++ bs) here
        ∙ h in
      let enough : length (unread filled) < suc (nw_buf_size filled) =
        omega (arith, nw_buf_size-unread filled b') in
      let (buf₁, received₁, ended, cuts₁) =
        decode_all-Cut decode_pkg keeps (suc (nw_buf_size filled)) filled ahead' pkgs received b'
          (subst (λ n. All (IsFrame decode_pkg n) pkgs) (sym size₀) f) k stream enough in
      let (done, pkgs₁, parts, all, b₁, same, h₁, short₁) = cuts₁ in
      let (b₂, same₂, bytes₂, _) = nw_buf_shift-Shifted buf₁ b₁ in
      let size : (nw_buf_shift buf₁).size ≡ buf.size = same₂ ∙ same ∙ size₀ in
      let (buf₃, received₃, ended₃, cuts) =
        read_all-Cut answers (nw_buf_shift buf₁) ahead' left pkgs₁ received₁ b₂
          (All-suffix (IsFrame decode_pkg (nw_buf_shift buf₁).size) pkgs done pkgs₁ parts
            (subst (λ n. All (IsFrame decode_pkg n) pkgs) (sym size) f))
          (All-suffix (λ pkg. keeps pkg ≡ true) pkgs done pkgs₁ parts k)
          (ap (λ bs. bs ++ ahead') bytes₂ ∙ h₁) (subst (λ bs. Short bs pkgs₁) (sym bytes₂) short₁)
          (rw ended at rest) in
      (
        buf₃,
        received₃,
        rw (read_all, ended) ended₃,
        more buf.size (nw_buf_shift buf₁).size left pkgs pkgs₁ done received received₁ received₃
            buf₃ parts all size cuts,
      )

-- Where a session stands in its stream: what its buffer holds and what is ahead are the packets to
-- come, and the buffer does not hold all of the first.
abbrev pub Buffered : ℕ → List (List ℕ) → List ℕ → Option Buf → Type 0
Buffered size pkgs ahead none = ahead ≡ concat pkgs
Buffered size pkgs ahead (some buf) =
    IsBuf buf × (buf.size ≡ size) × (unread buf ++ ahead ≡ concat pkgs) × Short (unread buf) pkgs

pub record Streams (size : ℕ) (pkgs : List (List ℕ)) (ahead : List ℕ) (ses : Session) : Type 0 where
  pub going : ses.state ≡ running
  pub sized : ses.pool.size ≡ size
  pub buffered : Buffered size pkgs ahead ses.read_buf

free-size : (buf : Buf) (pool : Pool) → (nw_buf_free buf pool).size ≡ pool.size
unfolding nw_buf_free
free-size buf pool = ground arith

no_bytes : (xs : List ℕ) → length xs ≡ 0 → xs ≡ []
no_bytes [] h = refl
no_bytes (x ∷ xs) h = absurd (omega arith)

finish_read-Streams :
    (size : ℕ) (pkgs : List (List ℕ)) (ahead : List ℕ) (pool : Pool) (buf : Buf)
    (received : List (List ℕ))
    → pool.size ≡ size
    → Buffered size pkgs ahead (some buf)
    → Streams size pkgs ahead (finish_read pool (running, buf, received))
      × ((finish_read pool (running, buf, received)).received ≡ received)
unfolding finish_read
finish_read-Streams size pkgs ahead pool buf received sized (b, same, h, short) =
    elim (Bool-cases (nw_buf_size buf == 0)) [
      | inl empty ↦
          let nothing =
            no_bytes (unread buf) (sym (nw_buf_size-unread buf b) ∙ ground (arith, empty)) in
          rw empty (
            record {
              going = refl;
              sized = free-size buf pool ∙ sized;
              buffered = ap (λ xs. xs ++ ahead) (sym nothing) ∙ h;
            },
            refl,
          )
      | inr some_left ↦
          rw some_left
            (record { going = refl; sized = sized; buffered = (b, same, h, short) }, refl)
    ]

-- Where no bytes are left, no packets are.
all_read :
    (bytes : List ℕ) (pkgs : List (List ℕ))
    → bytes ++ [] ≡ concat pkgs
    → Short bytes pkgs
    → pkgs ≡ []
all_read bytes [] h short = refl
all_read bytes (pkg ∷ pkgs) h short =
    absurd (
      omega (arith, ap length (sym (append-nil bytes) ∙ h), length-append pkg (concat pkgs), short))

module _ (decode_pkg : List ℕ → Decoded) (keeps : List ℕ → Bool) where
  nothing-Short :
      (size : ℕ) (pkgs : List (List ℕ)) → All (IsFrame decode_pkg size) pkgs → Short [] pkgs
  nothing-Short size [] f = refl
  nothing-Short size (pkg ∷ pkgs) f = f.0.some_bytes

  take_buf-Streams :
      (size : ℕ) (pkgs : List (List ℕ)) (ahead : List ℕ) (ses : Session)
      → All (IsFrame decode_pkg size) pkgs
      → Streams size pkgs ahead ses
      → Buffered size pkgs ahead (some (take_buf ses).0) × ((take_buf ses).1.size ≡ size)
  unfolding take_buf
  take_buf-Streams size pkgs ahead ses f s = elim (Option-cases ses.read_buf) [
    | inl nothing ↦
        let (new, same) = alloc-new_buf ses.pool in
        let ahead_all = subst (Buffered size pkgs ahead) nothing s.buffered in
        rw (nothing, new)
          (
            (
              record { read = omega arith; fits = omega arith; filled = refl },
              s.sized,
              ahead_all,
              nothing-Short size pkgs f,
            ),
            same ∙ s.sized,
          )
    | inr (buf, there) ↦ rw there (subst (Buffered size pkgs ahead) there s.buffered, s.sized)
  ]

  on_can_read-running :
      (answers : List Answer) (ses : Session) (r : Read)
      → ses.state ≡ running
      → read_all decode_pkg keeps answers (take_buf ses).0 ses.received ≡ some r
      → on_can_read decode_pkg keeps answers ses ≡ some (finish_read (take_buf ses).1 r)
  unfolding on_can_read
  on_can_read-running answers ses r going ended = ground arith

  -- A session reads on in its stream of packets, each of which its buffer can hold, whatever bytes the
  -- socket has and however it cuts them: it goes on, has got the packets that were whole in their
  -- order, and all of them if no bytes are left.
  pub on_can_read-Streams :
      (size : ℕ) (answers : List Answer) (pkgs : List (List ℕ)) (ahead left : List ℕ)
      (ses : Session)
      → Streams size pkgs ahead ses
      → All (IsFrame decode_pkg size) pkgs
      → All (λ pkg. keeps pkg ≡ true) pkgs
      → Brings decode_pkg keeps answers (take_buf ses).0 ses.received ahead left
      → (ses' : Session) × (done : List (List ℕ)) × (pkgs' : List (List ℕ)) × (on_can_read
            decode_pkg keeps answers ses
          ≡ some ses')
        × (pkgs ≡ done ++ pkgs')
        × (ses'.received ≡ ses.received ++ done)
        × Streams size pkgs' left ses'
        × (left ≡ [] → pkgs' ≡ [])
  on_can_read-Streams size answers pkgs ahead left ses s f k brings =
      let ((b, same, h, short), sized) = take_buf-Streams size pkgs ahead ses f s in
      let (buf', received', ended, cuts) =
        read_all-Cut decode_pkg keeps answers (take_buf ses).0 ahead left pkgs ses.received b
          (subst (λ n. All (IsFrame decode_pkg n) pkgs) (sym same) f) k h short brings in
      let (done, pkgs', parts, all, b', same', h', short') = cuts in
      let (streams, got_all) =
        finish_read-Streams size pkgs' left (take_buf ses).1 buf' received' sized
          (b', same' ∙ same, h', short') in
      (
        finish_read (take_buf ses).1 (running, buf', received'),
        done,
        pkgs',
        on_can_read-running answers ses (running, buf', received') s.going ended,
        parts,
        got_all ∙ all,
        streams,
        λ nothing.
            all_read (unread buf') pkgs' (ap (λ xs. unread buf' ++ xs) (sym nothing) ∙ h') short',
      )
