-- ===== src/Session/Sends/Stream.antt =====
-- What a session has sent and what waits in its buffers (network/src/nw_ses.c), as one stream.
use viabtc_future.Prelude.{
  ℕ, zero, suc, ◌+◌, ◌≤◌, ◌≡◌, ◌⊎◌, refl, ap, sym, ◌∙◌, Bool, true, false, some, List, [], ◌∷◌,
  ◌++◌, arith, length, length-append, length-drop, take, drop, inl, inr, Bool-cases, ltb, ◌==◌,
  if◌then◌else◌,
}
use mathlib.Core.List.{append_assoc, append-nil}
use viabtc_future.Buffer.Fifo.{IsList, content}
use viabtc_future.Buffer.Writes.{nw_buf_list_write-Fifo}
use viabtc_future.Session.Sends.{
  Taken, again, refused, took, Sender, nw_write_stream, nw_ses_close, queue_bytes,
}

-- An open session: what it has sent and what waits is all that it was given, and the loop waits for
-- the socket as long as a buffer is there.
pub record Going (all : List ℕ) (ses : Sender) : Type 0 where
  pub is_open : ses.is_open ≡ true
  pub good : IsList ses.write_buf
  pub kept : ses.sent ++ content ses.write_buf.bufs ≡ all
  pub watched : (ses.writing ≡ true) ⊎ (ses.write_buf.count ≡ 0)

-- A closed one has sent a first part of it.
pub record Stopped (all : List ℕ) (ses : Sender) : Type 0 where
  pub closed : ses.is_open ≡ false
  pub lost : List ℕ
  pub part : ses.sent ++ lost ≡ all

abbrev pub Delivers : List ℕ → Sender → Type 0
Delivers all ses = Going all ses ⊎ Stopped all ses

drop_nil : (n : ℕ) → drop {A = ℕ} n [] ≡ []
drop_nil zero = refl
drop_nil (suc n) = refl

pub drop_add : (m n k : ℕ) (xs : List ℕ) → k ≡ m + n → drop k xs ≡ drop n (drop m xs)
drop_add zero n k xs h = ap (λ i. drop i xs) (omega (arith, h))
drop_add (suc m) n zero xs h = absurd (omega (arith, h))
drop_add (suc m) n (suc k) [] h = sym (drop_nil n)
drop_add (suc m) n (suc k) (x ∷ xs) h = drop_add m n k xs (omega (arith, h))

pub take_past : (n : ℕ) (xs : List ℕ) → length xs ≤ n → take n xs ≡ xs
take_past zero [] h = refl
take_past zero (x ∷ xs) h = absurd (omega arith)
take_past (suc n) [] h = refl
take_past (suc n) (x ∷ xs) h = ap (◌∷◌ x) (take_past n xs (omega arith))

pub no_rest : {A : Type 0} (xs ys : List A) → length (xs ++ ys) ≡ length xs → ys ≡ []
no_rest xs [] h = refl
no_rest xs (y ∷ ys) h = absurd (omega (arith, length-append xs (y ∷ ys), h))

pub nwrite_le :
    (answers : List Taken) (bytes : List ℕ) → (nw_write_stream answers bytes).nwrite ≤ length bytes
unfolding nw_write_stream
nwrite_le answers [] = omega arith
nwrite_le [] (b ∷ bs) = omega arith
nwrite_le (again ∷ answers) (b ∷ bs) = nwrite_le answers (b ∷ bs)
nwrite_le (refused ∷ answers) (b ∷ bs) = omega arith
nwrite_le (took n ∷ answers) (b ∷ bs) =
    let k = if ltb n (length bs) then n else length bs in
    ground (arith, nwrite_le answers (drop k bs), length-drop k bs)

pub close-Stopped :
    (ses : Sender) (all lost : List ℕ) → ses.sent ++ lost ≡ all → Stopped all (nw_ses_close ses)
unfolding nw_ses_close
close-Stopped ses all lost h = record { closed = refl; lost = lost; part = h }

-- What the buffers take of the bytes comes behind all that was given before.
pub queue_bytes-Delivers :
    (bytes all : List ℕ) (writing : Bool) (ses : Sender)
    → ses.is_open ≡ true
    → IsList ses.write_buf
    → ses.sent ++ content ses.write_buf.bufs ≡ all
    → writing ≡ true
    → (ret : Bool) × (ses' : Sender) × (queue_bytes bytes writing ses ≡ some (ret, ses'))
      × Delivers (all ++ bytes) ses'
unfolding queue_bytes
queue_bytes-Delivers bytes all writing ses is_open good kept on =
    let (n, list, left, done, good', (ws, split, count, written), _) =
      nw_buf_list_write-Fifo (length bytes) bytes ses.write_buf good (omega arith) in
    let ses' = record ses { write_buf = list } in
    elim (Bool-cases (n == length bytes)) [
      | inl whole ↦
          let nothing : left ≡ [] =
            no_rest ws left (ap length (sym split) ∙ ground (arith, whole, count)) in
          let same : bytes ≡ ws = split ∙ ap (◌++◌ ws) nothing ∙ append-nil ws in
          (
            true,
            record ses' { writing = writing },
            rw (queue_bytes, done, whole) refl,
            inl (record {
              is_open = is_open;
              good = good';
              kept =
                  ap (◌++◌ ses.sent) (written ∙ ap (◌++◌ (content ses.write_buf.bufs)) (sym same))
                  ∙ sym (append_assoc ses.sent (content ses.write_buf.bufs) bytes)
                  ∙ ap (λ xs. xs ++ bytes) kept;
              watched = inl on;
            }),
          )
      | inr part ↦ (
        false,
        nw_ses_close ses',
        rw (queue_bytes, done, part) refl,
        inr (
            close-Stopped ses' (all ++ bytes) (content ses.write_buf.bufs ++ bytes) (
              sym (append_assoc ses.sent (content ses.write_buf.bufs) bytes)
              ∙ ap (λ xs. xs ++ bytes) kept)),
      )
    ]

-- A branch of a test that is decided.
pub then_branch : {A : Type 0} (b : Bool) (x y : A) → b ≡ true → (if b then x else y) ≡ x
then_branch true x y h = refl
then_branch false x y h = ground (arith, h)

pub else_branch : {A : Type 0} (b : Bool) (x y : A) → b ≡ false → (if b then x else y) ≡ y
else_branch true x y h = ground (arith, h)
else_branch false x y h = refl
