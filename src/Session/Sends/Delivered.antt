-- ===== src/Session/Sends/Delivered.antt =====
-- All that happens to a session's sending side (network/src/nw_ses.c), in its order.
use viabtc_future.Prelude.{
  ℕ, ◌≡◌, refl, ap, sym, ◌∙◌, true, some, List, [], ◌∷◌, ◌++◌, length, inl, inr,
}
use mathlib.Core.Path.{subst}
use mathlib.Core.List.{append_assoc, append-nil}
use viabtc_future.Buffer.Fifo.{IsList}
use viabtc_future.Session.Sends.{Sender, on_can_write, IoEvent, sends, can_write, run_events, asked}
use viabtc_future.Session.Sends.Stream.{Delivers}
use viabtc_future.Session.Sends.Queued.{send-Delivers}
use viabtc_future.Session.Sends.Drained.{can_write-Delivers}

run-Delivers :
    (events : List IoEvent) (all : List ℕ) (ses : Sender)
    → Delivers all ses
    → (ses' : Sender) × (run_events events ses ≡ some ses') × Delivers (all ++ asked events) ses'
unfolding run_events
run-Delivers [] all ses d = (ses, refl, subst (λ xs. Delivers xs ses) (sym (append-nil all)) d)
run-Delivers (sends bytes answers ∷ events) all ses d =
    let (ret, mid, sent, d') = send-Delivers answers bytes all ses d in
    let (after, done, d'') = run-Delivers events (all ++ bytes) mid d' in
    (
      after,
      rw (run_events, sent) done,
      subst (λ xs. Delivers xs after) (append_assoc all bytes (asked events)) d'',
    )
run-Delivers (can_write answers ∷ events) all ses d =
    run-Delivers events all (on_can_write answers ses) (can_write-Delivers answers all ses d)

-- Whatever the socket answers, a session that is open, has sent nothing and has no buffers runs
-- through all that happens to it. If it is still open, what it has sent and what waits in its
-- buffers are all the bytes that it was given, in their order, and the loop waits until the socket can
-- be written as long as a buffer is there; if it is closed, it has sent a first part of them. The
-- buffers of its pool are not of size 0.
pub run_events-Delivers :
    (events : List IoEvent) (ses : Sender)
    → ses.is_open ≡ true
    → IsList ses.write_buf
    → ses.write_buf.bufs ≡ []
    → ses.sent ≡ []
    → (ses' : Sender) × (run_events events ses ≡ some ses') × Delivers (asked events) ses'
run_events-Delivers events ses is_open good no_bufs no_sent = run-Delivers events [] ses (
    inl (record {
      is_open = is_open;
      good = good;
      kept = rw (no_bufs, no_sent) refl;
      watched = inr (good.counted ∙ ap length no_bufs);
    }))
