-- ===== src/Tests/Pendings.antt =====
-- Requests that wait for an answer (network/src/nw_state.c), at concrete ids.
use viabtc_future.Prelude.{ℕ, ◌^◌, ◌-◌, ◌≡◌, refl, some, is_some, arith}
use viabtc_future.Pending.{
  NwState, nw_state_create, nw_state_add, nw_state_get, nw_state_del, add_entry, next_id,
  available_from, get_available_id, expand_if_needed, get_from, link_entry, write_slot,
}
use viabtc_future.Pending.Grow.{IsState, nw_state_create-IsState}
use viabtc_future.Pending.Adds.{Adds, Added, add_entry-Added, nw_state_add-Adds}
use viabtc_future.Pending.Dels.{Removed, nw_state_del-Removed}

-- The request 1 waits, and the ids have run through.
abbrev idle : NwState ℕ
idle = record nw_state_create { id_start = 2 ^ 32 - 1 }

abbrev waiting : NwState ℕ
waiting = add_entry 1 1000 0 idle

free_again :
    nw_state_add 500 0 0 waiting
    ≡ some (some 2, record (add_entry 2 500 0 waiting) { id_start = 2 })
unfolding nw_state_add get_available_id available_from next_id nw_state_get nw_state_create
    add_entry expand_if_needed get_from link_entry write_slot
free_again = refl

idle-IsState : IsState idle
unfolding nw_state_create
idle-IsState =
    let h = nw_state_create-IsState {D = ℕ} in
    record {
      placed = h.placed;
      counted = h.counted;
      some_slot = h.some_slot;
      small = h.small;
      in_range = omega arith;
    }

waiting-Added : Added record { id = 1; timeout = 1000; content = 0 } idle waiting
unfolding nw_state_create nw_state_get get_from
waiting-Added = add_entry-Added 1 1000 0 idle idle-IsState (omega arith) refl

nw_state_add-Adds_example : Adds 500 0 0 waiting (nw_state_add 500 0 0 waiting)
unfolding add_entry expand_if_needed nw_state_create
nw_state_add-Adds_example = nw_state_add-Adds 500 0 0 waiting waiting-Added.sound (omega arith)

nw_state_del-Removed_example :
    ((nw_state_del 1 waiting).0 ≡ is_some (nw_state_get 1 waiting))
    × Removed 1 waiting (nw_state_del 1 waiting).1
nw_state_del-Removed_example = nw_state_del-Removed 1 waiting waiting-Added.sound
