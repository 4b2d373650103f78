-- ===== src/Device/Mux/LateSends.antt =====
-- Goroutines that send late: the variable of Dispatch's loop is one for all rounds, so a goroutine
-- may send to a later subscription than its own; and a close may overtake it.
use iothub.Base.{
  ℕ, ◌+◌, ◌≡◌, refl, ◌≢◌, ap, ◌∙◌, true, false, [], ◌∷◌, ◌++◌, arith, length, length-append, ◌≤◌,
  ok, panic, append_assoc,
}
use iothub.Device.Mux.{Mux, capacity, push, write, dispatch, send_late, close}
use iothub.Device.Mux.Ids.{elem, Distinct}
use iothub.Device.Mux.Closing.{close-closed}
use iothub.Device.Mux.Steps.{Reach, here, next, dispatches, sends}

module _ {A : Type 0} (msg : A) (m : Mux A) (a b : ℕ) where
  two_senders :
      m.subs ≡ a ∷ b ∷ []
      → a ≢ b
      → m.senders ≡ []
      → capacity ≤ length (m.heap a).buffer
      → length (m.heap b).buffer + 2 ≤ capacity
      → ((dispatch msg m).senders ≡ record { targets = a ∷ b ∷ []; msg = msg } ∷ [])
        × (((dispatch msg m).heap b).buffer ≡ (m.heap b).buffer ++ msg ∷ [])
        × (((dispatch msg m).heap a).buffer ≡ (m.heap a).buffer)
        × (((dispatch msg m).heap b).is_closed ≡ (m.heap b).is_closed)
  unfolding dispatch
  two_senders two ne idle full room = rw (dispatch, two) (ground arith)

  -- With the first of two subscriptions full and the second not, a schedule exists in which the
  -- second receives a dispatched message twice, the first never does, and no goroutine is left.
  pub late_send_misdirected :
      m.subs ≡ a ∷ b ∷ []
      → a ≢ b
      → m.senders ≡ []
      → capacity ≤ length (m.heap a).buffer
      → length (m.heap b).buffer + 2 ≤ capacity
      → (m.heap b).is_closed ≡ false
      → (n : Mux A) × Reach m n
        × ((n.heap b).buffer ≡ (m.heap b).buffer ++ msg ∷ msg ∷ [])
        × ((n.heap a).buffer ≡ (m.heap a).buffer)
        × (n.senders ≡ [])
  late_send_misdirected two ne idle full room open_b =
      let (held, at_b, at_a, same) = two_senders two ne idle full room in
      let d = dispatch msg m in
      let n = write d b (push (d.heap b) msg) in
      let sent : send_late b msg d ≡ ok n = unfold send_late in rw (same ∙ open_b) refl in
      let short : length (d.heap b).buffer + 1 ≤ capacity =
        omega (arith, ap length at_b, length-append (m.heap b).buffer (msg ∷ [])) in
      (
        record n { senders = [] },
        next (next here (dispatches msg)) (
            sends [] [] (record { targets = a ∷ b ∷ []; msg = msg }) b held (ground arith)
              (omega arith) sent),
        ground (arith, append_assoc (m.heap b).buffer (msg ∷ []) (msg ∷ []), at_b),
        ground (arith, at_a),
        refl,
      )

-- A goroutine that is still waiting when its subscription is closed panics if it sends.
pub send_late-close :
    {A : Type 0} (msg : A) (m n : Mux A) (s : ℕ)
    → Distinct m.subs
    → close m ≡ ok n
    → elem s m.subs ≡ true
    → send_late s msg n ≡ panic
unfolding send_late
send_late-close msg m n s d e listed = ground (arith, (close-closed m n d e).1 s)
