-- ===== src/Device/Tests.antt =====
-- The dispatchers of iotdevice/mux.go at concrete states, and each property at one.
use iothub.Base.{
  ℕ, ◌+◌, ◌≡◌, refl, ◌≢◌, ◌⊎◌, ◌&&◌, true, false, [], ◌∷◌, ◌++◌, Option, none, some, Str, codes,
  List, arith, ap, Outcome, ok, fail, panic, not_connected, if◌then◌else◌, ◌==◌, str_eq, lookup,
  method_not_registered,
}
use iothub.Device.Once.{once, calls, until_ok, calls-until_ok}
use iothub.Device.Mux.{Sub, Mux, fresh_sub, dispatch, subscribe, unsub, close, send_late}
use iothub.Device.Mux.Ids.{elem}
use iothub.Device.Mux.Delivery.{has_room, overflow, dispatch-buffers}
use iothub.Device.Mux.History.{
  Event, dispatched, subscribed, unsubscribed, read, run, start, expect, expect_all, nothing_due,
  run_delivers, happen,
}
use iothub.Device.Mux.Closing.{closed_sub, close_total}
use iothub.Device.Mux.Steps.{
  Reach, here, next, subscribes, dispatches, unsubscribes, IsWellFormed, init, init-IsWellFormed,
  Reach-IsWellFormed,
}
use iothub.Device.Mux.LateSends.{late_send_misdirected, send_late-close}
use iothub.Device.Methods.{Json, Handler, MethodMux, entries, dispatch as dispatch_method}
use iothub.Device.Methods.Laws.{Answers, dispatch_outcomes}

-- A subscription that fails at the second world and passes from the third on.
abbrev attempt : ℕ → ℕ × Outcome (Unit {0})
attempt n = if n == 0 then (1, fail not_connected) else (n + 1, ok tt)

third_call : calls false (attempt ∷ attempt ∷ attempt ∷ []) 0 ≡ (true, 2)
unfolding calls once
third_call = refl

calls-until_ok_example :
    calls false (attempt ∷ attempt ∷ attempt ∷ []) 0 ≡ until_ok (attempt ∷ attempt ∷ attempt ∷ []) 0
calls-until_ok_example = calls-until_ok (attempt ∷ attempt ∷ attempt ∷ []) 0

abbrev full_sub : Sub ℕ
full_sub = record {
  buffer = 1 ∷ 2 ∷ 3 ∷ 4 ∷ 5 ∷ 6 ∷ 7 ∷ 8 ∷ 9 ∷ 10 ∷ [];
  is_closed = false;
  err = none;
}

-- The first of two subscriptions is full.
abbrev two_subs : Mux ℕ
two_subs = record {
  subs = 0 ∷ 1 ∷ [];
  heap = λ s. if s == 0 then full_sub else fresh_sub;
  next = 2;
  senders = [];
  done = false;
}

-- One subscription, before and after close.
abbrev one_sub : Mux ℕ
one_sub = record { subs = 0 ∷ []; heap = λ s. full_sub; next = 1; senders = []; done = false }

abbrev closed_one : Mux ℕ
closed_one = record {
  subs = [];
  heap = λ t. if t == 0 then closed_sub full_sub else full_sub;
  next = 1;
  senders = [];
  done = false;
}

close-one_sub : close one_sub ≡ ok closed_one
unfolding close
close-one_sub = refl

dispatch-buffers_example :
    ((s : ℕ)
      → ((dispatch 11 two_subs).heap s).buffer ≡ (
          if elem s (0 ∷ 1 ∷ []) && has_room 11 two_subs s
          then (two_subs.heap s).buffer ++ 11 ∷ []
          else (two_subs.heap s).buffer))
    × ((dispatch 11 two_subs).senders ≡ [] ++ overflow 11 (0 ∷ 1 ∷ []) two_subs)
dispatch-buffers_example = dispatch-buffers 11 two_subs (refl, (refl, tt))

-- The first subscription leaves between two dispatches, and the second one has read once.
abbrev afternoon : List (Event ℕ)
afternoon =
    subscribed
    ∷ dispatched 4
    ∷ subscribed
    ∷ dispatched 5
    ∷ read 1
    ∷ unsubscribed 0
    ∷ dispatched 6
    ∷ []

run_delivers_example :
    ((run afternoon start).taken 1 ++ ((run afternoon start).mux.heap 1).buffer
      ≡ (expect_all afternoon nothing_due).due 1)
    × (elem 1 (run afternoon start).mux.subs ≡ (expect_all afternoon nothing_due).stands 1)
run_delivers_example = run_delivers afternoon 1 (unfold run happen in refl)

afternoon-due : (expect_all afternoon nothing_due).due 1 ≡ 5 ∷ 6 ∷ []
unfolding expect_all expect
afternoon-due = refl

Reach-IsWellFormed_example : IsWellFormed (unsub 0 (dispatch 5 (subscribe {A = ℕ} init).0))
Reach-IsWellFormed_example =
    Reach-IsWellFormed (next (next (next here subscribes) (dispatches 5)) (unsubscribes 0))
      init-IsWellFormed

close_total_example : (n : Mux ℕ) × (close two_subs ≡ ok n)
close_total_example = close_total two_subs (refl, (refl, tt)) (λ s e. ground arith)

late_send_misdirected_example :
    (n : Mux ℕ) × Reach two_subs n
    × ((n.heap 1).buffer ≡ [] ++ 11 ∷ 11 ∷ [])
    × ((n.heap 0).buffer ≡ full_sub.buffer)
    × (n.senders ≡ [])
late_send_misdirected_example =
    late_send_misdirected 11 two_subs 0 1 refl (omega arith) refl (omega arith) (omega arith) refl

send_late-close_example : send_late 0 7 closed_one ≡ panic
send_late-close_example = send_late-close 7 one_sub closed_one 0 (refl, tt) close-one_sub refl

-- A codec whose objects are texts, and a handler that answers with what it is given.
abbrev plain_json : Json Str
plain_json = record {
  unmarshal = λ s. ok (some s);
  marshal = λ o. ok o;
  empty = codes "{}";
  quote_error = λ e. codes "{error}";
}

abbrev echo : Handler Str
echo o = ok o

abbrev one_method : MethodMux Str
one_method = record { table = some ((codes "echo", echo) ∷ []) }

echo_dispatch :
    dispatch_method plain_json (codes "echo") (codes "hi") one_method ≡ ok (200, codes "hi")
unfolding dispatch_method lookup str_eq
echo_dispatch = refl

handler-total :
    (f : Handler Str) (v : Option Str)
    → lookup (codes "echo") (entries one_method) ≡ some f
    → f v ≢ panic
unfolding lookup str_eq
handler-total f v e =
    let same : echo v ≡ f v = ap (λ o. elim o [ none ↦ echo v | some g ↦ g v ]) e in (λ h. cc)

dispatch_outcomes_example :
    ((lookup (codes "echo") (entries one_method) ≡ none)
      × (dispatch_method plain_json (codes "echo") (codes "hi") one_method
          ≡ fail method_not_registered))
    ⊎ ((f : Handler Str) × (a : ℕ × Str) × (lookup (codes "echo") (entries one_method) ≡ some f)
        × (dispatch_method plain_json (codes "echo") (codes "hi") one_method ≡ ok a)
        × Answers plain_json f (codes "hi") a)
dispatch_outcomes_example =
    dispatch_outcomes plain_json (codes "echo") (codes "hi") one_method (λ e. cc) (λ v e. cc)
      handler-total
