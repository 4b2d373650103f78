-- ===== src/Device/Mux/History.antt =====
-- The dispatcher against its specification: every subscription gets what is dispatched while it
-- stands, in that order.
use iothub.Base.{
  ℕ, ◌+◌, ◌≡◌, refl, sym, ap, ◌∙◌, Bool, true, false, List, [], ◌∷◌, ◌++◌, append_assoc, arith,
  ◌==◌, if◌then◌else◌, ◌&&◌,
}
use iothub.Device.Mux.{Mux, write, dispatch, subscribe, unsub}
use iothub.Device.Mux.Ids.{elem, elem-concat, elem-remove_first, elem-remove_first_ne}
use iothub.Device.Mux.Delivery.{has_room, overflow, dispatch-buffers, offer_all-kept}
use iothub.Device.Mux.Steps.{
  dispatches, subscribes, unsubscribes, receives, IsWellFormed, init, init-IsWellFormed,
  Step-IsWellFormed,
}

pub data Event (A : Type 0) : Type 0 where
  dispatched : A → Event A
  subscribed : Event A
  unsubscribed : ℕ → Event A
  read : ℕ → Event A

-- A dispatcher, and what the reader of each subscription has taken so far.
pub record Run (A : Type 0) : Type 0 where
  pub mux : Mux A
  pub taken : ℕ → List A

-- The specification: which subscriptions stand, and what each is due.
pub record Feed (A : Type 0) : Type 0 where
  pub next : ℕ
  pub stands : ℕ → Bool
  pub due : ℕ → List A

append-eq-nil : {B : Type 0} (xs ys : List B) → xs ++ ys ≡ [] → (xs ≡ []) × (ys ≡ [])
append-eq-nil [] ys h = (refl, h)
append-eq-nil (x ∷ xs) ys h = cc

-- A message that is sent when its test holds, and appended to what is due when it does.
append-sent :
    {B : Type 0} (test stands room : Bool) (taken buffer due : List B) (msg : B)
    → test ≡ stands
    → (test ≡ true → room ≡ true)
    → taken ++ buffer ≡ due
    → Path
        (List B)
        (taken ++ (if test && room then buffer ++ msg ∷ [] else buffer))
        (if stands then due ++ msg ∷ [] else due)
append-sent false stands room taken buffer due msg e f h = rw (sym e) h
append-sent true stands room taken buffer due msg e f h =
    rw (sym e, f refl) (sym (append_assoc taken buffer (msg ∷ [])) ∙ ap (λ l. l ++ msg ∷ []) h)

module _ {A : Type 0} where
  -- A receive from a subscription's channel; an empty one is not ready.
  unfoldable pub take_from : Run A → ℕ → List A → Run A
  take_from r s [] = r
  take_from r s (x ∷ rest) = record {
    mux = write r.mux s (record (r.mux.heap s) { buffer = rest });
    taken = λ t. if t == s then r.taken s ++ x ∷ [] else r.taken t;
  }

  unfoldable pub happen : Event A → Run A → Run A
  unfolding take_from dispatch subscribe unsub
  happen (dispatched msg) r = record r { mux = dispatch msg r.mux }
  happen subscribed r = record {
    mux = (subscribe r.mux).0;
    taken = λ t. if t == r.mux.next then [] else r.taken t;
  }
  happen (unsubscribed s) r = record r { mux = unsub s r.mux }
  happen (read s) r = take_from r s (r.mux.heap s).buffer

  unfoldable pub run : List (Event A) → Run A → Run A
  run [] r = r
  run (e ∷ es) r = run es (happen e r)

  unfoldable pub expect : Event A → Feed A → Feed A
  expect (dispatched msg) f = record f {
    due = λ t. if f.stands t then f.due t ++ msg ∷ [] else f.due t;
  }
  expect subscribed f = record {
    next = f.next + 1;
    stands = λ t. if t == f.next then true else f.stands t;
    due = λ t. if t == f.next then [] else f.due t;
  }
  expect (unsubscribed s) f = record f { stands = λ t. if t == s then false else f.stands t }
  expect (read s) f = f

  unfoldable pub expect_all : List (Event A) → Feed A → Feed A
  expect_all [] f = f
  expect_all (e ∷ es) f = expect_all es (expect e f)

  abbrev pub start : Run A
  start = record { mux = init; taken = λ s. [] }

  abbrev pub nothing_due : Feed A
  nothing_due = record { next = 0; stands = λ s. false; due = λ s. [] }

  pub record Agrees (r : Run A) (f : Feed A) : Type 0 where
    pub same_next : r.mux.next ≡ f.next
    pub same_subs : (s : ℕ) → elem s r.mux.subs ≡ f.stands s
    pub same_messages : (s : ℕ) → r.taken s ++ (r.mux.heap s).buffer ≡ f.due s

  room_of_no_overflow :
      (msg : A) (l : List ℕ) (m : Mux A) (s : ℕ)
      → overflow msg l m ≡ []
      → elem s l ≡ true
      → has_room msg m s ≡ true
  room_of_no_overflow msg [] m s h e = cc
  room_of_no_overflow msg (t ∷ l) m s h e = ground (arith, room_of_no_overflow msg l m s)

  dispatched-Agrees :
      (msg : A) (r : Run A) (f : Feed A)
      → IsWellFormed r.mux
      → (dispatch msg r.mux).senders ≡ []
      → Agrees r f
      → Agrees (happen (dispatched msg) r) (expect (dispatched msg) f)
  unfolding happen expect
  dispatched-Agrees msg r f v none_late h =
      let m = r.mux in
      let d = dispatch-buffers msg m v.distinct in
      let full = (append-eq-nil m.senders (overflow msg m.subs m) (sym d.1 ∙ none_late)).1 in
      let kept = offer_all-kept msg m.subs m in
      record {
        same_next = unfold dispatch in kept.1 ∙ h.same_next;
        same_subs = λ s. unfold dispatch in ap (elem s) kept.0 ∙ h.same_subs s;
        same_messages = λ s. rw (d.0 s) (
            append-sent (elem s m.subs) (f.stands s) (has_room msg m s) (r.taken s)
              (m.heap s).buffer (f.due s) msg (h.same_subs s)
              (room_of_no_overflow msg m.subs m s full) (h.same_messages s));
      }

  subscribed-Agrees :
      (r : Run A) (f : Feed A) → Agrees r f → Agrees (happen subscribed r) (expect subscribed f)
  unfolding happen expect subscribe
  subscribed-Agrees r f h = record {
    same_next = omega (arith, h.same_next);
    same_subs =
        λ s. ground (arith, elem-concat s r.mux.next r.mux.subs, h.same_subs s, h.same_next);
    same_messages = λ s. ground (arith, h.same_messages s, h.same_next);
  }

  unsubscribed-Agrees :
      (s : ℕ) (r : Run A) (f : Feed A)
      → IsWellFormed r.mux
      → Agrees r f
      → Agrees (happen (unsubscribed s) r) (expect (unsubscribed s) f)
  unfolding happen expect unsub
  unsubscribed-Agrees s r f v h = record {
    same_next = h.same_next;
    same_subs = λ t. ground (
      arith,
      elem-remove_first s r.mux.subs v.distinct,
      elem-remove_first_ne s t r.mux.subs,
      h.same_subs t,
    );
    same_messages = h.same_messages;
  }

  taken-Agrees :
      (b : List A) (s : ℕ) (r : Run A) (f : Feed A)
      → (r.mux.heap s).buffer ≡ b
      → Agrees r f
      → Agrees (take_from r s b) f
  unfolding take_from
  taken-Agrees [] s r f e h = h
  taken-Agrees (x ∷ rest) s r f e h = record {
    same_next = h.same_next;
    same_subs = h.same_subs;
    same_messages =
        λ t. ground (arith, append_assoc (r.taken t) (x ∷ []) rest, h.same_messages t, e);
  }

  take_from-senders :
      (b : List A) (s : ℕ) (r : Run A) → (take_from r s b).mux.senders ≡ r.mux.senders
  unfolding take_from
  take_from-senders [] s r = refl
  take_from-senders (x ∷ rest) s r = refl

  take_from-IsWellFormed :
      (b : List A) (s : ℕ) (r : Run A)
      → (r.mux.heap s).buffer ≡ b
      → IsWellFormed r.mux
      → IsWellFormed (take_from r s b).mux
  unfolding take_from
  take_from-IsWellFormed [] s r e v = v
  take_from-IsWellFormed (x ∷ rest) s r e v = Step-IsWellFormed (receives s x rest e) v

  happen-senders :
      (e : Event A) (r : Run A)
      → IsWellFormed r.mux
      → (happen e r).mux.senders ≡ []
      → r.mux.senders ≡ []
  unfolding happen subscribe unsub take_from
  happen-senders (dispatched msg) r v e =
      let d = dispatch-buffers msg r.mux v.distinct in
      (append-eq-nil r.mux.senders (overflow msg r.mux.subs r.mux) (sym d.1 ∙ e)).0
  happen-senders subscribed r v e = e
  happen-senders (unsubscribed s) r v e = e
  happen-senders (read s) r v e = sym (take_from-senders (r.mux.heap s).buffer s r) ∙ e

  happen-IsWellFormed :
      (e : Event A) (r : Run A) → IsWellFormed r.mux → IsWellFormed (happen e r).mux
  unfolding happen
  happen-IsWellFormed (dispatched msg) r v = Step-IsWellFormed (dispatches msg) v
  happen-IsWellFormed subscribed r v = Step-IsWellFormed subscribes v
  happen-IsWellFormed (unsubscribed s) r v = Step-IsWellFormed (unsubscribes s) v
  happen-IsWellFormed (read s) r v = take_from-IsWellFormed (r.mux.heap s).buffer s r refl v

  run-senders :
      (es : List (Event A)) (r : Run A)
      → IsWellFormed r.mux
      → (run es r).mux.senders ≡ []
      → r.mux.senders ≡ []
  unfolding run
  run-senders [] r v e = e
  run-senders (x ∷ es) r v e =
      happen-senders x r v (run-senders es (happen x r) (happen-IsWellFormed x r v) e)

  happen-Agrees :
      (e : Event A) (r : Run A) (f : Feed A)
      → IsWellFormed r.mux
      → (happen e r).mux.senders ≡ []
      → Agrees r f
      → Agrees (happen e r) (expect e f)
  unfolding happen
  happen-Agrees (dispatched msg) r f v none_late h = dispatched-Agrees msg r f v none_late h
  happen-Agrees subscribed r f v none_late h = subscribed-Agrees r f h
  happen-Agrees (unsubscribed s) r f v none_late h = unsubscribed-Agrees s r f v h
  happen-Agrees (read s) r f v none_late h =
      unfold expect in taken-Agrees (r.mux.heap s).buffer s r f refl h

  run-Agrees :
      (es : List (Event A)) (r : Run A) (f : Feed A)
      → IsWellFormed r.mux
      → (run es r).mux.senders ≡ []
      → Agrees r f
      → Agrees (run es r) (expect_all es f)
  unfolding run expect_all
  run-Agrees [] r f v none_late h = h
  run-Agrees (e ∷ es) r f v none_late h =
      let w = happen-IsWellFormed e r v in
      run-Agrees es (happen e r) (expect e f) w none_late
        (happen-Agrees e r f v (run-senders es (happen e r) w none_late) h)

  start-Agrees : Agrees start nothing_due
  start-Agrees = record { same_next = refl; same_subs = λ s. refl; same_messages = λ s. refl }

  -- From a new dispatcher, after any sequence of dispatches, subscriptions, unsubscriptions and
  -- reads in which no dispatch found a full channel: what a subscription's reader has taken,
  -- followed by what its channel holds, is exactly the messages dispatched from its creation until
  -- it was removed, in the order of their dispatch; and the subscriptions in the list are those that
  -- were made and not removed since.
  pub run_delivers :
      (es : List (Event A)) (s : ℕ)
      → (run es start).mux.senders ≡ []
      → ((run es start).taken s ++ ((run es start).mux.heap s).buffer
          ≡ (expect_all es nothing_due).due s)
        × (elem s (run es start).mux.subs ≡ (expect_all es nothing_due).stands s)
  run_delivers es s none_late =
      let a = run-Agrees es start nothing_due init-IsWellFormed none_late start-Agrees in
      (a.same_messages s, a.same_subs s)
