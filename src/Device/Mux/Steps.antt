-- ===== src/Device/Mux/Steps.antt =====
-- The dispatcher over time: calls of its methods, goroutines that send late or give up, and
-- readers, in any order.
use iothub.Base.{
  ℕ, ◌≡◌, sym, ap, Bool, true, false, List, [], ◌∷◌, ◌++◌, arith, length, length-append, ◌≤◌, ◌<◌,
  some, ok, closed,
}
use iothub.Device.Mux.{
  Sender, Mux, capacity, push, write, fresh_sub, offer, offer_all, dispatch, subscribe, unsub,
  close, send_late,
}
use mathlib.Core.Path.{subst}
use iothub.Device.Mux.Ids.{
  elem, Distinct, remove_first-Distinct, elem-concat, Distinct-concat, elem-remove_first_mono,
}
use iothub.Device.Mux.Delivery.{offer_all-kept}
use iothub.Device.Mux.Closing.{close-closed}

module _ {A : Type 0} where
  pub data Step (m : Mux A) : Mux A → Type 0 where
    dispatches : (msg : A) → Step m (dispatch msg m)
    subscribes : Step m (subscribe m).0
    unsubscribes : (s : ℕ) → Step m (unsub s m)
    finishes : Step m (record m { done = true })
    closes : {n : Mux A} → close m ≡ ok n → Step m n
    sends :
        {n : Mux A} (before after : List (Sender A)) (x : Sender A) (s : ℕ)
        → m.senders ≡ before ++ x ∷ after
        → elem s x.targets ≡ true
        → length (m.heap s).buffer < capacity
        → send_late s x.msg m ≡ ok n
        → Step m (record n { senders = before ++ after })
    gives_up :
        (before after : List (Sender A)) (x : Sender A)
        → m.done ≡ true
        → m.senders ≡ before ++ x ∷ after
        → Step m (record m { senders = before ++ after })
    receives :
        (s : ℕ) (msg : A) (rest : List A)
        → (m.heap s).buffer ≡ msg ∷ rest
        → Step m (write m s (record (m.heap s) { buffer = rest }))

  pub data Reach (m : Mux A) : Mux A → Type 0 where
    here : Reach m m
    next : {n o : Mux A} → Reach m n → Step n o → Reach m o

  -- What holds of a dispatcher at every moment.
  pub record IsWellFormed (m : Mux A) : Type 0 where
    pub distinct : Distinct m.subs
    pub allocated : (s : ℕ) → elem s m.subs ≡ true → s < m.next
    pub opened : (s : ℕ) → elem s m.subs ≡ true → (m.heap s).is_closed ≡ false
    pub bounded : (s : ℕ) → length (m.heap s).buffer ≤ capacity
    pub reasons : (s : ℕ) → (m.heap s).is_closed ≡ true → (m.heap s).err ≡ some closed

  abbrev pub init : Mux A
  init = record { subs = []; heap = λ s. fresh_sub; next = 0; senders = []; done = false }

  pub init-IsWellFormed : IsWellFormed init
  init-IsWellFormed = record {
    distinct = tt;
    allocated = λ s e. cc;
    opened = λ s e. cc;
    bounded = λ s. omega arith;
    reasons = λ s e. cc;
  }

  offer-bounded :
      (msg : A) (s : ℕ) (rest : List ℕ) (m : Mux A)
      → ((t : ℕ) → length (m.heap t).buffer ≤ capacity)
      → (t : ℕ) → length ((offer msg s rest m).heap t).buffer ≤ capacity
  unfolding offer
  offer-bounded msg s rest m h t = ground (arith, h t, length-append (m.heap s).buffer (msg ∷ []))

  offer_all-bounded :
      (msg : A) (l : List ℕ) (m : Mux A)
      → ((t : ℕ) → length (m.heap t).buffer ≤ capacity)
      → (t : ℕ) → length ((offer_all msg l m).heap t).buffer ≤ capacity
  unfolding offer_all
  offer_all-bounded msg [] m h = h
  offer_all-bounded msg (s ∷ rest) m h =
      offer_all-bounded msg rest (offer msg s rest m) (offer-bounded msg s rest m h)

  dispatch-IsWellFormed : (msg : A) (m : Mux A) → IsWellFormed m → IsWellFormed (dispatch msg m)
  unfolding dispatch
  dispatch-IsWellFormed msg m v =
      let (same_subs, same_next, _, same_closed, same_err) = offer_all-kept msg m.subs m in
      record {
        distinct = rw same_subs v.distinct;
        allocated = λ s. rw (same_subs, same_next) (v.allocated s);
        opened = λ s. rw (same_subs, same_closed s) (v.opened s);
        bounded = offer_all-bounded msg m.subs m v.bounded;
        reasons = λ s. rw (same_closed s, same_err s) (v.reasons s);
      }

  subscribe-IsWellFormed : (m : Mux A) → IsWellFormed m → IsWellFormed (subscribe m).0
  unfolding subscribe
  subscribe-IsWellFormed m v = record {
    distinct = Distinct-concat m.next m.subs v.distinct (ground (arith, v.allocated m.next));
    allocated = λ s e. ground (arith, v.allocated s, elem-concat s m.next m.subs);
    opened = λ s e. ground (arith, v.opened s, elem-concat s m.next m.subs);
    bounded = λ s. ground (arith, v.bounded s);
    reasons = λ s e. ground (arith, v.reasons s);
  }

  unsub-IsWellFormed : (s : ℕ) (m : Mux A) → IsWellFormed m → IsWellFormed (unsub s m)
  unfolding unsub
  unsub-IsWellFormed s m v = record {
    distinct = remove_first-Distinct s m.subs v.distinct;
    allocated = λ t e. v.allocated t (elem-remove_first_mono s t m.subs e);
    opened = λ t e. v.opened t (elem-remove_first_mono s t m.subs e);
    bounded = v.bounded;
    reasons = v.reasons;
  }

  write-IsWellFormed :
      (m : Mux A) (s : ℕ) (buffer : List A) (senders : List (Sender A))
      → IsWellFormed m
      → length buffer ≤ capacity
      → IsWellFormed
          (record (write m s (record (m.heap s) { buffer = buffer })) { senders = senders })
  write-IsWellFormed m s buffer senders v short = record {
    distinct = v.distinct;
    allocated = v.allocated;
    opened = λ t e. ground (arith, v.opened t);
    bounded = λ t. ground (arith, v.bounded t);
    reasons = λ t e. ground (arith, v.reasons t);
  }

  send_late-eq-ok :
      (m n : Mux A) (s : ℕ) (msg : A)
      → send_late s msg m ≡ ok n
      → n ≡ write m s (push (m.heap s) msg)
  unfolding send_late
  send_late-eq-ok m n s msg e = ground arith

  close-IsWellFormed : (m n : Mux A) → close m ≡ ok n → IsWellFormed m → IsWellFormed n
  close-IsWellFormed m n e v =
      let c = close-closed m n v.distinct e in
      record {
        distinct = rw (c.0) tt;
        allocated = λ s. rw (c.0) (λ x. cc);
        opened = λ s. rw (c.0) (λ x. cc);
        bounded = λ s. rw (c.1 s) (ground (arith, v.bounded s));
        reasons = λ s. rw (c.1 s) (ground (arith, v.reasons s));
      }

  relabel :
      (m : Mux A) (senders : List (Sender A)) (done : Bool)
      → IsWellFormed m
      → IsWellFormed (record m { senders = senders; done = done })
  relabel m senders done v = record {
    distinct = v.distinct;
    allocated = v.allocated;
    opened = v.opened;
    bounded = v.bounded;
    reasons = v.reasons;
  }

  -- Every step, of a caller, a goroutine or a reader, keeps the dispatcher well formed: its
  -- subscriptions are distinct, allocated and open, no channel holds more than ten messages, and a
  -- closed channel says that it was closed.
  pub Step-IsWellFormed : {m n : Mux A} → Step m n → IsWellFormed m → IsWellFormed n
  Step-IsWellFormed {m} (dispatches msg) v = dispatch-IsWellFormed msg m v
  Step-IsWellFormed {m} subscribes v = subscribe-IsWellFormed m v
  Step-IsWellFormed {m} (unsubscribes s) v = unsub-IsWellFormed s m v
  Step-IsWellFormed {m} finishes v = relabel m m.senders true v
  Step-IsWellFormed {m} {n} (closes e) v = close-IsWellFormed m n e v
  Step-IsWellFormed {m} (sends {n} before after x s held target room e) v =
      subst (λ o. IsWellFormed (record o { senders = before ++ after }))
        (sym (send_late-eq-ok m n s x.msg e))
        (write-IsWellFormed m s _ (before ++ after) v
          (omega (arith, length-append (m.heap s).buffer (x.msg ∷ []))))
  Step-IsWellFormed {m} (gives_up before after x d held) v = relabel m (before ++ after) m.done v
  Step-IsWellFormed {m} (receives s msg rest e) v =
      write-IsWellFormed m s rest m.senders v (omega (arith, ap length e, v.bounded s))

  -- From a well-formed dispatcher, calls, late goroutines and readers in any order lead to well-formed
  -- ones only: the subscriptions are distinct, allocated and open, no channel holds more than ten
  -- messages, and a closed channel says that it was closed.
  pub Reach-IsWellFormed : {m n : Mux A} → Reach m n → IsWellFormed m → IsWellFormed n
  Reach-IsWellFormed here v = v
  Reach-IsWellFormed (next r st) v = Step-IsWellFormed st (Reach-IsWellFormed r v)
