-- ===== src/Device/Once.antt =====
-- iotdevice/mux.go, `once`: a subscription is made at most once, and again after a failure.
use iothub.Base.{
  ◌≡◌, refl, Bool, true, false, List, [], ◌∷◌, Outcome, ok, fail, panic, arith, if◌then◌else◌,
  Outcome-cases, inl, inr,
}

-- What a call of `once` leaves: the flag, the state that `fn` works on, and the result.
pub record Run (T : Type 0) : Type 0 where
  pub on : Bool
  pub world : T
  pub result : Outcome (Unit {0})

module _ {T : Type 0} where
  -- The tail of `once`: the flag is set only if `fn` returned nil.
  pub settle : T × Outcome (Unit {0}) → Run T
  settle (t, ok u) = record { on = true; world = t; result = ok u }
  settle (t, fail e) = record { on = false; world = t; result = fail e }
  settle (t, panic) = record { on = false; world = t; result = panic }

  unfoldable pub once : Bool → (T → T × Outcome (Unit {0})) → T → Run T
  unfolding settle
  once on fn t = if on then record { on = true; world = t; result = ok tt } else settle (fn t)

  -- A history of calls, each with its own closure.
  unfoldable pub calls : Bool → List (T → T × Outcome (Unit {0})) → T → Bool × T
  calls on [] t = (on, t)
  calls on (fn ∷ fns) t = calls (once on fn t).on fns (once on fn t).world

  -- The specification: the closures run in turn up to the first that succeeds.
  unfoldable pub until_ok : List (T → T × Outcome (Unit {0})) → T → Bool × T
  until_ok [] t = (false, t)
  until_ok (fn ∷ fns) t =
      let rest = until_ok fns (fn t).0 in
      elim (fn t).1 [ ok u ↦ (true, (fn t).0) | fail e ↦ rest | panic ↦ rest ]

  calls_on : (fns : List (T → T × Outcome (Unit {0}))) (t : T) → calls true fns t ≡ (true, t)
  unfolding calls once
  calls_on [] t = refl
  calls_on (fn ∷ fns) t = calls_on fns t

  -- Whatever the history, the closures up to the first success have run, each once and in order,
  -- and none behind it; the flag says whether one succeeded.
  pub calls-until_ok :
      (fns : List (T → T × Outcome (Unit {0}))) (t : T) → calls false fns t ≡ until_ok fns t
  unfolding calls once until_ok
  calls-until_ok [] t = refl
  calls-until_ok (fn ∷ fns) t = elim (Outcome-cases (fn t).1) [
    | inl (u, e) ↦ ground (arith, calls_on fns (fn t).0)
    | inr (inl (x, e)) ↦ ground (arith, calls-until_ok fns (fn t).0)
    | inr (inr e) ↦ ground (arith, calls-until_ok fns (fn t).0)
  ]
