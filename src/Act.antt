-- ===== src/Act.antt =====
-- Calls that change an outer state and may fail, the deferred calls of Go functions, and a rule
-- for each of these that keeps a count.
pub mod Counts
pub mod Returns
use iothub.Base.{Bool, if◌then◌else◌, List, [], ◌∷◌, Outcome, ok, fail, panic, Error}

abbrev pub Act : Type 0 → Type 0 → Type 0
Act W A = W → W × Outcome A

module _ {W : Type 0} where
  abbrev pub continue : {A B : Type 0} → W × Outcome A → (A → Act W B) → W × Outcome B
  continue (w, ok a) k = k a w
  continue (w, fail e) k = (w, fail e)
  continue (w, panic) k = (w, panic)

  abbrev pub lift : {A : Type 0} → Outcome A → Act W A
  lift r w = (w, r)

  abbrev pub pure : {A : Type 0} → A → Act W A
  pure a = lift (ok a)

  -- A call without a result.
  abbrev pub run : (W → W) → Act W (Unit {0})
  run f w = (f w, ok tt)

  infixl 5 ◌>>=◌ ◌>>◌
  abbrev pub ◌>>=◌ : {A B : Type 0} → Act W A → (A → Act W B) → Act W B
  ◌>>=◌ m k w = continue (m w) k

  abbrev pub ◌>>◌ : {B : Type 0} → Act W (Unit {0}) → Act W B → Act W B
  m >> k = m >>= λ _. k

  -- `defer`: the clean-up runs however the body ends.
  unfoldable pub finally : {A : Type 0} → (W → W) → Act W A → Act W A
  finally cleanup m w = (cleanup (m w).0, (m w).1)

  -- `defer`, around a body whose result may say that it has not returned: then nothing is cleaned up.
  unfoldable pub finally_unless : {A : Type 0} → (A → Bool) → (W → W) → Act W A → Act W A
  finally_unless is_waiting cleanup m w = elim (m w).1 [
    | ok a ↦ (if is_waiting a then (m w).0 else cleanup (m w).0, ok a)
    | fail e ↦ (cleanup (m w).0, fail e)
    | panic ↦ (cleanup (m w).0, panic)
  ]

  -- A resource that is given back when the function that opened it returns.
  unfoldable pub with_closed : {R A : Type 0} → Act W R → (R → W → W) → (R → Act W A) → Act W A
  unfolding finally
  with_closed open_it close_it body = open_it >>= λ r. finally (close_it r) (body r)

  -- `if err != nil { cleanup(); return err }`
  unfoldable pub on_error : {A : Type 0} → (W → W) → Act W A → Act W A
  on_error cleanup m w = elim (m w).1 [
    | ok a ↦ ((m w).0, ok a)
    | fail e ↦ (cleanup (m w).0, fail e)
    | panic ↦ ((m w).0, panic)
  ]

  -- Each element in turn, up to the first error.
  unfoldable pub for_each : {A B : Type 0} → (A → Act W B) → List A → Act W (List B)
  for_each f [] = pure []
  for_each f (a ∷ l) = do b ← f a; bs ← for_each f l; pure (b ∷ bs)
