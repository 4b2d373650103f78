-- ===== src/Act/Counts.antt =====
-- What a call does to a number that the outer state has, such as that of the open links.
use iothub.Base.{ℕ, ◌+◌, ◌-◌, ◌≡◌, refl, arith, Outcome, ok, fail, panic, ◌∙◌}
use iothub.Act.{Act, continue, lift, ◌>>=◌, finally, with_closed, run}

-- However `m` ends, the number is what it was.
pub record Keeps {W A : Type 0} (count : W → ℕ) (m : Act W A) : Type 0 where
  pub at : (w : W) → count (m w).0 ≡ count w

-- `m` adds one if it returns, and else nothing.
pub record Opens {W A : Type 0} (count : W → ℕ) (m : Act W A) : Type 0 where
  pub opened : (w : W) (a : A) → (m w).1 ≡ ok a → count (m w).0 ≡ count w + 1
  pub refused : (w : W) → ((a : A) → (m w).1 ≡ ok a → ⊥) → count (m w).0 ≡ count w

module _ {W A : Type 0} {count : W → ℕ} where
  pub Keeps-lift : (r : Outcome A) → Keeps count (lift r)
  Keeps-lift r = record { at = λ w. refl }

module _ {W : Type 0} {count : W → ℕ} where
  pub Keeps-run : (f : W → W) → ((w : W) → count (f w) ≡ count w) → Keeps count (run f)
  Keeps-run f h = record { at = h }

module _ {W A B : Type 0} {count : W → ℕ} where
  continue-count :
      (p : W × Outcome A) (k : A → Act W B)
      → ((a : A) → Keeps count (k a))
      → count (continue p k).0 ≡ count p.0
  continue-count (w, ok a) k h = (h a).at w
  continue-count (w, fail e) k h = refl
  continue-count (w, panic) k h = refl

  pub Keeps-bind :
      (m : Act W A) (k : A → Act W B)
      → Keeps count m
      → ((a : A) → Keeps count (k a))
      → Keeps count (m >>= k)
  Keeps-bind m k h g = record { at = λ w. continue-count (m w) k g ∙ h.at w }

  closed-count :
      (p : W × Outcome A) (n : ℕ) (close_it : A → W → W) (body : A → Act W B)
      → ((a : A) → p.1 ≡ ok a → count p.0 ≡ n + 1)
      → (((a : A) → p.1 ≡ ok a → ⊥) → count p.0 ≡ n)
      → ((a : A) (w : W) → count (close_it a w) ≡ count w - 1)
      → ((a : A) → Keeps count (body a))
      → count (continue p (λ r. finally (close_it r) (body r))).0 ≡ n
  unfolding finally
  closed-count (w, ok a) n close_it body opens refuses closes keeps =
      omega (arith, closes a (body a w).0, (keeps a).at w, opens a refl)
  closed-count (w, fail e) n close_it body opens refuses closes keeps = refuses (λ a x. cc)
  closed-count (w, panic) n close_it body opens refuses closes keeps = refuses (λ a x. cc)

  -- A resource that a deferred call closes is not left open.
  pub Keeps-with_closed :
      (open_it : Act W A) (close_it : A → W → W) (body : A → Act W B)
      → Opens count open_it
      → ((a : A) (w : W) → count (close_it a w) ≡ count w - 1)
      → ((a : A) → Keeps count (body a))
      → Keeps count (with_closed open_it close_it body)
  unfolding with_closed
  Keeps-with_closed open_it close_it body opens closes keeps = record {
    at = λ w.
        closed-count (open_it w) (count w) close_it body (opens.opened w) (opens.refused w) closes
          keeps;
  }

pub ruleset keeps_rules = (Keeps-lift, Keeps-run, Keeps-bind, Keeps-with_closed)
