-- ===== src/Act/Returns.antt =====
-- What a call that returned did: each of its steps returned.
use iothub.Base.{◌≡◌, refl, Outcome, ok, fail, panic}
use iothub.Act.{Act, continue, ◌>>=◌, finally, with_closed}

module _ {W A B : Type 0} where
  continue-eq-ok :
      (p : W × Outcome A) (k : A → Act W B) {b : B}
      → (continue p k).1 ≡ ok b
      → (a : A) × (p.1 ≡ ok a) × ((k a p.0).1 ≡ ok b)
  continue-eq-ok (w, ok a) k h = (a, refl, h)
  continue-eq-ok (w, fail e) k h = cc
  continue-eq-ok (w, panic) k h = cc

  pub >>=-returned :
      (m : Act W A) (k : A → Act W B) (w : W) {b : B}
      → ((m >>= k) w).1 ≡ ok b
      → (a : A) × ((m w).1 ≡ ok a) × ((k a (m w).0).1 ≡ ok b)
  >>=-returned m k w h = continue-eq-ok (m w) k h

  -- The body of a resource that is closed again returned too.
  pub with_closed-returned :
      (open_it : Act W A) (close_it : A → W → W) (body : A → Act W B) (w : W) {b : B}
      → (with_closed open_it close_it body w).1 ≡ ok b
      → (a : A) × ((open_it w).1 ≡ ok a) × ((body a (open_it w).0).1 ≡ ok b)
  unfolding with_closed
  with_closed-returned open_it close_it body w h =
      >>=-returned open_it (λ a. finally (close_it a) (body a)) w h

module _ {W A B : Type 0} where
  continue-stepped :
      (p : W × Outcome A) (k : A → Act W B) {b : B}
      → (continue p k).1 ≡ ok b
      → (a : A) × (p.1 ≡ ok a) × (continue p k ≡ k a p.0)
  continue-stepped (w, ok a) k h = (a, refl, refl)
  continue-stepped (w, fail e) k h = cc
  continue-stepped (w, panic) k h = cc

  -- The block that returned went on behind its first step.
  pub >>=-stepped :
      (m : Act W A) (k : A → Act W B) (w : W) {b : B}
      → ((m >>= k) w).1 ≡ ok b
      → (a : A) × ((m w).1 ≡ ok a) × ((m >>= k) w ≡ k a (m w).0)
  >>=-stepped m k w h = continue-stepped (m w) k h

  -- What holds behind every way on holds behind the block that returned.
  pub >>=-reached :
      (P : W → Type 0) (m : Act W A) (k : A → Act W B) (w : W) {b : B}
      → ((m >>= k) w).1 ≡ ok b
      → ((a : A) → (m w).1 ≡ ok a → (k a (m w).0).1 ≡ ok b → P (k a (m w).0).0)
      → P ((m >>= k) w).0
  >>=-reached P m k w h g =
      let (a, here, there) = >>=-stepped m k w h in rw there (g a here (rw (← there) h))
