-- ===== src/Device/Mux/Ids.antt =====
-- The list of subscriptions: membership, and that none stands twice.
use iothub.Base.{ℕ, ◌≡◌, refl, ◌≢◌, Bool, true, false, ◌||◌, List, [], ◌∷◌, ◌++◌, arith, ◌==◌}
use iothub.Device.Mux.{remove_first}

abbrev pub elem : ℕ → List ℕ → Bool
elem s [] = false
elem s (t ∷ ts) = t == s || elem s ts

-- No number stands twice.
abbrev pub Distinct : List ℕ → Type 0
Distinct [] = Unit
Distinct (s ∷ ss) = (elem s ss ≡ false) × Distinct ss

pub elem-remove_first : (s : ℕ) (l : List ℕ) → Distinct l → elem s (remove_first s l) ≡ false
unfolding remove_first
elem-remove_first s [] d = refl
elem-remove_first s (t ∷ l) (f, d) = ground (arith, elem-remove_first s l d)

pub elem-remove_first_ne : (s t : ℕ) (l : List ℕ) → s ≢ t → elem t (remove_first s l) ≡ elem t l
unfolding remove_first
elem-remove_first_ne s t [] ne = refl
elem-remove_first_ne s t (u ∷ l) ne = ground (arith, elem-remove_first_ne s t l ne)

pub remove_first-Distinct : (s : ℕ) (l : List ℕ) → Distinct l → Distinct (remove_first s l)
unfolding remove_first
remove_first-Distinct s [] d = tt
remove_first-Distinct s (t ∷ l) (f, d) =
    ground (arith, remove_first-Distinct s l d, elem-remove_first_ne s t l)

pub elem-concat : (s t : ℕ) (l : List ℕ) → elem s (l ++ t ∷ []) ≡ (elem s l || t == s)
elem-concat s t [] = ground arith
elem-concat s t (u ∷ l) = ground (arith, elem-concat s t l)

pub Distinct-concat : (t : ℕ) (l : List ℕ) → Distinct l → elem t l ≡ false → Distinct (l ++ t ∷ [])
Distinct-concat t [] d f = (refl, tt)
Distinct-concat t (u ∷ l) (g, d) f = ground (arith, Distinct-concat t l d, elem-concat u t l)

pub elem-remove_first_mono :
    (s t : ℕ) (l : List ℕ) → elem t (remove_first s l) ≡ true → elem t l ≡ true
unfolding remove_first
elem-remove_first_mono s t [] e = e
elem-remove_first_mono s t (u ∷ l) e = ground (arith, elem-remove_first_mono s t l)
