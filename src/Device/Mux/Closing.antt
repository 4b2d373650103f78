-- ===== src/Device/Mux/Closing.antt =====
-- What closing the dispatcher does.
use iothub.Base.{
  ℕ, ◌≡◌, refl, ap, ◌∙◌, true, false, List, [], ◌∷◌, arith, if◌then◌else◌, some, ok, closed,
  >>=-eq-ok,
}
use iothub.Device.Mux.{Sub, Mux, write, close_sub, close_all, close}
use iothub.Device.Mux.Ids.{elem, Distinct}

module _ {A : Type 0} where
  abbrev pub closed_sub : Sub A → Sub A
  closed_sub c = record c { is_closed = true; err = some closed }

  close_sub-eq-ok :
      (s : ℕ) (m n : Mux A) → close_sub s m ≡ ok n → n ≡ write m s (closed_sub (m.heap s))
  unfolding close_sub
  close_sub-eq-ok s m n e = ground arith

  close_all-cons :
      (s : ℕ) (rest : List ℕ) (m n : Mux A)
      → close_all (s ∷ rest) m ≡ ok n
      → ((m.heap s).is_closed ≡ false) × (close_all rest (write m s (closed_sub (m.heap s))) ≡ ok n)
  unfolding close_all
  close_all-cons s rest m n e = ground arith

  close_all-heap :
      (l : List ℕ) (m n : Mux A)
      → Distinct l
      → close_all l m ≡ ok n
      → (t : ℕ) → n.heap t ≡ (if elem t l then closed_sub (m.heap t) else m.heap t)
  close_all-heap [] m n d e t = unfold close_all in ground arith
  close_all-heap (s ∷ rest) m n (f, d) e t =
      let (was_open, later) = close_all-cons s rest m n e in
      ground (arith, close_all-heap rest (write m s (closed_sub (m.heap s))) n d later t)

  -- Each channel of the list is open, so none is closed twice.
  abbrev pub AreOpen : List ℕ → Mux A → Type 0
  AreOpen l m = (s : ℕ) → elem s l ≡ true → (m.heap s).is_closed ≡ false

  close_all-open :
      (s : ℕ) (rest : List ℕ) (m : Mux A)
      → (m.heap s).is_closed ≡ false
      → close_all (s ∷ rest) m ≡ close_all rest (write m s (closed_sub (m.heap s)))
  unfolding close_all
  close_all-open s rest m h = ground arith

  close_all_total :
      (l : List ℕ) (m : Mux A) → Distinct l → AreOpen l m → (n : Mux A) × (close_all l m ≡ ok n)
  close_all_total [] m d o = (m, unfold close_all in refl)
  close_all_total (s ∷ rest) m (f, d) o =
      let (n, e) =
        close_all_total rest (write m s (closed_sub (m.heap s))) d (λ t h. ground (arith, o t)) in
      (n, close_all-open s rest m (o s (ground arith)) ∙ e)

  close-eq-ok :
      (m n : Mux A)
      → close m ≡ ok n
      → (n' : Mux A) × (close_all m.subs m ≡ ok n') × (n ≡ record n' { subs = [] })
  unfolding close
  close-eq-ok m n e = let (n', marked, same) = >>=-eq-ok _ _ e in (n', marked, cc)

  close_of_close_all :
      (m n : Mux A) → close_all m.subs m ≡ ok n → close m ≡ ok (record n { subs = [] })
  unfolding close
  close_of_close_all m n e = rw e

  -- Of the subscriptions close leaves none; each of them is closed with ErrClosed and keeps what
  -- its channel holds, and every other channel is as it was.
  pub close-closed :
      (m n : Mux A)
      → Distinct m.subs
      → close m ≡ ok n
      → (n.subs ≡ [])
        × ((s : ℕ) → n.heap s ≡ (if elem s m.subs then closed_sub (m.heap s) else m.heap s))
  close-closed m n d e =
      let (n', marked, same) = close-eq-ok m n e in
      (
        ap (λ q. q.subs) same,
        (λ s. ap (λ q. q.heap s) same ∙ close_all-heap m.subs m n' d marked s),
      )

  -- Close panics on no well-formed dispatcher.
  pub close_total :
      (m : Mux A) → Distinct m.subs → AreOpen m.subs m → (n : Mux A) × (close m ≡ ok n)
  close_total m d o =
      let (n, e) = close_all_total m.subs m d o in
      (record n { subs = [] }, close_of_close_all m n e)
