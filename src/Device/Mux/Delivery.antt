-- ===== src/Device/Mux/Delivery.antt =====
-- What Dispatch does to each subscription, and which goroutines it leaves behind.
use iothub.Base.{
  ℕ, ◌≡◌, refl, ◌≢◌, sym, ap, ◌∙◌, Bool, false, ◌&&◌, List, [], ◌∷◌, ◌++◌, append-nil, append_assoc,
  arith, ltb, ◌==◌, if◌then◌else◌, length, Bool-cases, inl, inr,
}
use iothub.Device.Mux.Ids.{
  elem, Distinct, elem-remove_first, elem-remove_first_ne, remove_first-Distinct,
}
use iothub.Device.Mux.{Sender, Mux, capacity, offer, offer_all, dispatch, unsub}

module _ {A : Type 0} (msg : A) where
  abbrev pub has_room : Mux A → ℕ → Bool
  has_room m s = ltb (length (m.heap s).buffer) capacity

  -- The goroutines of one Dispatch: one for each full subscription.
  abbrev pub overflow : List ℕ → Mux A → List (Sender A)
  overflow [] m = []
  overflow (s ∷ rest) m =
      let later = overflow rest m in
      if has_room m s then later else record { targets = s ∷ rest; msg = msg } ∷ later

  pub offer_all-kept :
      (l : List ℕ) (m : Mux A)
      → ((offer_all msg l m).subs ≡ m.subs)
        × ((offer_all msg l m).next ≡ m.next)
        × ((offer_all msg l m).done ≡ m.done)
        × ((s : ℕ) → ((offer_all msg l m).heap s).is_closed ≡ (m.heap s).is_closed)
        × ((s : ℕ) → ((offer_all msg l m).heap s).err ≡ (m.heap s).err)
  unfolding offer_all
  offer_all-kept [] m = (refl, refl, refl, (λ s. refl), (λ s. refl))
  offer_all-kept (s ∷ rest) m =
      let k = offer_all-kept rest (offer msg s rest m) in
      (
        k.0 ∙ ground arith,
        k.1 ∙ ground arith,
        k.2 ∙ ground arith,
        (λ t. k.3 t ∙ ground arith),
        (λ t. k.4 t ∙ ground arith),
      )

  offer-buffer :
      (s t : ℕ) (rest : List ℕ) (m : Mux A)
      → ((offer msg s rest m).heap t).buffer
        ≡ (if s == t && has_room m t then (m.heap t).buffer ++ msg ∷ [] else (m.heap t).buffer)
  unfolding offer
  offer-buffer s t rest m = ground arith

  offer_all-buffer_ne :
      (l : List ℕ) (t : ℕ) (m : Mux A)
      → elem t l ≡ false
      → ((offer_all msg l m).heap t).buffer ≡ (m.heap t).buffer
  unfolding offer_all
  offer_all-buffer_ne [] t m h = refl
  offer_all-buffer_ne (s ∷ rest) t m h =
      ground (arith, offer_all-buffer_ne rest t (offer msg s rest m), offer-buffer s t rest m)

  offer_all-buffer :
      (l : List ℕ) (t : ℕ) (m : Mux A)
      → Distinct l
      → ((offer_all msg l m).heap t).buffer
        ≡ (if elem t l && has_room m t then (m.heap t).buffer ++ msg ∷ [] else (m.heap t).buffer)
  unfolding offer_all
  offer_all-buffer [] t m d = refl
  offer_all-buffer (s ∷ rest) t m (f, d) = ground (
    arith,
    offer_all-buffer rest t (offer msg s rest m) d,
    offer_all-buffer_ne rest t (offer msg s rest m),
    offer-buffer s t rest m,
  )

  overflow-offer :
      (l : List ℕ) (s : ℕ) (rest : List ℕ) (m : Mux A)
      → elem s l ≡ false
      → overflow l (offer msg s rest m) ≡ overflow l m
  overflow-offer [] s rest m h = refl
  overflow-offer (t ∷ l) s rest m h =
      ground (arith, overflow-offer l s rest m, offer-buffer s t rest m)

  offer-senders :
      (s : ℕ) (rest : List ℕ) (m : Mux A)
      → (offer msg s rest m).senders ≡ (
          if has_room m s
          then m.senders
          else m.senders ++ record { targets = s ∷ rest; msg = msg } ∷ [])
  unfolding offer
  offer-senders s rest m = ground arith

  offer_all-cons :
      (s : ℕ) (rest : List ℕ) (m : Mux A)
      → offer_all msg (s ∷ rest) m ≡ offer_all msg rest (offer msg s rest m)
  unfolding offer_all
  offer_all-cons s rest m = refl

  offer_all-senders :
      (l : List ℕ) (m : Mux A)
      → Distinct l
      → (offer_all msg l m).senders ≡ m.senders ++ overflow l m
  offer_all-senders [] m d = unfold offer_all in sym (append-nil m.senders)
  offer_all-senders (s ∷ rest) m (f, d) =
      ap (λ q. q.senders) (offer_all-cons s rest m)
      ∙ offer_all-senders rest (offer msg s rest m) d
      ∙ ap (λ o. (offer msg s rest m).senders ++ o) (overflow-offer rest s rest m f)
      ∙ ap (λ o. o ++ overflow rest m) (offer-senders s rest m)
      ∙ elim (Bool-cases (has_room m s)) [
        | inl room ↦ rw room refl
        | inr full ↦ rw full (
            append_assoc m.senders (record { targets = s ∷ rest; msg = msg } ∷ [])
              (overflow rest m))
      ]

  -- Dispatch appends the message to the channel of each subscription that has room, and to no
  -- other; for each full one it leaves a goroutine behind, in the order of the subscriptions.
  pub dispatch-buffers :
      (m : Mux A)
      → Distinct m.subs
      → ((s : ℕ)
          → ((dispatch msg m).heap s).buffer ≡ (
              if elem s m.subs && has_room m s
              then (m.heap s).buffer ++ msg ∷ []
              else (m.heap s).buffer))
        × ((dispatch msg m).senders ≡ m.senders ++ overflow m.subs m)
  unfolding dispatch
  dispatch-buffers m d = ((λ s. offer_all-buffer m.subs s m d), offer_all-senders m.subs m d)

-- After UnsubscribeEvents no Dispatch adds to the channel, and the other subscriptions stay.
pub dispatch-unsub :
    {A : Type 0} (msg : A) (m : Mux A) (s : ℕ)
    → Distinct m.subs
    → (((dispatch msg (unsub s m)).heap s).buffer ≡ (m.heap s).buffer)
      × ((t : ℕ) → s ≢ t → elem t (unsub s m).subs ≡ elem t m.subs)
unfolding unsub
dispatch-unsub msg m s d = (
  (dispatch-buffers msg (unsub s m) (remove_first-Distinct s m.subs d)).0 s
      ∙ ground (arith, elem-remove_first s m.subs d),
  (λ t ne. elem-remove_first_ne s t m.subs ne),
)
