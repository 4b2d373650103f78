-- ===== src/Service/Feedback/Receiving.antt =====
-- What the loop of SubscribeFeedback does with the messages that it receives.
use iothub.Base.{
  ℕ, suc, ◌+◌, ◌≡◌, refl, List, [], ◌∷◌, ◌++◌, Option, none, some, Str, Outcome, ok, fail, panic,
  arith, Error, ap, sym, ◌∙◌, append_assoc, append-nil,
}
use iothub.Amqp.{AmqpMessage, first_part}
use iothub.Eventhub.{Peer}
use iothub.Service.Feedback.{Watched, watch, before_rest, watch_round, hand_over}

module _ {World Feedback : Type 0} (peer : Peer World) (unmarshal : Str → Outcome (List Feedback))
    (recv : ℕ) where
  -- As many messages are received one after another, each is accepted before the next, and their
  -- first parts are read as the feedback of the list.
  pub data Receives : ℕ → World → List Feedback → World → Type 0 where
    nothing : {w : World} → Receives 0 w [] w
    then_more :
        {n : ℕ} {w w' : World} {l ls : List Feedback} (msg : AmqpMessage) (b : Str) (bs : List Str)
        → (peer.receive recv w).1 ≡ ok msg
        → msg.data_parts ≡ b ∷ bs
        → unmarshal b ≡ ok l
        → Receives n (peer.accept msg (peer.receive recv w).0) ls w'
        → Receives (suc n) w (l ++ ls) w'

  -- A run of the loop that hands these over and comes to this end.
  abbrev pub ended_with : World → List Feedback → Option Error → World × Outcome (Watched Feedback)
  ended_with w l o = (w, ok (record { handed = l; ended = o }))

  one_round :
      (w : World) (msg : AmqpMessage) (b : Str) (bs : List Str) (l : List Feedback)
      (rest : World → World × Outcome (Watched Feedback))
      → (peer.receive recv w).1 ≡ ok msg
      → msg.data_parts ≡ b ∷ bs
      → unmarshal b ≡ ok l
      → watch_round peer unmarshal rest (peer.receive recv w)
        ≡ before_rest peer unmarshal l (rest (peer.accept msg (peer.receive recv w).0))
  unfolding watch_round hand_over first_part
  one_round w msg b bs l rest got parts read =
      ap (λ (r : Outcome AmqpMessage). watch_round peer unmarshal rest ((peer.receive recv w).0, r))
        got
      ∙ rw (parts, read) refl

  before_rest_nil : (p : World × Outcome (Watched Feedback)) → before_rest peer unmarshal [] p ≡ p
  unfolding before_rest
  before_rest_nil (w, ok r) = refl
  before_rest_nil (w, fail e) = refl
  before_rest_nil (w, panic) = refl

  before_rest-append :
      (l ls : List Feedback) (p : World × Outcome (Watched Feedback))
      → before_rest peer unmarshal l (before_rest peer unmarshal ls p)
        ≡ before_rest peer unmarshal (l ++ ls) p
  unfolding before_rest
  before_rest-append l ls (w, ok r) =
      ap (λ h. (w, ok (record r { handed = h }))) (sym (append_assoc l ls r.handed))
  before_rest-append l ls (w, fail e) = refl
  before_rest-append l ls (w, panic) = refl

  at_count :
      (m n : ℕ) (w : World) → m ≡ n → watch peer unmarshal m recv w ≡ watch peer unmarshal n recv w
  at_count m n w e = ap (λ m. watch peer unmarshal m recv w) e

  watch_after :
      {n : ℕ} {w w' : World} {l : List Feedback} (k : ℕ)
      → Receives n w l w'
      → watch peer unmarshal (n + k) recv w
        ≡ before_rest peer unmarshal l (watch peer unmarshal k recv w')
  unfolding watch
  watch_after {w = w} k nothing =
      at_count (0 + k) k w (omega arith) ∙ sym (before_rest_nil (watch peer unmarshal k recv w))
  watch_after k (then_more {n} {w} {w'} {l} {ls} msg b bs got parts read rest) =
      at_count (suc n + k) (suc (n + k)) w (omega arith)
      ∙ one_round w msg b bs l (watch peer unmarshal (n + k) recv) got parts read
      ∙ ap (before_rest peer unmarshal l) (watch_after k rest)
      ∙ before_rest-append l ls (watch peer unmarshal k recv w')

  -- Where n messages are received one after another, each accepted before the next, their first parts
  -- are read as feedback, and the next call of Receive fails: after n calls the loop of
  -- SubscribeFeedback has handed over all of that feedback, in its order, and waits; and behind the next
  -- one it has ended with its error and handed over nothing else, however many calls there would be.
  pub watch-Receives :
      {n : ℕ} {w w' : World} {l : List Feedback} (e : Error) (more : ℕ)
      → Receives n w l w'
      → (peer.receive recv w').1 ≡ fail e
      → (watch peer unmarshal n recv w ≡ ended_with w' l none)
        × (watch peer unmarshal (n + suc more) recv w
            ≡ ended_with (peer.receive recv w').0 l (some e))
  unfolding watch before_rest watch_round
  watch-Receives {n} {w} {w'} {l} e more r failed = (
    at_count n (n + 0) w (omega arith)
        ∙ watch_after 0 r
        ∙ ap (λ h. ended_with w' h none) (append-nil l),
    watch_after (suc more) r
        ∙ ap
            (λ (q : Outcome AmqpMessage). before_rest peer unmarshal l (
              watch_round peer unmarshal (watch peer unmarshal more recv)
                ((peer.receive recv w').0, q)))
            failed
        ∙ ap (λ h. ended_with (peer.receive recv w').0 h (some e)) (append-nil l),
  )
