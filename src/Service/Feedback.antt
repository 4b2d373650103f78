-- ===== src/Service/Feedback.antt =====
-- iotservice/client.go, SubscribeFeedback: the loop that receives, accepts and hands over the feedback.
-- Receive blocks while no message is there: the loop is run for a number of calls that return, and
-- waits in the next one.
pub mod Receiving
mod Tests
use iothub.Base.{
  ℕ, zero, suc, ◌+◌, ◌-◌, ltb, Bool, true, false, List, [], ◌∷◌, ◌++◌, Option, none, some, Str,
  codes, length, lookup, index, Dict, Outcome, ok, fail, panic, Error, if◌then◌else◌,
}
use iothub.Base.Int.{ℤ}
use iothub.Sas.{Crypto}
use iothub.Amqp.{AmqpMessage, first_part}
use iothub.Act.{Act, ◌>>=◌, finally_unless}
use iothub.Eventhub as Eh
use iothub.Eventhub.{Peer, no_options}
use iothub.Service.Connect.{Client, connect_to_amqp}

-- The feedback that was handed over, and the error that ended the loop: `none` while it waits.
pub record Watched (Feedback : Type 0) : Type 0 where
  pub handed : List Feedback
  pub ended : Option Error

module _ {World Feedback : Type 0} (peer : Peer World)
    (unmarshal : Str → Outcome (List Feedback)) where
  abbrev over : Error → Watched Feedback
  over e = record { handed = []; ended = some e }

  pub before_rest :
      List Feedback → World × Outcome (Watched Feedback) → World × Outcome (Watched Feedback)
  before_rest l (w, ok r) = (w, ok (record r { handed = l ++ r.handed }))
  before_rest l (w, fail e) = (w, fail e)
  before_rest l (w, panic) = (w, panic)

  pub hand_over :
      (World → World × Outcome (Watched Feedback))
      → Outcome (List Feedback)
      → World
      → World × Outcome (Watched Feedback)
  unfolding before_rest
  hand_over rest (ok l) w = before_rest l (rest w)
  hand_over rest (fail e) w = (w, ok (over e))
  hand_over rest panic w = (w, panic)

  abbrev decoded : Outcome Str → Outcome (List Feedback)
  decoded (ok b) = unmarshal b
  decoded (fail e) = fail e
  decoded panic = panic

  pub watch_round :
      (World → World × Outcome (Watched Feedback))
      → World × Outcome AmqpMessage
      → World × Outcome (Watched Feedback)
  unfolding hand_over first_part
  watch_round rest (w, ok msg) =
      hand_over rest (decoded (first_part msg.data_parts)) (peer.accept msg w)
  watch_round rest (w, fail e) = (w, ok (over e))
  watch_round rest (w, panic) = (w, panic)

  -- The loop of SubscribeFeedback, over as many calls of Receive as return.
  unfoldable pub watch : ℕ → ℕ → Act World (Watched Feedback)
  unfolding watch_round
  watch zero recv w = (w, ok (record { handed = []; ended = none }))
  watch (suc returning) recv w = watch_round (watch returning recv) (peer.receive recv w)

  unfoldable pub is_waiting : Watched Feedback → Bool
  is_waiting r = elim r.ended [ none ↦ true | some e ↦ false ]

  module _ (crypto : Crypto) (clock : ℤ) where
    pub watch_over :
        ℕ → Client → World → Option Eh.Client → (Client × World) × Outcome (Watched Feedback)
    unfolding watch is_waiting finally_unless
    watch_over returning c w none = ((c, w), panic)
    watch_over returning c w (some eh) =
        let (w', r) =
          (peer.new_receiver eh.sess
                (record no_options { source = codes "/messages/servicebound/feedback" })
              >>= λ recv. finally_unless is_waiting (peer.close_link recv) (watch returning recv))
            w in
        ((c, w'), r)

    pub feedback_after :
        ℕ → (Client × World) × Outcome (Unit {0}) → (Client × World) × Outcome (Watched Feedback)
    unfolding watch_over
    feedback_after returning ((c, w), ok u) = watch_over returning c w c.conn
    feedback_after returning (s, fail e) = (s, fail e)
    feedback_after returning (s, panic) = (s, panic)

    unfoldable pub subscribe_feedback :
        ℕ → Client → World → (Client × World) × Outcome (Watched Feedback)
    unfolding feedback_after connect_to_amqp
    subscribe_feedback returning c w =
        feedback_after returning (connect_to_amqp peer crypto clock c w)
