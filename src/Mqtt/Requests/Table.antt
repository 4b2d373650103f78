-- ===== src/Mqtt/Requests/Table.antt =====
-- The table of waiting requests is a map whose keys are numbers of 32 bits.
use iothub.Base.{ℕ, ◌^◌, ◌<◌, ◌≢◌, List, [], ◌∷◌, arith, All}
use iothub.Base.Int.{ℤ}
use iothub.Mqtt.Transport.{Response, Waiting}
use iothub.Mqtt.Requests.{forget, await, hand_over}

abbrev pub HasNoRequest : ℕ → List Waiting → Type 0
HasNoRequest rid = All (λ w. w.rid ≢ rid)

abbrev pub HasDistinctIds : List Waiting → Type 0
HasDistinctIds [] = Unit
HasDistinctIds (w ∷ ws) = HasNoRequest w.rid ws × HasDistinctIds ws

abbrev pub HasSmallIds : List Waiting → Type 0
HasSmallIds = All (λ w. w.rid < 2 ^ 32)

-- What a table of waiting requests is at every moment.
pub record IsTable (ws : List Waiting) : Type 0 where
  pub distinct : HasDistinctIds ws
  pub small : HasSmallIds ws

forget-small : (rid : ℕ) (ws : List Waiting) → HasSmallIds ws → HasSmallIds (forget rid ws)
unfolding forget
forget-small rid [] h = tt
forget-small rid (w ∷ ws) (p, h) = ground (arith, forget-small rid ws h, p)

forget-HasNoRequest :
    (rid other : ℕ) (ws : List Waiting) → HasNoRequest other ws → HasNoRequest other (forget rid ws)
unfolding forget
forget-HasNoRequest rid other [] h = tt
forget-HasNoRequest rid other (w ∷ ws) (p, h) =
    ground (arith, forget-HasNoRequest rid other ws h, p)

forget-gone : (rid : ℕ) (ws : List Waiting) → HasNoRequest rid (forget rid ws)
unfolding forget
forget-gone rid [] = tt
forget-gone rid (w ∷ ws) = ground (arith, forget-gone rid ws)

forget-HasDistinctIds :
    (rid : ℕ) (ws : List Waiting) → HasDistinctIds ws → HasDistinctIds (forget rid ws)
unfolding forget
forget-HasDistinctIds rid [] h = tt
forget-HasDistinctIds rid (w ∷ ws) (p, h) =
    ground (arith, forget-HasDistinctIds rid ws h, forget-HasNoRequest rid w.rid ws p)

pub forget-IsTable : (rid : ℕ) (ws : List Waiting) → IsTable ws → IsTable (forget rid ws)
forget-IsTable rid ws h = record {
  distinct = forget-HasDistinctIds rid ws h.distinct;
  small = forget-small rid ws h.small;
}

pub await-IsTable :
    (rid : ℕ) (ws : List Waiting) → rid < 2 ^ 32 → IsTable ws → IsTable (await rid ws)
unfolding await
await-IsTable rid ws b h = record {
  distinct = (forget-gone rid ws, forget-HasDistinctIds rid ws h.distinct);
  small = (b, forget-small rid ws h.small);
}

hand_over-HasNoRequest :
    (rid : ℤ) (r : Response) (other : ℕ) (ws : List Waiting)
    → HasNoRequest other ws
    → HasNoRequest other (hand_over rid r ws)
unfolding hand_over
hand_over-HasNoRequest rid r other [] h = tt
hand_over-HasNoRequest rid r other (w ∷ ws) (p, h) =
    ground (arith, hand_over-HasNoRequest rid r other ws h, p, h)

hand_over-HasDistinctIds :
    (rid : ℤ) (r : Response) (ws : List Waiting)
    → HasDistinctIds ws
    → HasDistinctIds (hand_over rid r ws)
unfolding hand_over
hand_over-HasDistinctIds rid r [] h = tt
hand_over-HasDistinctIds rid r (w ∷ ws) (p, h) =
    ground
      (arith, hand_over-HasDistinctIds rid r ws h, hand_over-HasNoRequest rid r w.rid ws p, p, h)

hand_over-small :
    (rid : ℤ) (r : Response) (ws : List Waiting) → HasSmallIds ws → HasSmallIds (hand_over rid r ws)
unfolding hand_over
hand_over-small rid r [] h = tt
hand_over-small rid r (w ∷ ws) (p, h) = ground (arith, hand_over-small rid r ws h, p, h)

pub hand_over-IsTable :
    (rid : ℤ) (r : Response) (ws : List Waiting) → IsTable ws → IsTable (hand_over rid r ws)
hand_over-IsTable rid r ws h = record {
  distinct = hand_over-HasDistinctIds rid r ws h.distinct;
  small = hand_over-small rid r ws h.small;
}
