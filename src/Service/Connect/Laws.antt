-- ===== src/Service/Connect/Laws.antt =====
-- The AMQP connection of the client is made once, and Close closes it once.
use iothub.Base.{◌≡◌, refl, Option, none, some, Outcome, ok, fail, panic}
use iothub.Base.Int.{ℤ}
use iothub.Sas.{Crypto}
use iothub.Eventhub as Eh
use iothub.Eventhub.{Peer}
use iothub.Service.Connect.{Client, connected_with, connect_to_amqp, amqp_client}

module _ {World : Type 0} (peer : Peer World) (crypto : Crypto) (clock : ℤ) where
  connected_again :
      (c : Client) (p : World × Outcome Eh.Client)
      → (connected_with peer crypto clock c p).1 ≡ ok tt
      → connect_to_amqp peer crypto clock
          (connected_with peer crypto clock c p).0.0
          (connected_with peer crypto clock c p).0.1
        ≡ ((connected_with peer crypto clock c p).0, ok tt)
  unfolding connected_with connect_to_amqp
  connected_again c (w, ok eh) e = refl
  connected_again c (w, fail x) e = cc
  connected_again c (w, panic) e = cc

  again_by :
      (o : Option Eh.Client) (c : Client) (w : World)
      → c.conn ≡ o
      → (connect_to_amqp peer crypto clock c w).1 ≡ ok tt
      → connect_to_amqp peer crypto clock
          (connect_to_amqp peer crypto clock c w).0.0
          (connect_to_amqp peer crypto clock c w).0.1
        ≡ ((connect_to_amqp peer crypto clock c w).0, ok tt)
  again_by none c w off e =
      let first : connect_to_amqp peer crypto clock c w
          ≡ connected_with peer crypto clock c (amqp_client peer crypto clock c.creds w) =
        unfold connect_to_amqp in rw off refl in
      rw first (connected_again c (amqp_client peer crypto clock c.creds w) (rw (← first) e))
  again_by (some eh) c w on e =
      let first : connect_to_amqp peer crypto clock c w ≡ ((c, w), ok tt) =
        unfold connect_to_amqp in rw on refl in
      rw first first

  -- Once ConnectToAMQP returned no error, a further call returns none and changes nothing: the
  -- connection is the first one, and no other is dialed.
  pub connect_to_amqp_again :
      (c : Client) (w : World)
      → (connect_to_amqp peer crypto clock c w).1 ≡ ok tt
      → connect_to_amqp peer crypto clock
          (connect_to_amqp peer crypto clock c w).0.0
          (connect_to_amqp peer crypto clock c w).0.1
        ≡ ((connect_to_amqp peer crypto clock c w).0, ok tt)
  connect_to_amqp_again c w e = again_by c.conn c w refl e
