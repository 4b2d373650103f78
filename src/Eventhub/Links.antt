-- ===== src/Eventhub/Links.antt =====
-- No exchange leaves a link open.
use iothub.Base.{ℕ, ◌-◌, ◌≡◌}
use iothub.Amqp.{AmqpMessage}
use iothub.Act.Counts.{Keeps, Opens}
use iothub.Eventhub.{Peer}

module _ {World : Type 0} (peer : Peer World) where
  -- `links` is the number of open links: a new link that is given adds one, its close takes one
  -- away, and nothing else changes it.
  pub record CountsLinks (links : World → ℕ) : Type 0 where
    pub random : (n : ℕ) → Keeps links (peer.random n)
    pub new_sender : (s : ℕ) (o : _) → Opens links (peer.new_sender s o)
    pub new_receiver : (s : ℕ) (o : _) → Opens links (peer.new_receiver s o)
    pub send : (l : ℕ) (m : AmqpMessage) → Keeps links (peer.send l m)
    pub receive : (l : ℕ) → Keeps links (peer.receive l)
    pub accept : (m : AmqpMessage) (w : World) → links (peer.accept m w) ≡ links w
    pub close_link : (l : ℕ) (w : World) → links (peer.close_link l w) ≡ links w - 1
