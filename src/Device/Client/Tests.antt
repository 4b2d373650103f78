-- ===== src/Device/Client/Tests.antt =====
-- A client over a transport that counts its calls, and each property of the client at one.
use iothub.Base.{ℕ, ◌+◌, ◌≡◌, refl, true, false, [], ◌∷◌, none, Str, codes, ok}
use iothub.Base.Int.{pos}
use iothub.Device.Mux.{fresh_sub}
use iothub.Device.Methods.{Handler}
use iothub.Device.Client.{Port, Client, close_client}
use iothub.Device.Client.Laws.{IsShut, close_client_lem}

abbrev counter : Port ℕ
counter = record {
  connect = λ w. (w + 1, ok tt);
  subscribe_events = λ w. (w + 1, ok tt);
  subscribe_twin_updates = λ w. (w + 1, ok tt);
  register_direct_methods = λ w. (w + 1, ok tt);
  retrieve_twin_properties = λ w. (w + 1, ok (codes "{}"));
  update_twin_properties = λ b w. (w + 1, ok (pos 1));
  send = λ msg w. (w + 1, ok tt);
  close = λ w. (w + 1, ok tt);
}

abbrev ready_client : Client ℕ ℕ Str
ready_client = record {
  ready = true;
  done = false;
  events_on = false;
  events = record { subs = 0 ∷ []; heap = λ s. fresh_sub; next = 1; senders = []; done = false };
  twins_on = false;
  twins = record { subs = []; heap = λ s. fresh_sub; next = 0; senders = []; done = false };
  methods_on = false;
  methods = record { table = none };
  world = 1;
}

abbrev echo : Handler Str
echo o = ok o

close_client_lem_example :
    (c : Client ℕ ℕ Str) × (close_client counter ready_client ≡ (c, ok tt))
    × (c.world ≡ 2)
    × IsShut ready_client.events c.events
    × IsShut ready_client.twins c.twins
    × (close_client counter c ≡ (c, ok tt))
close_client_lem_example =
    close_client_lem counter ready_client refl (refl, tt) (λ s e. refl) tt (λ s e. refl)
