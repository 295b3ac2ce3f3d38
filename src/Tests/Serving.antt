-- ===== src/Tests/Serving.antt =====
-- Runs of the server of the engines and of its monitor.
use mai3_broker.Base.{◌≡◌, refl, none, some, [], ok, ◌⊎◌, err, if◌then◌else◌}
use mai3_broker.Base.Int.{ℤ}
use mai3_broker.Decimal.Integers.{integers}
use mai3_broker.Match.Server.{
  PerpetualKey, Handler, Server, handler_of, same_key, find_handler, get_match_handler,
  set_match_handler, already_there,
}
use mai3_broker.Match.Monitor.{to_lower}
use mai3_broker.Match.Server.Engines.{set_match_handler_lem}
use mai3_broker.Tests.Data.{Rows, rows, Levels, Prices}
use mai3_broker.Tests.Containers.{ordered_list, price_list}
use mai3_broker.Tests.Matching.{five_world, steady, cache}

abbrev TestServer : Type 0
TestServer = Server (Unit {0}) ℤ Levels Prices Rows

abbrev first_key : PerpetualKey
first_key = record { address = "p"; index = 0 }

abbrev second_key : PerpetualKey
second_key = record { address = "p"; index = 1 }

-- No engine has been started.
abbrev idle_server : TestServer
idle_server = record {
  match_handler_map = [];
  pool_syncer = cache;
  store = five_world.store;
  ws_chan = [];
}

set_match_handler_lem_example :
    ((find_handler second_key idle_server.match_handler_map ≡ none)
      × ((set_match_handler second_key (handler_of five_world) idle_server).0 ≡ ok tt)
      × ((l : PerpetualKey)
          → get_match_handler l (set_match_handler second_key (handler_of five_world) idle_server).1
            ≡ (if same_key second_key l
                then some (handler_of five_world)
                else get_match_handler l idle_server)))
    ⊎ (((g : Handler ℤ Levels Prices) × (find_handler second_key idle_server.match_handler_map
            ≡ some g))
        × ((set_match_handler second_key (handler_of five_world) idle_server).0 ≡ err already_there)
        × ((set_match_handler second_key (handler_of five_world) idle_server).1 ≡ idle_server))
set_match_handler_lem_example = set_match_handler_lem second_key (handler_of five_world) idle_server

lower : to_lower "0xAbZ9" ≡ "0xabz9"
unfolding to_lower
lower = refl
