-- ===== src/Manager/Cache/Tests.antt =====
-- subscription/manager.rs: a reload at a concrete input.
use tobira.Base.{◌≡◌, refl, Option, some, none, false, String, List, [], ◌∷◌, Bool}
use tobira.Config.{plain_packets, SubscriptionSource, SubscriptionConfig, default_subscription}
use tobira.Node.{VMessNode}
use tobira.Process.Dedup.{deduplicate_nodes}
use tobira.Manager.Cache.{CacheMap, cached, reload}
use tobira.Manager.Cache.Fallback.{expected, reload-expected}

abbrev named : String → VMessNode
named n = record {
  name = n;
  source = "";
  server = "10.0.0.1";
  port = 443;
  uuid = "u";
  alter_id = 0;
  security = "auto";
  network = "tcp";
  tls = false;
  sni = "";
  grpc_service_name = none;
  ws_path = none;
  ws_host = none;
  packet_encoding = plain_packets;
}

abbrev from_url : SubscriptionSource
from_url = record {
  name = "far";
  url = some "https://example.com";
  path = none;
  user_agent = "tobira";
  process = [];
}

abbrev config : SubscriptionConfig
config = record default_subscription { sources = from_url ∷ [] }

abbrev never : SubscriptionSource → Option (List VMessNode)
never s = none

abbrev no_address : String → Bool
no_address text = false

abbrev one_cached : CacheMap
one_cached = ("far", named "n" ∷ []) ∷ []

cache_used :
    (reload no_address no_address never config one_cached).all_nodes
    ≡ record (named "n") { source = "far" } ∷ []
unfolding reload deduplicate_nodes
cache_used = refl

reload-expected_example :
    cached "far" (reload no_address no_address never config one_cached).nodes_by_source
    ≡ expected never from_url one_cached
reload-expected_example =
    reload-expected never no_address no_address config one_cached [] [] from_url refl tt tt
