-- ===== src/Config/Tests.antt =====
-- config.rs: concrete runs, and the theorems at concrete inputs.
use tobira.Base.{ℕ, ◌≡◌, refl, Bool, true, some, none, [], ◌∷◌, map, codes, ◌==◌}
use tobira.Config.{
  packet_addr, parse, to_lower, SubscriptionSource, Paths, Config, default_relay, default_http,
  default_subscription,
}

other_spellings : (parse "Packet_Addr" ≡ some packet_addr) × (parse "quic" ≡ none)
unfolding parse
other_spellings = (refl, refl)

same_letters : map to_lower (codes "XUDP") ≡ map to_lower (codes "xUdp")
unfolding to_lower
same_letters = refl

abbrev is_space : ℕ → Bool
is_space c = c == 32

abbrev from_file : SubscriptionSource
from_file = record {
  name = "local";
  url = some " ";
  path = some "nodes.txt";
  user_agent = "tobira";
  process = [];
}

-- Paths below one directory.
abbrev one_directory : Paths
one_directory = record {
  parent = λ path. some "/etc";
  is_absolute = λ path. true;
  join = λ dir path. path;
}

abbrev with_file : Config
with_file = record {
  log_level = "info";
  relay = default_relay;
  http = default_http;
  subscription = record default_subscription { sources = from_file ∷ [] };
}
