-- ===== src/Http/Tests.antt =====
-- http/server.rs: concrete runs, and the theorems at concrete inputs.
use Prim.Native.String.{◌++◌ as append}
use tobira.Base.{
  ℕ, ◌<◌, ◌≡◌, refl, true, false, Option, some, none, String, List, [], ◌∷◌, map, codes, str_eq,
  All, In, arith,
}
use tobira.Config.{plain_packets, HttpUser, OutputConfig, grpc}
use tobira.Node.{VMessNode}
use tobira.Process.{Regexes}
use tobira.Process.Moved.{moved}
use tobira.Http.{
  RenderedOutput, HttpState, Request, Base64, LinkFormat, authenticate, extract_basic_auth,
  dispatch, route, all_outputs, named_output, not_found, automatic, explicit, shadowrocket,
}
use tobira.Http.Access.{
  HasCredentials, Asks, IsServed, authenticate-HasCredentials, dispatch-IsServed,
}
use tobira.Http.Links.{Encoders, new_state}
use tobira.Http.Links.Hiding.{new_state-moved}

-- Text that stands for itself.
abbrev same_text : Base64
same_text = record { encode = λ s. s; decode = λ s. some s }

abbrev alice : HttpUser
alice = record { username = "alice"; password = "x:y"; outputs = some ("home" ∷ []) }

abbrev output : String → RenderedOutput
output n = record {
  name = n;
  v2rayn_links = append "v2rayn " n ∷ [];
  standard_links = [];
  shadowrocket_links = [];
}

abbrev two_outputs : HttpState
two_outputs = record { users = alice ∷ []; outputs = output "home" ∷ output "work" ∷ [] }

abbrev ask : String → Request
ask path = record {
  path = path;
  authorization = some "Basic alice:x:y";
  user_agent = some "Shadow";
}

own_output_only : (dispatch same_text two_outputs (ask "/sub/")).body ≡ "v2rayn home"
unfolding dispatch
own_output_only = refl

no_other_output : (dispatch same_text two_outputs (ask "/sub/work")).status ≡ 404
unfolding dispatch
no_other_output = refl

served : (dispatch same_text two_outputs (ask "/sub/home")).status ≡ 200
unfolding dispatch
served = refl

routes :
    (route "/sub" ≡ all_outputs automatic)
    × (route "/sub/a/shadowrocket" ≡ named_output "a" (explicit shadowrocket))
    × (route "/" ≡ not_found)
unfolding route
routes = (refl, refl, refl)

known : authenticate same_text (ask "/sub/") (alice ∷ []) ≡ some alice
unfolding authenticate
known = refl

authenticate-HasCredentials_example :
    (username : String) × (password : String) × (extract_basic_auth same_text (ask "/sub/")
      ≡ some (username, password))
    × In alice (alice ∷ [])
    × HasCredentials username password alice
authenticate-HasCredentials_example =
    authenticate-HasCredentials same_text (ask "/sub/") alice [] alice known

dispatch-IsServed_example :
    (user : HttpUser) × (authenticate same_text (ask "/sub/home") (alice ∷ []) ≡ some user)
    × (output_name : Option String) × (format : LinkFormat) × Asks
        (some "Shadow")
        output_name
        format
        (route "/sub/home")
    × IsServed same_text two_outputs user output_name format
        (dispatch same_text two_outputs (ask "/sub/home"))
dispatch-IsServed_example = dispatch-IsServed same_text two_outputs (ask "/sub/home") served

abbrev two_bytes : List ℕ
two_bytes = 0x41 ∷ 0xe2 ∷ []

bytes_small : All (λ b. b < 256) two_bytes
bytes_small = (omega arith, (omega arith, tt))

abbrev whole_text : Regexes
whole_text = record {
  Regex = String;
  compile = λ p. some p;
  is_match = λ re text. str_eq re text;
  replace_all = λ re text replacement. replacement;
}

-- Encoders that keep a text, or one part of what they print.
abbrev plain : Encoders
plain = record {
  utf8 = codes;
  from_utf8 = λ bytes. "?";
  base64 = λ s. s;
  base64_url_safe = λ s. s;
  print_json = λ members. "{}";
  print_url = λ base pairs fragment. base;
  is_ipv6 = λ s. false;
}

abbrev node : VMessNode
node = record {
  name = "n";
  source = "sub";
  server = "10.0.0.1";
  port = 443;
  uuid = "u";
  alter_id = 0;
  security = "auto";
  network = "tcp";
  tls = false;
  sni = "";
  grpc_service_name = none;
  ws_path = none;
  ws_host = none;
  packet_encoding = plain_packets;
}

abbrev home : OutputConfig
home = record {
  name = "home";
  host = "example.com";
  port = 443;
  sni = some "example.com";
  skip_cert_verify = true;
  process = [];
}

new_state-moved_example :
    new_state plain whole_text
      (alice ∷ [])
      (home ∷ [])
      (map (moved "10.0.0.2" 80) (node ∷ []))
      grpc
      "tun"
    ≡ new_state plain whole_text (alice ∷ []) (home ∷ []) (node ∷ []) grpc "tun"
new_state-moved_example =
    new_state-moved plain whole_text "10.0.0.2" 80 (alice ∷ []) (home ∷ []) (node ∷ []) grpc "tun"
