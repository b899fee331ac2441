-- ===== src/Process/Tests.antt =====
-- subscription/process.rs: concrete runs of the steps, and the theorems at concrete inputs.
use tobira.Base.{
  ℕ, ◌≡◌, inl, refl, true, false, some, none, String, [], ◌∷◌, map, codes, str_eq, All, In,
}
use tobira.Config.{plain_packets, ProcessStep}
use tobira.Node.{VMessNode}
use tobira.Process.{Regexes, is_emoji, strip_emoji, apply_pipeline, is_selected}
use tobira.Process.Emoji.{IsPlain}
use tobira.Process.Steps.{target}

-- Patterns that match the text they are.
abbrev whole_text : Regexes
whole_text = record {
  Regex = String;
  compile = λ p. some p;
  is_match = λ re text. str_eq re text;
  replace_all = λ re text replacement. replacement;
}

abbrev node : String → ℕ → VMessNode
node n p = record {
  name = n;
  source = "sub";
  server = "10.0.0.1";
  port = p;
  uuid = "u";
  alter_id = 0;
  security = "auto";
  network = "tcp";
  tls = false;
  sni = "";
  grpc_service_name = none;
  ws_path = none;
  ws_host = none;
  packet_encoding = plain_packets;
}

abbrev drop_expired : ProcessStep
drop_expired = record {
  filter = "expired" ∷ [];
  filter_source = [];
  invert = false;
  remove = true;
  rename = [];
  remove_emoji = false;
  override_security = none;
  packet_encoding = none;
}

expired_dropped :
    apply_pipeline whole_text (node "expired" 1 ∷ node "b" 2 ∷ []) (drop_expired ∷ [])
    ≡ node "b" 2 ∷ []
unfolding apply_pipeline is_selected
expired_dropped = refl

flag_stripped : strip_emoji "☀b" ≡ "b"
unfolding strip_emoji is_emoji
flag_stripped = refl

b-IsPlain : All IsPlain (codes "b")
unfolding is_emoji
b-IsPlain = (refl, tt)

b_left : In (target (node "b" 2)) (
    map target (apply_pipeline whole_text (node "expired" 1 ∷ node "b" 2 ∷ []) (drop_expired ∷ [])))
unfolding apply_pipeline is_selected
b_left = inl refl
