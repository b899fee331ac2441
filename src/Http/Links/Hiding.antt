-- ===== src/Http/Links/Hiding.antt =====
-- http/server.rs: the links that are served do not tell where the upstreams are.
use tobira.Base.{ℕ, ◌≡◌, refl, ap, String, List, [], ◌∷◌, map}
use tobira.Config.{RelayNetwork, tcp, grpc, HttpUser, OutputConfig}
use tobira.Node.{VMessNode}
use tobira.Http.{RenderedOutput}
use tobira.Process.{Regexes, apply_pipeline}
use tobira.Process.Moved.{moved, apply_pipeline-moved}
use tobira.Http.Links.{
  Encoders, build_vmess_json_link, build_vmess_url_link, build_shadowrocket_link, render_output,
  new_state, json_members, url_pairs, shadowrocket_pairs,
}

map-same :
    {A : Type 0} {B : Type 0} (f : A → B) (g : A → A) (xs : List A)
    → ((x : A) → f (g x) ≡ f x)
    → map f (map g xs) ≡ map f xs
map-same f g [] h = refl
map-same f g (x ∷ xs) h = cc (h x, map-same f g xs h)

module _ (e : Encoders) (r : Regexes) (server : String) (port : ℕ) where
  json_moved :
      (o : OutputConfig) (k : RelayNetwork) (s : String) (n : VMessNode)
      → build_vmess_json_link e (moved server port n) o k s ≡ build_vmess_json_link e n o k s
  unfolding build_vmess_json_link json_members
  json_moved o k s n = refl

  url_moved :
      (o : OutputConfig) (k : RelayNetwork) (s : String) (n : VMessNode)
      → build_vmess_url_link e (moved server port n) o k s ≡ build_vmess_url_link e n o k s
  unfolding build_vmess_url_link url_pairs
  url_moved o tcp s n = refl
  url_moved o grpc s n = refl

  shadowrocket_moved :
      (o : OutputConfig) (k : RelayNetwork) (s : String) (n : VMessNode)
      → build_shadowrocket_link e (moved server port n) o k s ≡ build_shadowrocket_link e n o k s
  unfolding build_shadowrocket_link shadowrocket_pairs
  shadowrocket_moved o tcp s n = refl
  shadowrocket_moved o grpc s n = refl

  render_output-moved :
      (o : OutputConfig) (ns : List VMessNode) (k : RelayNetwork) (s : String)
      → render_output e r o (map (moved server port) ns) k s ≡ render_output e r o ns k s
  unfolding render_output
  render_output-moved o ns k s =
      let xs = apply_pipeline r ns o.process in
      let j =
        map-same (λ n. build_vmess_json_link e n o k s) (moved server port) xs (json_moved o k s) in
      let u =
        map-same (λ n. build_vmess_url_link e n o k s) (moved server port) xs (url_moved o k s) in
      let w =
        map-same (λ n. build_shadowrocket_link e n o k s) (moved server port) xs
          (shadowrocket_moved o k s) in
      rw (apply_pipeline-moved r server port ns o.process, render_output) (rw (j, u, w) refl)

  outputs_moved :
      (outputs : List OutputConfig) (ns : List VMessNode) (k : RelayNetwork) (s : String)
      → map (λ o. render_output e r o (map (moved server port) ns) k s) outputs
        ≡ map (λ o. render_output e r o ns k s) outputs
  outputs_moved [] ns k s = refl
  outputs_moved (o ∷ outputs) ns k s =
      cc (render_output-moved o ns k s, outputs_moved outputs ns k s)

  -- What is served does not depend on where the nodes lead: with any other server and port in all the
  -- nodes, every output is rendered to the same links.
  pub new_state-moved :
      (users : List HttpUser) (outputs : List OutputConfig) (ns : List VMessNode) (k : RelayNetwork)
      (s : String)
      → new_state e r users outputs (map (moved server port) ns) k s
        ≡ new_state e r users outputs ns k s
  unfolding new_state
  new_state-moved users outputs ns k s =
      ap (λ (os : List RenderedOutput). record { users = users; outputs = os })
        (outputs_moved outputs ns k s)
