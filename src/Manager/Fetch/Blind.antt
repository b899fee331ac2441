-- ===== src/Manager/Fetch/Blind.antt =====
-- subscription/manager.rs and subscription/process.rs: a source's steps run before its nodes bear its
-- name.
use tobira.Base.{◌≡◌, refl, ap, List, [], ◌∷◌, ◌++◌, String, All, Result, ok, err, ◌>>=◌}
use tobira.Config.{SubscriptionSource, ProcessStep}
use tobira.Node.{VMessNode}
use tobira.Parser.Formats.{Libraries, parse_subscription}
use tobira.Parser.Formats.Nodes.{IsNode, parse_subscription-IsNode}
use tobira.Process.{Regexes, apply_pipeline}
use tobira.Process.Blind.{IsBlind, apply_pipeline-blind}
use tobira.Manager.Fetch.{Files, Client, FetchError, read_origin, fetch_source}

IsNode-unlabelled :
    (ns : List VMessNode) → All IsNode ns → All (λ (n : VMessNode). n.source ≡ "") ns
IsNode-unlabelled [] h = tt
IsNode-unlabelled (n ∷ ns) (node, h) = (node.7, IsNode-unlabelled ns h)

module _ (lib : Libraries) (r : Regexes) where
  body-blind :
      (body : Result FetchError String) (before after : List ProcessStep) (step : ProcessStep)
      → IsBlind r step
      → (body >>= λ (b : String).
          ok (apply_pipeline r (parse_subscription lib b) (before ++ step ∷ after)))
        ≡ (body >>= λ (b : String).
            ok (apply_pipeline r (parse_subscription lib b) (before ++ after)))
  body-blind (err e) before after step h = refl
  body-blind (ok body) before after step h = ap ok (
      apply_pipeline-blind r (parse_subscription lib body) before after step h
        (IsNode-unlabelled (parse_subscription lib body) (parse_subscription-IsNode lib body)))

  -- The steps of a source run before its nodes are given its name: a step that is not inverted and
  -- selects by patterns for the source, of which some compiles and none matches the empty text,
  -- does nothing, whatever the source's name.
  pub fetch_source-blind :
      (client : Client) (files : Files) (source : SubscriptionSource)
      (before after : List ProcessStep) (step : ProcessStep)
      → IsBlind r step
      → fetch_source lib r client files (record source { process = before ++ step ∷ after })
        ≡ fetch_source lib r client files (record source { process = before ++ after })
  unfolding fetch_source
  fetch_source-blind client files source before after step h =
      body-blind (read_origin client files source source.url source.path) before after step h
