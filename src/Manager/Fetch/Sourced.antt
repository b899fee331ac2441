-- ===== src/Manager/Fetch/Sourced.antt =====
-- subscription/manager.rs, with the parser and the pipeline: what every node is that a reload loads.
use tobira.Base.{Bool, String, List, [], ◌∷◌, Result, ok, err, to_option, All, ◌>>=◌}
use tobira.Config.{SubscriptionSource, ProcessStep}
use tobira.Node.{VMessNode}
use tobira.Parser.Formats.{Libraries, parse_subscription}
use tobira.Parser.Formats.Nodes.{IsNode, parse_subscription-IsNode}
use tobira.Process.{Regexes, apply_pipeline}
use tobira.Process.Preserves.{apply_pipeline-IsTarget, IsTarget}
use tobira.Manager.Cache.Kept.{Entries, AnyName, InSome, IsSourced, reload-Kept}
use tobira.Manager.Fetch.{
  Files, Client, Storage, FetchError, SubscriptionManager, first_cache, read_origin, fetch_source,
  loaded, reload,
}

IsNode-IsTarget : (ns : List VMessNode) → All IsNode ns → All IsTarget ns
IsNode-IsTarget [] h = tt
IsNode-IsTarget (n ∷ ns) (node, h) = ((node.0, node.1, node.2, node.3), IsNode-IsTarget ns h)

module _ (lib : Libraries) (r : Regexes) where
  parsed-IsTarget :
      (body : Result FetchError String) (steps : List ProcessStep)
      → InSome IsTarget (
          to_option
            (body >>= λ (b : String). ok (apply_pipeline r (parse_subscription lib b) steps)))
  parsed-IsTarget (err e) steps = tt
  parsed-IsTarget (ok body) steps =
      apply_pipeline-IsTarget r (parse_subscription lib body) steps
        (IsNode-IsTarget (parse_subscription lib body) (parse_subscription-IsNode lib body))

  module _ (client : Client) where
    fetch_source-IsTarget :
        (files : Files) (source : SubscriptionSource)
        → InSome IsTarget (to_option (fetch_source lib r client files source))
    unfolding fetch_source
    fetch_source-IsTarget files source =
        parsed-IsTarget (read_origin client files source source.url source.path) source.process

    -- Where every node of the cache file has a port from 1 to 65535, an address and a UUID, every node
    -- that a reload loads has so too, and bears the name of a source of the configuration; and so have
    -- the nodes of the cache that the reload saves.
    pub reload-IsSourced :
        (is_ipv4 is_ipv6 : String → Bool) (storage : Storage) (files : Files)
        (manager : SubscriptionManager)
        → Entries (AnyName IsTarget) (first_cache storage files manager.config.cache_file)
        → All
            (IsSourced IsTarget manager.config.sources)
            (reload is_ipv4 is_ipv6 lib r client storage files manager).0.all_nodes
          × Entries
              (AnyName IsTarget)
              (loaded is_ipv4 is_ipv6 lib r client storage files manager.config).cache
    unfolding reload loaded
    reload-IsSourced is_ipv4 is_ipv6 storage files manager h =
        reload-Kept IsTarget (λ n name t. t) (λ n name t. t)
          (λ (s : SubscriptionSource). to_option (fetch_source lib r client files s))
          (λ s. fetch_source-IsTarget files s) is_ipv4 is_ipv6 manager.config
          (first_cache storage files manager.config.cache_file) h
