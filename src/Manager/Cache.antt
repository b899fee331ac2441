-- ===== src/Manager/Cache.antt =====
-- subscription/manager.rs: `reload`, which fetches the sources and falls back on cached nodes. What the
-- fetching of a source brings is given; `none` stands for a failure.
pub mod Fallback
pub mod Kept
pub mod Saved
mod Tests
use tobira.Base.{
  ℕ, Bool, true, false, Option, none, some, String, List, [], ◌∷◌, ◌++◌, map, str_eq, if◌then◌else◌,
}
use tobira.Config.{SubscriptionSource, SubscriptionConfig}
use tobira.Node.{VMessNode}
use tobira.Process.Dedup.{deduplicate_nodes}

-- The nodes of each source, by its name.
abbrev pub CacheMap : Type 0
CacheMap = List (String × List VMessNode)

abbrev pub cached : String → CacheMap → Option (List VMessNode)
cached name [] = none
cached name ((k, nodes) ∷ cache) = if str_eq k name then some nodes else cached name cache

abbrev pub store : String → List VMessNode → CacheMap → CacheMap
store name nodes [] = (name, nodes) ∷ []
store name nodes ((k, old) ∷ cache) =
    if str_eq k name then (k, nodes) ∷ cache else (k, old) ∷ store name nodes cache

-- Every node is given the name of its source.
abbrev pub label : String → List VMessNode → List VMessNode
label name nodes = map (λ (n : VMessNode). record n { source = name }) nodes

-- The loop over the sources: the cache, and the nodes of this reload.
pub reload_loop :
    (SubscriptionSource → Option (List VMessNode))
    → List SubscriptionSource
    → CacheMap
    → CacheMap
    → CacheMap × CacheMap
reload_loop fetch [] cache loaded = (cache, loaded)
reload_loop fetch (source ∷ sources) cache loaded = elim (fetch source) [
  | some nodes ↦
      let labelled = label source.name nodes in
      reload_loop fetch sources (store source.name labelled cache)
        (store source.name labelled loaded)
  | none ↦ elim (cached source.name cache) [
    | some nodes ↦
        reload_loop fetch sources cache (store source.name (label source.name nodes) loaded)
    | none ↦ reload_loop fetch sources cache loaded
  ]
]

abbrev pub or_none : Option (List VMessNode) → List VMessNode
or_none none = []
or_none (some nodes) = nodes

-- The nodes of the sources, in the order of the configuration.
pub in_order : List SubscriptionSource → CacheMap → List VMessNode
in_order [] loaded = []
in_order (source ∷ sources) loaded = or_none (cached source.name loaded) ++ in_order sources loaded

-- The state after a reload: the saved cache, `nodes_by_source` and `all_nodes`.
pub record Loaded : Type 0 where
  pub cache : CacheMap
  pub nodes_by_source : CacheMap
  pub all_nodes : List VMessNode

-- `load_cache` is what the cache file holds, and nothing if there is none.
unfoldable pub reload :
    (String → Bool)
    → (String → Bool)
    → (SubscriptionSource → Option (List VMessNode))
    → SubscriptionConfig
    → CacheMap
    → Loaded
unfolding reload_loop in_order
reload is_ipv4 is_ipv6 fetch config load_cache =
    let (cache, loaded) = reload_loop fetch config.sources load_cache [] in
    record {
      cache = cache;
      nodes_by_source = loaded;
      all_nodes =
          deduplicate_nodes is_ipv4 is_ipv6 (in_order config.sources loaded) config.deduplication;
    }
