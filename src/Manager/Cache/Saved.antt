-- ===== src/Manager/Cache/Saved.antt =====
-- subscription/manager.rs: the cache that a reload saves, and the next reload where fetching fails.
use tobira.Base.{
  ◌≡◌, ◌≢◌, inl, inr, refl, sym, ap, ◌∙◌, Bool, Option, none, some, String, List, [], ◌∷◌, ◌++◌,
  All, Option-cases,
}
use tobira.Config.{SubscriptionSource, SubscriptionConfig}
use tobira.Node.{VMessNode}
use tobira.Manager.Cache.{CacheMap, cached, store, label, reload_loop, reload}
use tobira.Manager.Cache.Fallback.{
  cached-store_self, cached-store_other, choose, reload_loop-other, reload-expected,
}

-- What the cache has for a source after the loop.
abbrev saved : String → Option (List VMessNode) → Option (List VMessNode) → Option (List VMessNode)
saved name (some nodes) old = some (label name nodes)
saved name none old = old

label_twice :
    (name : String) (nodes : List VMessNode) → label name (label name nodes) ≡ label name nodes
label_twice name [] = refl
label_twice name (n ∷ nodes) = ap (λ t. record n { source = name } ∷ t) (label_twice name nodes)

choose-saved :
    (name : String) (fetched old : Option (List VMessNode))
    → choose name none (saved name fetched old) ≡ choose name fetched old
choose-saved name (some nodes) old = ap some (label_twice name nodes)
choose-saved name none old = refl

module _ (fetch : SubscriptionSource → Option (List VMessNode)) where
  reload_loop-saved :
      (before after : List SubscriptionSource) (s : SubscriptionSource) (cache loaded : CacheMap)
      → All (λ t. t.name ≢ s.name) before
      → All (λ t. t.name ≢ s.name) after
      → cached s.name (reload_loop fetch (before ++ s ∷ after) cache loaded).0
        ≡ saved s.name (fetch s) (cached s.name cache)
  unfolding reload_loop
  reload_loop-saved [] after s cache loaded h k = elim (Option-cases (fetch s)) [
    | inr (nodes, fetched) ↦
        let new = label s.name nodes in
        rw (fetched, reload_loop)
          ((reload_loop-other fetch s.name after (store s.name new cache) (store s.name new loaded)
              k).0
            ∙ cached-store_self s.name new cache)
    | inl failed ↦ elim (Option-cases (cached s.name cache)) [
      | inr (nodes, kept) ↦
          rw (failed, reload_loop)
            (rw (kept, reload_loop)
              ((reload_loop-other fetch s.name after cache
                  (store s.name (label s.name nodes) loaded) k).0
                ∙ kept))
      | inl nothing ↦
          rw (failed, reload_loop)
            (rw (nothing, reload_loop)
              ((reload_loop-other fetch s.name after cache loaded k).0 ∙ nothing))
    ]
  ]
  reload_loop-saved (t ∷ before) after s cache loaded (apart, h) k = elim (Option-cases (fetch t)) [
    | inr (nodes, fetched) ↦
        let new = label t.name nodes in
        rw (fetched, reload_loop)
          (reload_loop-saved before after s (store t.name new cache) (store t.name new loaded) h k
            ∙ ap (saved s.name (fetch s)) (cached-store_other s.name t.name new cache apart))
    | inl failed ↦ elim (Option-cases (cached t.name cache)) [
      | inr (nodes, kept) ↦
          rw (failed, reload_loop)
            (rw (kept, reload_loop)
              (reload_loop-saved before after s cache (store t.name (label t.name nodes) loaded) h
                k))
      | inl nothing ↦
          rw (failed, reload_loop)
            (rw (nothing, reload_loop) (reload_loop-saved before after s cache loaded h k))
    ]
  ]

  module _ (is_ipv4 is_ipv6 : String → Bool) (config : SubscriptionConfig)
      (before after : List SubscriptionSource) (s : SubscriptionSource)
      (split : config.sources ≡ before ++ s ∷ after)
      (h : All (λ (t : SubscriptionSource). t.name ≢ s.name) before)
      (k : All (λ (t : SubscriptionSource). t.name ≢ s.name) after) where
    reload-saved :
        (cache : CacheMap)
        → cached s.name (reload is_ipv4 is_ipv6 fetch config cache).cache
          ≡ saved s.name (fetch s) (cached s.name cache)
    unfolding reload
    reload-saved cache = rw split (reload_loop-saved before after s cache [] h k)

    -- A reload on the cache of another, in which a source is not fetched, loads what that one loaded.
    pub reload_again :
        (fetch_later : SubscriptionSource → Option (List VMessNode)) (cache : CacheMap)
        → fetch_later s ≡ none
        → cached s.name
            (reload is_ipv4 is_ipv6 fetch_later config
              (reload is_ipv4 is_ipv6 fetch config cache).cache).nodes_by_source
          ≡ cached s.name (reload is_ipv4 is_ipv6 fetch config cache).nodes_by_source
    reload_again fetch_later cache failed =
        let first = reload is_ipv4 is_ipv6 fetch config cache in
        reload-expected fetch_later is_ipv4 is_ipv6 config first.cache before after s split h k
        ∙ ap (λ (f : Option (List VMessNode)). choose s.name f (cached s.name first.cache)) failed
        ∙ ap (choose s.name none) (reload-saved cache)
        ∙ choose-saved s.name (fetch s) (cached s.name cache)
        ∙ sym (reload-expected fetch is_ipv4 is_ipv6 config cache before after s split h k)
