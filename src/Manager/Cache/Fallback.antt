-- ===== src/Manager/Cache/Fallback.antt =====
-- subscription/manager.rs: what a reload loads for each source.
use tobira.Base.{
  ◌≡◌, ◌≢◌, inl, inr, refl, ap, ◌∙◌, Bool, Option, none, some, String, List, [], ◌∷◌, ◌++◌, arith,
  All, eq_iff, Option-cases,
}
use tobira.Config.{SubscriptionSource, SubscriptionConfig}
use tobira.Node.{VMessNode}
use tobira.Manager.Cache.{CacheMap, cached, store, label, reload_loop, reload}

pub cached-store_self :
    (name : String) (nodes : List VMessNode) (cache : CacheMap)
    → cached name (store name nodes cache) ≡ some nodes
cached-store_self name nodes [] = ground (arith, eq_iff name name)
cached-store_self name nodes ((k, old) ∷ cache) =
    ground (arith, eq_iff k name, cached-store_self name nodes cache)

pub cached-store_other :
    (name other : String) (nodes : List VMessNode) (cache : CacheMap)
    → other ≢ name
    → cached name (store other nodes cache) ≡ cached name cache
cached-store_other name other nodes [] apart = ground (arith, eq_iff other name)
cached-store_other name other nodes ((k, old) ∷ cache) apart = ground (
  arith,
  eq_iff other name,
  eq_iff k other,
  eq_iff k name,
  cached-store_other name other nodes cache,
)

-- The first of the two that there is, labelled.
abbrev pub choose :
    String → Option (List VMessNode) → Option (List VMessNode) → Option (List VMessNode)
choose name (some nodes) old = some (label name nodes)
choose name none (some nodes) = some (label name nodes)
choose name none none = none

module _ (fetch : SubscriptionSource → Option (List VMessNode)) where
  -- Sources of other names change neither what is cached nor what is loaded under a name.
  pub reload_loop-other :
      (name : String) (sources : List SubscriptionSource) (cache loaded : CacheMap)
      → All (λ s. s.name ≢ name) sources
      → (cached name (reload_loop fetch sources cache loaded).0 ≡ cached name cache)
        × (cached name (reload_loop fetch sources cache loaded).1 ≡ cached name loaded)
  unfolding reload_loop
  reload_loop-other name [] cache loaded h = (refl, refl)
  reload_loop-other name (s ∷ sources) cache loaded (apart, h) = elim (Option-cases (fetch s)) [
    | inr (nodes, fetched) ↦
        let labelled = label s.name nodes in
        let (a, b) =
          reload_loop-other name sources (store s.name labelled cache)
            (store s.name labelled loaded) h in
        rw (fetched, reload_loop)
          (
            a ∙ cached-store_other name s.name labelled cache apart,
            b ∙ cached-store_other name s.name labelled loaded apart,
          )
    | inl failed ↦ elim (Option-cases (cached s.name cache)) [
      | inr (nodes, kept) ↦
          let labelled = label s.name nodes in
          let (a, b) = reload_loop-other name sources cache (store s.name labelled loaded) h in
          rw (failed, reload_loop)
            (rw (kept, reload_loop) (a, b ∙ cached-store_other name s.name labelled loaded apart))
      | inl nothing ↦
          rw (failed, reload_loop)
            (rw (nothing, reload_loop) (reload_loop-other name sources cache loaded h))
    ]
  ]

  -- What is loaded for a source: the nodes that were fetched, or else those that were cached, with the
  -- source's name.
  abbrev pub expected : SubscriptionSource → CacheMap → Option (List VMessNode)
  expected s cache = choose s.name (fetch s) (cached s.name cache)

  reload_loop-expected :
      (before after : List SubscriptionSource) (s : SubscriptionSource) (cache loaded : CacheMap)
      → All (λ t. t.name ≢ s.name) before
      → All (λ t. t.name ≢ s.name) after
      → cached s.name loaded ≡ none
      → cached s.name (reload_loop fetch (before ++ s ∷ after) cache loaded).1 ≡ expected s cache
  unfolding reload_loop
  reload_loop-expected [] after s cache loaded h k fresh = elim (Option-cases (fetch s)) [
    | inr (nodes, fetched) ↦
        let labelled = label s.name nodes in
        rw (fetched, reload_loop)
          ((reload_loop-other s.name after (store s.name labelled cache)
              (store s.name labelled loaded) k).1
            ∙ cached-store_self s.name labelled loaded)
    | inl failed ↦ elim (Option-cases (cached s.name cache)) [
      | inr (nodes, kept) ↦
          let labelled = label s.name nodes in
          rw (failed, reload_loop)
            (rw (kept, reload_loop)
              ((reload_loop-other s.name after cache (store s.name labelled loaded) k).1
                ∙ cached-store_self s.name labelled loaded))
      | inl nothing ↦
          rw (failed, reload_loop)
            (rw (nothing, reload_loop) ((reload_loop-other s.name after cache loaded k).1 ∙ fresh))
    ]
  ]
  reload_loop-expected (t ∷ before) after s cache loaded (apart, h) k fresh =
      elim (Option-cases (fetch t)) [
        | inr (nodes, fetched) ↦
            let labelled = label t.name nodes in
            rw (fetched, reload_loop)
              (reload_loop-expected before after s (store t.name labelled cache)
                  (store t.name labelled loaded) h k
                  (cached-store_other s.name t.name labelled loaded apart ∙ fresh)
                ∙ ap (choose s.name (fetch s))
                    (cached-store_other s.name t.name labelled cache apart))
        | inl failed ↦ elim (Option-cases (cached t.name cache)) [
          | inr (nodes, kept) ↦
              let labelled = label t.name nodes in
              rw (failed, reload_loop)
                (rw (kept, reload_loop)
                  (reload_loop-expected before after s cache (store t.name labelled loaded) h k
                    (cached-store_other s.name t.name labelled loaded apart ∙ fresh)))
          | inl nothing ↦
              rw (failed, reload_loop)
                (rw (nothing, reload_loop)
                  (reload_loop-expected before after s cache loaded h k fresh))
        ]
      ]

  -- After a reload, a source whose name no other has is loaded with the nodes that were fetched for it,
  -- or, where fetching failed, with those that the cache has for it, if any; all bear its name.
  pub reload-expected :
      (is_ipv4 is_ipv6 : String → Bool) (config : SubscriptionConfig) (cache : CacheMap)
      → (before after : List SubscriptionSource) (s : SubscriptionSource)
      → config.sources ≡ before ++ s ∷ after
      → All (λ t. t.name ≢ s.name) before
      → All (λ t. t.name ≢ s.name) after
      → cached s.name (reload is_ipv4 is_ipv6 fetch config cache).nodes_by_source ≡ expected s cache
  unfolding reload
  reload-expected is_ipv4 is_ipv6 config cache before after s split h k =
      rw split (reload_loop-expected before after s cache [] h k refl)
