-- ===== src/Manager/Cache/Kept.antt =====
-- subscription/manager.rs: what holds of the nodes that are fetched and cached holds after a reload.
use mathlib.Core.Path.{subst}
use tobira.Base.{
  ◌≡◌, inl, inr, refl, sym, Option, none, some, String, List, [], ◌∷◌, map, All, All-append, In,
  Bool, Bool-cases, Option-cases, eq_iff, str_eq,
}
use tobira.Config.{SubscriptionSource, SubscriptionConfig}
use tobira.Node.{VMessNode}
use tobira.Manager.Cache.{CacheMap, cached, store, label, reload_loop, in_order, reload}
use tobira.Process.Dedup.Preserves.{deduplicate_nodes-All}

-- Of the nodes that are kept under a name.
abbrev pub Entries : (String → VMessNode → Type 0) → CacheMap → Type 0
Entries P cache = All (λ (e : String × List VMessNode). All (P e.0) e.1) cache

module _ (P : String → VMessNode → Type 0) where
  pub cached-Entries :
      (name : String) (cache : CacheMap) (nodes : List VMessNode)
      → Entries P cache
      → cached name cache ≡ some nodes
      → All (P name) nodes
  cached-Entries name [] nodes h e = cc
  cached-Entries name ((k, old) ∷ cache) nodes (here, h) e = elim (Bool-cases (str_eq k name)) [
    | inl same ↦
        let found : some old ≡ some nodes = rw same at e in
        subst (λ (ns : List VMessNode). All (P name) ns) (cc)
          (subst (λ (t : String). All (P t) old) ((eq_iff k name).0 same) here)
    | inr other ↦ cached-Entries name cache nodes h (rw other at e)
  ]

  pub store-Entries :
      (name : String) (nodes : List VMessNode) (cache : CacheMap)
      → All (P name) nodes
      → Entries P cache
      → Entries P (store name nodes cache)
  store-Entries name nodes [] new h = (new, tt)
  store-Entries name nodes ((k, old) ∷ cache) new (here, h) = elim (Bool-cases (str_eq k name)) [
    | inl same ↦
        rw same (subst (λ (t : String). All (P t) nodes) (sym ((eq_iff k name).0 same)) new, h)
    | inr other ↦ rw other (here, store-Entries name nodes cache new h)
  ]

-- It bears the name, and P holds of it.
abbrev pub Bears : (VMessNode → Type 0) → String → VMessNode → Type 0
Bears P name n = (n.source ≡ name) × P n

abbrev pub AnyName : (VMessNode → Type 0) → String → VMessNode → Type 0
AnyName P name n = P n

abbrev pub InSome : (VMessNode → Type 0) → Option (List VMessNode) → Type 0
InSome P none = Unit
InSome P (some nodes) = All P nodes

abbrev pub names : List SubscriptionSource → List String
names sources = map (λ (s : SubscriptionSource). s.name) sources

-- Its source is one of those, and P holds of it.
abbrev pub IsSourced : (VMessNode → Type 0) → List SubscriptionSource → VMessNode → Type 0
IsSourced P sources n = In n.source (names sources) × P n

-- What holds of a node whatever its source.
module _ (P : VMessNode → Type 0)
    (labelled : (n : VMessNode) (name : String) → P n → P (record n { source = name })) where
  label-Bears :
      (name : String) (ns : List VMessNode) → All P ns → All (Bears P name) (label name ns)
  label-Bears name [] h = tt
  label-Bears name (n ∷ ns) (here, h) = ((refl, labelled n name here), label-Bears name ns h)

  Bears-All : (name : String) (ns : List VMessNode) → All (Bears P name) ns → All P ns
  Bears-All name [] h = tt
  Bears-All name (n ∷ ns) (here, h) = (here.1, Bears-All name ns h)

  module _ (fetch : SubscriptionSource → Option (List VMessNode))
      (good : (s : SubscriptionSource) → InSome P (fetch s)) where
    pub reload_loop-Entries :
        (sources : List SubscriptionSource) (cache loaded : CacheMap)
        → Entries (AnyName P) cache
        → Entries (Bears P) loaded
        → Entries (AnyName P) (reload_loop fetch sources cache loaded).0
          × Entries (Bears P) (reload_loop fetch sources cache loaded).1
    unfolding reload_loop
    reload_loop-Entries [] cache loaded h k = (h, k)
    reload_loop-Entries (s ∷ sources) cache loaded h k = elim (Option-cases (fetch s)) [
      | inr (nodes, fetched) ↦
          let new = label s.name nodes in
          let bear = label-Bears s.name nodes (subst (InSome P) fetched (good s)) in
          rw (fetched, reload_loop)
            (reload_loop-Entries sources (store s.name new cache) (store s.name new loaded)
              (store-Entries (AnyName P) s.name new cache (Bears-All s.name new bear) h)
              (store-Entries (Bears P) s.name new loaded bear k))
      | inl failed ↦ elim (Option-cases (cached s.name cache)) [
        | inr (nodes, old) ↦
            let bear =
              label-Bears s.name nodes (cached-Entries (AnyName P) s.name cache nodes h old) in
            rw (failed, reload_loop)
              (rw (old, reload_loop)
                (reload_loop-Entries sources cache (store s.name (label s.name nodes) loaded) h
                  (store-Entries (Bears P) s.name (label s.name nodes) loaded bear k)))
        | inl nothing ↦
            rw (failed, reload_loop)
              (rw (nothing, reload_loop) (reload_loop-Entries sources cache loaded h k))
      ]
    ]

  Bears-IsSourced :
      (sources : List SubscriptionSource) (name : String) (ns : List VMessNode)
      → In name (names sources)
      → All (Bears P name) ns
      → All (IsSourced P sources) ns
  Bears-IsSourced sources name [] at h = tt
  Bears-IsSourced sources name (n ∷ ns) at (here, h) = (
    (subst (λ (t : String). In t (names sources)) (sym here.0) at, here.1),
    Bears-IsSourced sources name ns at h,
  )

  pub in_order-IsSourced :
      (sources more : List SubscriptionSource) (loaded : CacheMap)
      → Entries (Bears P) loaded
      → ((t : String) → In t (names more) → In t (names sources))
      → All (IsSourced P sources) (in_order more loaded)
  unfolding in_order
  in_order-IsSourced sources [] loaded h within = tt
  in_order-IsSourced sources (s ∷ more) loaded h within =
      let later = in_order-IsSourced sources more loaded h (λ t i. within t (inr i)) in
      elim (Option-cases (cached s.name loaded)) [
        | inl nothing ↦ rw (nothing, in_order) later
        | inr (nodes, found) ↦
            rw (found, in_order)
              (All-append (IsSourced P sources) nodes _
                (Bears-IsSourced sources s.name nodes (within s.name (inl refl))
                  (cached-Entries (Bears P) s.name loaded nodes h found))
                later)
      ]

  module _ (renamed : (n : VMessNode) (name : String) → P n → P (record n { name = name }))
      (fetch : SubscriptionSource → Option (List VMessNode))
      (good : (s : SubscriptionSource) → InSome P (fetch s)) where
    pub reload-Kept :
        (is_ipv4 is_ipv6 : String → Bool) (config : SubscriptionConfig) (cache : CacheMap)
        → Entries (AnyName P) cache
        → All (IsSourced P config.sources) (reload is_ipv4 is_ipv6 fetch config cache).all_nodes
          × Entries (AnyName P) (reload is_ipv4 is_ipv6 fetch config cache).cache
    unfolding reload
    reload-Kept is_ipv4 is_ipv6 config cache h =
        let (saved, held) = reload_loop-Entries fetch good config.sources cache [] h tt in
        (
          deduplicate_nodes-All (IsSourced P config.sources) (λ n name t. (t.0, renamed n name t.1))
              is_ipv4 is_ipv6
              (in_order config.sources (reload_loop fetch config.sources cache []).1)
              config.deduplication
              (in_order-IsSourced config.sources config.sources
                (reload_loop fetch config.sources cache []).1 held (λ t i. i)),
          saved,
        )
