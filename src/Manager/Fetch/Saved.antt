-- ===== src/Manager/Fetch/Saved.antt =====
-- subscription/manager.rs: two reloads with the cache file between them.
use tobira.Base.{
  ◌≡◌, ◌≢◌, refl, ap, ◌∙◌, Bool, Option, some, String, List, ◌∷◌, ◌++◌, All, err, to_option,
}
use tobira.Config.{SubscriptionSource}
use tobira.Parser.Formats.{Libraries}
use tobira.Process.{Regexes}
use tobira.Manager.Cache.{CacheMap, cached}
use tobira.Manager.Cache as Cache
use tobira.Manager.Cache.Saved.{reload_again}
use tobira.Manager.Fetch.{
  Files, Client, Storage, FetchError, SubscriptionManager, first_cache, files_after, fetch_source,
  save_cache, load_cache, loaded, reload,
}

-- The cache is written as JSON, which is read back from the file as it was.
abbrev pub IsStored : Storage → String → CacheMap → Files → Type 0
IsStored storage path cache files =
    (text : String) × (storage.to_json cache ≡ some text)
    × (storage.from_json text ≡ some cache)
    × (storage.write path text files path ≡ some text)

load-save :
    (storage : Storage) (path : String) (cache : CacheMap) (files : Files)
    → IsStored storage path cache files
    → load_cache storage (save_cache storage path cache files) path ≡ cache
unfolding load_cache save_cache
load-save storage path cache files (text, written, read, kept) =
    let at : save_cache storage path cache files path ≡ some text = rw (written, save_cache) kept in
    rw (at, load_cache) (rw read refl)

-- Where a reload stores its cache in the file of the configuration and it can be read back, a later
-- one that fails to fetch a source, from another network, loads for it what the first one loaded,
-- if no other source has its name.
pub reload-remembers :
    (is_ipv4 is_ipv6 : String → Bool) (lib : Libraries) (r : Regexes) (client later : Client)
    (storage : Storage) (files : Files) (manager : SubscriptionManager) (path : String)
    (before after : List SubscriptionSource) (s : SubscriptionSource) (x : FetchError)
    → manager.config.cache_file ≡ some path
    → IsStored storage path
        (loaded is_ipv4 is_ipv6 lib r client storage files manager.config).cache
        files
    → manager.config.sources ≡ before ++ s ∷ after
    → All (λ (t : SubscriptionSource). t.name ≢ s.name) before
    → All (λ (t : SubscriptionSource). t.name ≢ s.name) after
    → fetch_source lib r later (reload is_ipv4 is_ipv6 lib r client storage files manager).1 s
      ≡ err x
    → let (first, files') = reload is_ipv4 is_ipv6 lib r client storage files manager in
      cached s.name (reload is_ipv4 is_ipv6 lib r later storage files' first).0.nodes_by_source
      ≡ cached s.name first.nodes_by_source
unfolding reload loaded
reload-remembers is_ipv4 is_ipv6 lib r client later storage files manager path before after s x file
      stored split h k failed =
    let config = manager.config in
    let saved = (loaded is_ipv4 is_ipv6 lib r client storage files config).cache in
    let files' = files_after storage config.cache_file saved files in
    let fetch = λ (t : SubscriptionSource). to_option (fetch_source lib r client files t) in
    let fetch_later = λ (t : SubscriptionSource). to_option (fetch_source lib r later files' t) in
    let found : first_cache storage files' config.cache_file ≡ saved =
      ap (λ (p : Option String). first_cache storage (files_after storage p saved files) p) file
      ∙ load-save storage path saved files stored in
    ap
      (λ (cache : CacheMap).
        cached s.name (Cache.reload is_ipv4 is_ipv6 fetch_later config cache).nodes_by_source)
      found
    ∙ reload_again fetch is_ipv4 is_ipv6 config before after s split h k fetch_later
        (first_cache storage files config.cache_file) (ap to_option failed)
