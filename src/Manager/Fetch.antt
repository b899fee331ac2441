-- ===== src/Manager/Fetch.antt =====
-- subscription/manager.rs: the fetching of a source, the cache file, and the manager with its reload.
-- HTTP, the files and JSON are parameters.
pub mod Sourced
pub mod Blind
pub mod Saved
mod Tests
use tobira.Base.{
  ℕ, Bool, true, false, ◌&&◌, Option, none, some, String, List, [], leb, if◌then◌else◌, Result, ok,
  err, ◌>>=◌, ok_or, to_option, and_then,
}
use tobira.Config.{SubscriptionSource, SubscriptionConfig}
use tobira.Node.{VMessNode}
use tobira.Parser.Formats.{Libraries, parse_subscription}
use tobira.Process.{Regexes, apply_pipeline}
use tobira.Manager.Cache.{CacheMap, Loaded}
use tobira.Manager.Cache as Cache

-- The files, by their paths: what reading one brings.
abbrev pub Files : Type 0
Files = String → Option String

-- An HTTP response: its status, and its body if it can be read.
pub record Response : Type 0 where
  pub status : ℕ
  pub text : Option String

-- The HTTP client of a user agent, of which not every text is one, and what a request to a URL brings
-- within 30 seconds.
pub record Client : Type 0 where
  pub builds : String → Bool
  pub sends : String → String → Option Response

-- The JSON of a cache, and how writing a text to a path changes the files.
pub record Storage : Type 0 where
  pub to_json : CacheMap → Option String
  pub from_json : String → Option CacheMap
  pub write : String → String → Files → Files

pub data FetchError : Type 0 where
  both_origins : FetchError
  no_origin : FetchError
  no_client : FetchError
  no_response : FetchError
  bad_status : ℕ → FetchError
  no_text : FetchError
  no_file : FetchError

-- `StatusCode::is_success`
abbrev pub is_success : ℕ → Bool
is_success status = leb 200 status && leb status 299

pub fetch_http_source : Client → SubscriptionSource → String → Result FetchError String
fetch_http_source client source url = do
  _ ← if client.builds source.user_agent then ok (tt {0}) else err no_client
  resp ← ok_or (client.sends source.user_agent url) no_response
  _ ← if is_success resp.status then ok (tt {0}) else err (bad_status resp.status)
  ok_or resp.text no_text

-- The body, from where the URL and the path say.
pub read_origin :
    Client → Files → SubscriptionSource → Option String → Option String → Result FetchError String
unfolding fetch_http_source
read_origin client files source (some url) none = fetch_http_source client source url
read_origin client files source none (some path) = ok_or (files path) no_file
read_origin client files source (some url) (some path) = err both_origins
read_origin client files source none none = err no_origin

module _ (lib : Libraries) (r : Regexes) (client : Client) where
  pub fetch_source : Files → SubscriptionSource → Result FetchError (List VMessNode)
  unfolding read_origin
  fetch_source files source = do
    body ← read_origin client files source source.url source.path
    let raw_nodes = parse_subscription lib body
    ok (apply_pipeline r raw_nodes source.process)

abbrev or_empty_map : Option CacheMap → CacheMap
or_empty_map none = []
or_empty_map (some cache) = cache

pub load_cache : Storage → Files → String → CacheMap
load_cache storage files path = or_empty_map (and_then (files path) storage.from_json)

pub save_cache : Storage → String → CacheMap → Files → Files
save_cache storage path cache files = elim (storage.to_json cache) [
  | none ↦ files
  | some text ↦ storage.write path text files
]

pub record SubscriptionManager : Type 0 where
  pub config : SubscriptionConfig
  pub nodes_by_source : CacheMap
  pub all_nodes : List VMessNode

pub new : SubscriptionConfig → SubscriptionManager
new config = record { config = config; nodes_by_source = []; all_nodes = [] }

abbrev pub first_cache : Storage → Files → Option String → CacheMap
first_cache storage files none = []
first_cache storage files (some path) = load_cache storage files path

abbrev pub files_after : Storage → Option String → CacheMap → Files → Files
files_after storage none cache files = files
files_after storage (some path) cache files = save_cache storage path cache files

module _ (is_ipv4 is_ipv6 : String → Bool) (lib : Libraries) (r : Regexes) (client : Client)
    (storage : Storage) where
  pub loaded : Files → SubscriptionConfig → Loaded
  loaded files config =
      Cache.reload is_ipv4 is_ipv6 (λ source. to_option (fetch_source lib r client files source))
        config (first_cache storage files config.cache_file)

  -- The manager and the files after a reload, which does not fail.
  pub reload : Files → SubscriptionManager → SubscriptionManager × Files
  unfolding loaded
  reload files manager =
      let after = loaded files manager.config in
      (
        record manager { nodes_by_source = after.nodes_by_source; all_nodes = after.all_nodes },
        files_after storage manager.config.cache_file after.cache files,
      )
