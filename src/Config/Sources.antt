-- ===== src/Config/Sources.antt =====
-- config.rs: which subscription sources are accepted, and where their files are looked for.
use tobira.Base.{
  ℕ, ◌≡◌, ◌≢◌, ◌⊎◌, inl, inr, refl, ap, Bool, true, Option, none, some, String, List, [], ◌∷◌, map,
  Result, ok, err, Bool-cases, arith,
}
use tobira.Config.{
  SubscriptionSource, Config, ConfigError, url_and_path, neither_url_nor_path, set_text,
  choose_origin, deserialize_source, Paths, resolve_path, resolve_source,
  resolve_local_source_paths,
}

-- Exactly one of the URL and the path is set.
abbrev pub HasOneOrigin : SubscriptionSource → Type 0
HasOneOrigin s =
    (((u : String) × (s.url ≡ some u)) × (s.path ≡ none))
    ⊎ ((s.url ≡ none) × ((p : String) × (s.path ≡ some p)))

abbrev pub Choice :
    SubscriptionSource
    → Option String
    → Option String
    → Result ConfigError SubscriptionSource
    → Type 0
Choice raw url path answer =
    ((answer ≡ err url_and_path) × (url ≢ none) × (path ≢ none))
    ⊎ (((answer ≡ err neither_url_nor_path) × (url ≡ none) × (path ≡ none))
        ⊎ ((s : SubscriptionSource) × (answer ≡ ok s)
            × HasOneOrigin s
            × (s.url ≡ url)
            × (s.path ≡ path)
            × (s.name ≡ raw.name)
            × (s.process ≡ raw.process)))

some-ne : {A : Type 0} {x : A} → some x ≢ none
some-ne e = absurd (ground arith)

choose_origin_cases :
    (raw : SubscriptionSource) (url path : Option String)
    → Choice raw url path (choose_origin raw url path)
unfolding choose_origin
choose_origin_cases raw (some u) (some p) = inl (refl, some-ne, some-ne)
choose_origin_cases raw none none = inr (inl (refl, refl, refl))
choose_origin_cases raw (some u) none =
    inr (inr (_, refl, inl ((u, refl), refl), refl, refl, refl, refl))
choose_origin_cases raw none (some p) =
    inr (inr (_, refl, inr (refl, (p, refl)), refl, refl, refl, refl))

-- A source is refused if both or none of its URL and its path are set to more than white space; else
-- exactly one of the two is set in what is answered, and its name and steps are as they were read.
pub deserialize_source_cases :
    (is_space : ℕ → Bool) (raw : SubscriptionSource)
    → Choice raw
        (set_text is_space raw.url)
        (set_text is_space raw.path)
        (deserialize_source is_space raw)
unfolding deserialize_source
deserialize_source_cases is_space raw =
    choose_origin_cases raw (set_text is_space raw.url) (set_text is_space raw.path)

module _ (paths : Paths) where
  resolve_path_twice :
      (dir : String) (path : Option String)
      → ((p : String) → paths.is_absolute (paths.join dir p) ≡ true)
      → resolve_path paths dir (resolve_path paths dir path) ≡ resolve_path paths dir path
  unfolding resolve_path
  resolve_path_twice dir none rooted = refl
  resolve_path_twice dir (some p) rooted = elim (Bool-cases (paths.is_absolute p)) [
    | inl absolute ↦ rw (absolute, absolute) refl
    | inr relative ↦ rw (relative, rooted p) refl
  ]

  resolve_source_twice :
      (dir : String) (source : SubscriptionSource)
      → ((p : String) → paths.is_absolute (paths.join dir p) ≡ true)
      → resolve_source paths dir (resolve_source paths dir source) ≡ resolve_source paths dir source
  unfolding resolve_source
  resolve_source_twice dir source rooted =
      ap (λ (path : Option String). record source { path = path })
        (resolve_path_twice dir source.path rooted)

  resolve_all_twice :
      (dir : String) (sources : List SubscriptionSource)
      → ((p : String) → paths.is_absolute (paths.join dir p) ≡ true)
      → map (resolve_source paths dir) (map (resolve_source paths dir) sources)
        ≡ map (resolve_source paths dir) sources
  resolve_all_twice dir [] rooted = refl
  resolve_all_twice dir (s ∷ sources) rooted =
      cc (resolve_source_twice dir s rooted, resolve_all_twice dir sources rooted)

  -- Where the configuration file's directory is an absolute path, and what is joined to it is so too,
  -- resolving the paths of the sources a second time changes nothing.
  pub resolve_twice :
      (config : Config) (config_path dir : String)
      → paths.parent config_path ≡ some dir
      → ((p : String) → paths.is_absolute (paths.join dir p) ≡ true)
      → resolve_local_source_paths paths
          (resolve_local_source_paths paths config config_path)
          config_path
        ≡ resolve_local_source_paths paths config config_path
  unfolding resolve_local_source_paths
  resolve_twice config config_path dir inside rooted =
      rw (inside, resolve_all_twice dir config.subscription.sources rooted) refl
