-- ===== src/Http/Access.antt =====
-- http/server.rs: who is served, and what.
use tobira.Base.{
  ◌≡◌, ◌≢◌, ◌⊎◌, inl, inr, refl, sym, ap, ◌∙◌, Bool, true, ◌&&◌, Option, none, some, String, List,
  [], ◌∷◌, arith, any, All, In, keep_if, is_empty, str_eq, eq_iff, Bool-cases, Option-cases,
}
use tobira.Config.{HttpUser}
use tobira.Http.{
  RenderedOutput, HttpState, Request, Response, LinkFormat, Base64, match_user, restriction_allows,
  is_allowed, allowed_outputs, collect_links, join_lines, extract_basic_auth, authenticate,
  encode_body, build_subscription_response, answer_route, route, dispatch, all_outputs,
  named_output, not_found, Route, resolve,
}

keep_if-passes : {A : Type 0} (p : A → Bool) (xs : List A) → All (λ x. p x ≡ true) (keep_if p xs)
keep_if-passes p [] = tt
keep_if-passes p (x ∷ xs) = elim (Bool-cases (p x)) [
  | inl kept ↦ rw kept (kept, keep_if-passes p xs)
  | inr left ↦ rw left (keep_if-passes p xs)
]

any-In :
    (name : String) (names : List String) → any (λ n. str_eq n name) names ≡ true → In name names
any-In name [] h = absurd (ground arith)
any-In name (n ∷ names) h = elim (Bool-cases (str_eq n name)) [
  | inl same ↦ inl (sym ((eq_iff n name).0 same))
  | inr other ↦ inr (any-In name names (ground arith))
]

-- The user may have the output: there is no restriction, or the restriction names it.
abbrev pub IsFree : Option (List String) → String → Type 0
IsFree outputs name =
    (outputs ≡ none) ⊎ ((names : List String) × (outputs ≡ some names) × In name names)

-- The output is one that the user may have, and stands under the name asked for, if there is one.
abbrev pub IsPermitted : HttpUser → Option String → RenderedOutput → Type 0
IsPermitted user output_name o =
    IsFree user.outputs o.name × ((output_name ≡ none) ⊎ (output_name ≡ some o.name))

restriction_allows-IsFree :
    (outputs : Option (List String)) (name : String)
    → restriction_allows outputs name ≡ true
    → IsFree outputs name
restriction_allows-IsFree none name h = inl refl
restriction_allows-IsFree (some names) name h = inr (names, refl, any-In name names h)

is_allowed-IsPermitted :
    (user : HttpUser) (output_name : Option String) (o : RenderedOutput)
    → is_allowed user output_name o ≡ true
    → IsPermitted user output_name o
unfolding is_allowed
is_allowed-IsPermitted user none o h = (restriction_allows-IsFree user.outputs o.name h, inl refl)
is_allowed-IsPermitted user (some name) o h = elim (Bool-cases (str_eq o.name name)) [
  | inl same ↦ (
    restriction_allows-IsFree user.outputs o.name (ground arith),
    inr (ap some (sym ((eq_iff o.name name).0 same))),
  )
  | inr other ↦ absurd (ground arith)
]

allowed_loop :
    (user : HttpUser) (output_name : Option String) (os : List RenderedOutput)
    → All (λ o. is_allowed user output_name o ≡ true) os
    → All (IsPermitted user output_name) os
allowed_loop user output_name [] h = tt
allowed_loop user output_name (o ∷ os) (p, h) =
    (is_allowed-IsPermitted user output_name o p, allowed_loop user output_name os h)

abbrev pub HasCredentials : String → String → HttpUser → Type 0
HasCredentials username password user = (username ≡ user.username) × (password ≡ user.password)

match_user_kept :
    (username password : String) (users : List HttpUser) (w : HttpUser)
    → match_user username password users (some w) ≡ some w
unfolding match_user
match_user_kept username password [] w = refl
match_user_kept username password (user ∷ users) w = match_user_kept username password users w

some_eq : {A : Type 0} {x y : A} → some x ≡ some y → x ≡ y
some_eq e = cc

both_true : (a b : Bool) → (a && b) ≡ true → (a ≡ true) × (b ≡ true)
both_true a b h = ground arith

match_user_found :
    (username password : String) (users : List HttpUser) (u : HttpUser)
    → match_user username password users none ≡ some u
    → In u users × HasCredentials username password u
unfolding match_user
match_user_found username password [] u h = absurd (ground arith)
match_user_found username password (user ∷ users) u h =
    elim (Bool-cases (str_eq username user.username && str_eq password user.password)) [
      | inl both ↦
          let (un_ok, pw_ok) =
            both_true (str_eq username user.username) (str_eq password user.password) both in
          let found : user ≡ u =
            some_eq (sym (match_user_kept username password users user) ∙ rw both at h) in
          rw (← found) (
            inl refl,
            ((eq_iff username user.username).0 un_ok, (eq_iff password user.password).0 pw_ok),
          )
      | inr neither ↦
          let (there, same) = match_user_found username password users u (rw neither at h) in
          (inr there, same)
    ]

-- The name and the format that a route asks for.
abbrev pub Asks : Option String → Option String → LinkFormat → Route → Type 0
Asks user_agent output_name format (all_outputs f) =
    (output_name ≡ none) × (format ≡ resolve f user_agent)
Asks user_agent output_name format (named_output name f) =
    (output_name ≡ some name) × (format ≡ resolve f user_agent)
Asks user_agent output_name format not_found = ⊥

none-ne : {A : Type 0} {x : A} → none ≢ some x
none-ne e = absurd (ground arith)

module _ (base64 : Base64) where
  -- Where users are configured, a request is only taken for a user whose name and password, both of
  -- them, it carries.
  pub authenticate-HasCredentials :
      (request : Request) (first_user : HttpUser) (others : List HttpUser) (u : HttpUser)
      → authenticate base64 request (first_user ∷ others) ≡ some u
      → (username : String) × (password : String) × (extract_basic_auth base64 request
          ≡ some (username, password))
        × In u (first_user ∷ others)
        × HasCredentials username password u
  unfolding authenticate
  authenticate-HasCredentials request first_user others u h =
      elim (Option-cases (extract_basic_auth base64 request)) [
        | inl missing ↦ absurd (none-ne (rw missing at h))
        | inr ((username, password), carried) ↦
            let (there, same) =
              match_user_found username password (first_user ∷ others) u (rw carried at h) in
            (username, password, carried, there, same)
      ]

  -- The response for these links of the permitted outputs.
  abbrev pub IsServed : HttpState → HttpUser → Option String → LinkFormat → Response → Type 0
  IsServed state user output_name format response =
      All (IsPermitted user output_name) (allowed_outputs state user output_name)
      × (response.body
          ≡ encode_body base64 format
              (join_lines (collect_links format (allowed_outputs state user output_name))))

  build-IsServed :
      (state : HttpState) (user : HttpUser) (output_name : Option String) (format : LinkFormat)
      → (build_subscription_response base64 state user output_name format).status ≡ 200
      → IsServed state user output_name format
          (build_subscription_response base64 state user output_name format)
  unfolding build_subscription_response
  build-IsServed state user output_name format h =
      elim (Bool-cases (is_empty (allowed_outputs state user output_name))) [
        | inl empty ↦ absurd (let bad = rw (empty, build_subscription_response) at h in omega arith)
        | inr full ↦ (
          allowed_loop user output_name (allowed_outputs state user output_name)
              (keep_if-passes (is_allowed user output_name) state.outputs),
          rw (full, build_subscription_response) refl,
        )
      ]

  -- What is served for a route: nothing, or the permitted outputs under its name and format.
  answer_route-IsServed :
      (state : HttpState) (user : HttpUser) (user_agent : Option String) (r : Route)
      → (answer_route base64 state user user_agent r).status ≡ 200
      → (output_name : Option String) × (format : LinkFormat) × Asks user_agent output_name format r
        × IsServed state user output_name format (answer_route base64 state user user_agent r)
  unfolding answer_route
  answer_route-IsServed state user user_agent (all_outputs format) h = (
    none,
    resolve format user_agent,
    (refl, refl),
    build-IsServed state user none (resolve format user_agent) h,
  )
  answer_route-IsServed state user user_agent (named_output name format) h = (
    some name,
    resolve format user_agent,
    (refl, refl),
    build-IsServed state user (some name) (resolve format user_agent) h,
  )
  answer_route-IsServed state user user_agent not_found h = absurd (omega arith)

  -- A request that is answered with status 200 was authenticated as some user, and the body is made of
  -- the links of outputs that this user may have, all of them under the name in the route of the path, if
  -- there is one, and in the format that the route and the user agent ask for.
  pub dispatch-IsServed :
      (state : HttpState) (request : Request)
      → (dispatch base64 state request).status ≡ 200
      → (user : HttpUser) × (authenticate base64 request state.users ≡ some user)
        × (output_name : Option String) × (format : LinkFormat) × Asks request.user_agent
            output_name format
            (route request.path)
        × IsServed state user output_name format (dispatch base64 state request)
  unfolding dispatch
  dispatch-IsServed state request h =
      elim (Option-cases (authenticate base64 request state.users)) [
        | inl refused ↦ absurd (let bad = rw (refused, dispatch) at h in omega arith)
        | inr (user, known) ↦
            let (output_name, format, asked, served) =
              answer_route-IsServed state user request.user_agent (route request.path)
                (rw (known, dispatch) at h) in
            (user, known, output_name, format, asked, rw (known, dispatch) served)
      ]
