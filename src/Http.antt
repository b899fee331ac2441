-- ===== src/Http.antt =====
-- http/server.rs: the subscription server's requests: authentication, routing and the response.
pub mod Links
pub mod Access
mod Tests
use Prim.Native.String.{◌++◌ as append}
use tobira.Base.{
  ℕ, Bool, true, false, ◌&&◌, not, Option, none, some, String, List, [], ◌∷◌, ◌++◌, any, codes,
  code, str_eq, ◌==◌, keep_if, is_empty, if◌then◌else◌, and_then, map,
}
use tobira.Config.{HttpUser, OutputConfig, to_lower, RelayNetwork}

-- An output with its links made for each format.
pub record RenderedOutput : Type 0 where
  pub name : String
  pub v2rayn_links : List String
  pub standard_links : List String
  pub shadowrocket_links : List String

pub record HttpState : Type 0 where
  pub users : List HttpUser
  pub outputs : List RenderedOutput

-- A request: its path, and two of its headers, if they are there and are text.
pub record Request : Type 0 where
  pub path : String
  pub authorization : Option String
  pub user_agent : Option String

pub record Response : Type 0 where
  pub status : ℕ
  pub headers : List (String × String)
  pub body : String

pub data LinkFormat : Type 0 where
  v2rayn : LinkFormat
  standard : LinkFormat
  shadowrocket : LinkFormat

pub data RequestedFormat : Type 0 where
  automatic : RequestedFormat
  explicit : LinkFormat → RequestedFormat

pub data Route : Type 0 where
  all_outputs : RequestedFormat → Route
  named_output : String → RequestedFormat → Route
  not_found : Route

-- Whether the second text starts with the first, and whether it holds it.
abbrev pub starts_with : List ℕ → List ℕ → Bool
starts_with [] text = true
starts_with (c ∷ part) [] = false
starts_with (c ∷ part) (d ∷ text) = (c == d) && starts_with part text

abbrev holds : List ℕ → List ℕ → Bool
holds part [] = is_empty part
holds part (d ∷ text) =
    let later = holds part text in if starts_with part (d ∷ text) then true else later

pub link_format_for_user_agent : Option String → LinkFormat
unfolding to_lower
link_format_for_user_agent none = v2rayn
link_format_for_user_agent (some user_agent) =
    if holds (codes "shadowrocket") (map to_lower (codes user_agent)) then shadowrocket else v2rayn

pub resolve : RequestedFormat → Option String → LinkFormat
unfolding link_format_for_user_agent
resolve automatic user_agent = link_format_for_user_agent user_agent
resolve (explicit format) user_agent = format

-- `split('/')`: the first part and the others.
abbrev pub split_path : String → String × List String
split_path String.[] = ("", [])
split_path (String.◌∷◌ c s) =
    let (part, parts) = split_path s in
    if code c == b'/' then ("", part ∷ parts) else (String.◌∷◌ c part, parts)

abbrev pub path_parts : String → List String
path_parts path =
    let (part, parts) = split_path path in keep_if (λ p. not (str_eq p "")) (part ∷ parts)

-- The format that the last part of a path names.
abbrev pub named_format : String → Option LinkFormat
named_format part =
    if str_eq part "base64"
    then some v2rayn
    else if str_eq part "v2rayn"
    then some v2rayn
    else if str_eq part "standard"
    then some standard
    else if str_eq part "url"
    then some standard
    else if str_eq part "shadowrocket"
    then some shadowrocket
    else none

-- The part after `sub`: a format, or else the name of an output.
abbrev pub route_one : String → Route
route_one part = elim (named_format part) [
  | some format ↦ all_outputs (explicit format)
  | none ↦ named_output part automatic
]

abbrev pub route_two : String → String → Route
route_two name part = elim (named_format part) [
  | some format ↦ named_output name (explicit format)
  | none ↦ not_found
]

pub route_parts : List String → Route
route_parts [] = not_found
route_parts (sub ∷ []) = if str_eq sub "sub" then all_outputs automatic else not_found
route_parts (sub ∷ part ∷ []) = if str_eq sub "sub" then route_one part else not_found
route_parts (sub ∷ name ∷ part ∷ []) = if str_eq sub "sub" then route_two name part else not_found
route_parts (sub ∷ name ∷ part ∷ other ∷ others) = not_found

pub route : String → Route
unfolding route_parts
route path = route_parts (path_parts path)

-- `strip_prefix`
unfoldable pub strip_prefix : String → String → Option String
strip_prefix String.[] text = some text
strip_prefix (String.◌∷◌ c part) String.[] = none
strip_prefix (String.◌∷◌ c part) (String.◌∷◌ d text) =
    let rest = strip_prefix part text in if code c == code d then rest else none

-- `split_once(':')`
pub split_once : String → Option (String × String)
split_once String.[] = none
split_once (String.◌∷◌ c text) =
    let rest = split_once text in
    if code c == b':'
    then some ("", text)
    else elim rest [ none ↦ none | some (front, behind) ↦ some (String.◌∷◌ c front, behind) ]

abbrev pub anonymous : HttpUser
anonymous = record { username = ""; password = ""; outputs = none }

-- The loop over the users; `ct_eq` is equality of the bytes.
pub match_user : String → String → List HttpUser → Option HttpUser → Option HttpUser
match_user username password [] matched = matched
match_user username password (user ∷ users) matched =
    let un_ok = str_eq username user.username in
    let pw_ok = str_eq password user.password in
    elim matched [
      | some found ↦ match_user username password users (some found)
      | none ↦ match_user username password users (if un_ok && pw_ok then some user else none)
    ]

-- Whether the output stands under the name in the path, if there is one, and is one that the user may
-- have.
abbrev pub restriction_allows : Option (List String) → String → Bool
restriction_allows none name = true
restriction_allows (some user_outputs) name = any (λ n. str_eq n name) user_outputs

pub is_allowed : HttpUser → Option String → RenderedOutput → Bool
is_allowed user none o = restriction_allows user.outputs o.name
is_allowed user (some name) o =
    if not (str_eq o.name name) then false else restriction_allows user.outputs o.name

abbrev pub links_of : LinkFormat → RenderedOutput → List String
links_of v2rayn o = o.v2rayn_links
links_of standard o = o.standard_links
links_of shadowrocket o = o.shadowrocket_links

pub collect_links : LinkFormat → List RenderedOutput → List String
collect_links format [] = []
collect_links format (o ∷ outputs) = links_of format o ++ collect_links format outputs

-- `join("\n")`
pub join_lines : List String → String
join_lines [] = ""
join_lines (line ∷ []) = line
join_lines (line ∷ other ∷ lines) = append line (append "\n" (join_lines (other ∷ lines)))

abbrev pub allowed_outputs : HttpState → HttpUser → Option String → List RenderedOutput
allowed_outputs state user output_name = keep_if (is_allowed user output_name) state.outputs

-- Base64, of text: the decoder answers nothing where the bytes are not text.
pub record Base64 : Type 0 where
  pub encode : String → String
  pub decode : String → Option String

module _ (base64 : Base64) where
  open base64 use {encode, decode}

  pub extract_basic_auth : Request → Option (String × String)
  unfolding strip_prefix split_once
  extract_basic_auth request = and_then request.authorization (λ value.
      and_then (strip_prefix "Basic " value) (λ encoded. and_then (decode encoded) split_once))

  pub authenticate : Request → List HttpUser → Option HttpUser
  unfolding extract_basic_auth match_user
  authenticate request [] = some anonymous
  authenticate request (user ∷ users) =
      and_then (extract_basic_auth request)
        (λ (username, password). match_user username password (user ∷ users) none)

  abbrev pub encode_body : LinkFormat → String → String
  encode_body standard content = content
  encode_body v2rayn content = encode content
  encode_body shadowrocket content = encode content

  pub build_subscription_response : HttpState → HttpUser → Option String → LinkFormat → Response
  unfolding is_allowed collect_links join_lines
  build_subscription_response state user output_name format =
      let allowed = allowed_outputs state user output_name in
      if is_empty allowed
      then record { status = 404; headers = []; body = "no matching outputs" }
      else record {
        status = 200;
        headers =
            ("Content-Type", "text/plain; charset=utf-8")
            ∷ ("Subscription-Userinfo", "upload=0; download=0; total=0; expire=0")
            ∷ [];
        body = encode_body format (join_lines (collect_links format allowed));
      }

  pub answer_route : HttpState → HttpUser → Option String → Route → Response
  unfolding build_subscription_response resolve
  answer_route state user user_agent (all_outputs format) =
      build_subscription_response state user none (resolve format user_agent)
  answer_route state user user_agent (named_output name format) =
      build_subscription_response state user (some name) (resolve format user_agent)
  answer_route state user user_agent not_found = record {
    status = 404;
    headers = [];
    body = "Not Found";
  }

  pub dispatch : HttpState → Request → Response
  unfolding authenticate answer_route route
  dispatch state request = elim (authenticate request state.users) [
    | none ↦ record {
      status = 401;
      headers =
          ("WWW-Authenticate", "Basic realm=\"Subscription\"")
          ∷ ("Content-Type", "text/plain")
          ∷ [];
      body = "Unauthorized";
    }
    | some user ↦ answer_route state user request.user_agent (route request.path)
  ]
