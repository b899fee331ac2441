-- ===== src/Process/Dedup.antt =====
-- subscription/process.rs: the deduplication of nodes by name. A hash map is an association list; the
-- order of its entries does not matter here, since only a set is made of them.
pub mod Rename
pub mod Best
pub mod Preserves
mod Tests
use Prim.Native.String.{◌++◌ as append}
use tobira.Base.{
  ℕ, zero, suc, ◌+◌, ◌%◌, ◌/◌, Bool, true, false, Option, none, some, String, Char, List, [], ◌∷◌,
  ◌++◌, any, ltb, ◌==◌, str_eq, get_or, length, if◌then◌else◌,
}
use tobira.Node.{VMessNode}

pub data AddressType : Type 0 where
  domain : AddressType
  ipv4 : AddressType
  ipv6 : AddressType
  unknown_address : AddressType

pub data DedupStrategy : Type 0 where
  rename : DedupStrategy
  first : DedupStrategy
  last : DedupStrategy
  prefer_ipv4 : DedupStrategy
  prefer_ipv6 : DedupStrategy
  prefer_domain_then_ipv4 : DedupStrategy
  prefer_domain_then_ipv6 : DedupStrategy
  unknown : DedupStrategy

-- `DedupStrategy::parse`
pub parse_strategy : String → DedupStrategy
parse_strategy strategy =
    if str_eq strategy ""
    then rename
    else if str_eq strategy "rename"
    then rename
    else if str_eq strategy "first"
    then first
    else if str_eq strategy "last"
    then last
    else if str_eq strategy "prefer_ipv4"
    then prefer_ipv4
    else if str_eq strategy "prefer_ipv6"
    then prefer_ipv6
    else if str_eq strategy "prefer_domain_then_ipv4"
    then prefer_domain_then_ipv4
    else if str_eq strategy "prefer_domain_then_ipv6"
    then prefer_domain_then_ipv6
    else unknown

pub address_priority : DedupStrategy → AddressType → ℕ
address_priority prefer_ipv4 ipv4 = 3
address_priority prefer_ipv4 domain = 2
address_priority prefer_ipv4 ipv6 = 1
address_priority prefer_ipv4 unknown_address = 0
address_priority prefer_ipv6 ipv6 = 3
address_priority prefer_ipv6 domain = 2
address_priority prefer_ipv6 ipv4 = 1
address_priority prefer_ipv6 unknown_address = 0
address_priority prefer_domain_then_ipv4 domain = 3
address_priority prefer_domain_then_ipv4 ipv4 = 2
address_priority prefer_domain_then_ipv4 ipv6 = 1
address_priority prefer_domain_then_ipv4 unknown_address = 0
address_priority prefer_domain_then_ipv6 domain = 3
address_priority prefer_domain_then_ipv6 ipv6 = 2
address_priority prefer_domain_then_ipv6 ipv4 = 1
address_priority prefer_domain_then_ipv6 unknown_address = 0
address_priority rename a = 0
address_priority first a = 0
address_priority last a = 0
address_priority unknown a = 0

abbrev pub digit : ℕ → Char
digit d = get_or ("0" ∷ "1" ∷ "2" ∷ "3" ∷ "4" ∷ "5" ∷ "6" ∷ "7" ∷ "8" ∷ []) d "9"

-- A number in decimal digits; as many rounds as the number suffice.
unfoldable pub decimal : ℕ → ℕ → String → String
decimal zero n behind = behind
decimal (suc fuel) n behind =
    let text = String.◌∷◌ (digit (n % 10)) behind in
    let more = decimal fuel (n / 10) text in if n / 10 == 0 then text else more

-- `format!("{} ({})", tag, count)`
pub numbered : String → ℕ → String
unfolding decimal
numbered tag count = append tag (append " (" (append (decimal (suc count) count "") ")"))

abbrev pub lookup : String → List (String × ℕ) → Option ℕ
lookup key [] = none
lookup key ((k, v) ∷ entries) = if str_eq k key then some v else lookup key entries

abbrev pub insert : String → ℕ → List (String × ℕ) → List (String × ℕ)
insert key value [] = (key, value) ∷ []
insert key value ((k, v) ∷ entries) =
    if str_eq k key then (k, value) ∷ entries else (k, v) ∷ insert key value entries

-- The closure of the `Rename` strategy along the nodes; `seen` counts the copies of a name.
pub rename_loop : List (String × ℕ) → List VMessNode → List VMessNode
unfolding numbered
rename_loop seen [] = []
rename_loop seen (node ∷ nodes) = elim (lookup node.name seen) [
  | some count ↦
      record node { name = numbered node.name (count + 1) }
      ∷ rename_loop (insert node.name (count + 1) seen) nodes
  | none ↦ node ∷ rename_loop (insert node.name 0 seen) nodes
]

-- `name_indices.entry(name).or_default().push(i)`
abbrev pub push_index : String → ℕ → List (String × List ℕ) → List (String × List ℕ)
push_index name i [] = (name, i ∷ []) ∷ []
push_index name i ((k, indices) ∷ entries) =
    if str_eq k name
    then (k, indices ++ i ∷ []) ∷ entries
    else (k, indices) ∷ push_index name i entries

pub collect_indices : ℕ → List VMessNode → List (String × List ℕ) → List (String × List ℕ)
collect_indices i [] name_indices = name_indices
collect_indices i (node ∷ nodes) name_indices =
    collect_indices (suc i) nodes (push_index node.name i name_indices)

-- `indices[0]` and `indices.last()`, of a list that has an element.
abbrev pub first_index : List ℕ → ℕ
first_index indices = get_or indices 0 0

abbrev pub last_index : List ℕ → ℕ
last_index [] = 0
last_index (i ∷ []) = i
last_index (i ∷ j ∷ indices) = last_index (j ∷ indices)

-- The loop over the indices, with a priority for each. `none` is the `best_priority` of -1.
pub best_loop : (ℕ → ℕ) → List ℕ → ℕ → Option ℕ → ℕ
best_loop priority [] best_idx best_priority = best_idx
best_loop priority (idx ∷ indices) best_idx none =
    best_loop priority indices idx (some (priority idx))
best_loop priority (idx ∷ indices) best_idx (some best_priority) =
    let better = best_loop priority indices idx (some (priority idx)) in
    let same = best_loop priority indices best_idx (some best_priority) in
    if ltb best_priority (priority idx) then better else same

pub best_index : (ℕ → ℕ) → List ℕ → ℕ
unfolding best_loop
best_index priority indices = best_loop priority indices (first_index indices) none

-- Which index of a name is kept; a name with one index falls to the first case too.
pub selected : (ℕ → ℕ) → DedupStrategy → List ℕ → ℕ
unfolding best_index
selected priority strategy indices =
    if length indices == 1 then first_index indices else elim strategy [
      | first ↦ first_index indices
      | last ↦ last_index indices
      | rename ↦ best_index priority indices
      | prefer_ipv4 ↦ best_index priority indices
      | prefer_ipv6 ↦ best_index priority indices
      | prefer_domain_then_ipv4 ↦ best_index priority indices
      | prefer_domain_then_ipv6 ↦ best_index priority indices
      | unknown ↦ best_index priority indices
    ]

pub keep_set : (ℕ → ℕ) → DedupStrategy → List (String × List ℕ) → List ℕ
unfolding selected
keep_set priority strategy [] = []
keep_set priority strategy ((name, indices) ∷ entries) =
    selected priority strategy indices ∷ keep_set priority strategy entries

-- The nodes whose index is in the set, in their order.
pub keep_nodes : ℕ → List ℕ → List VMessNode → List VMessNode
keep_nodes i keep [] = []
keep_nodes i keep (node ∷ nodes) =
    let rest = keep_nodes (suc i) keep nodes in if any (λ k. k == i) keep then node ∷ rest else rest

-- Whether a text is an IPv4 or an IPv6 address, for the standard library's parsers.
module _ (is_ipv4 is_ipv6 : String → Bool) where
  pub get_address_type : String → AddressType
  get_address_type address =
      if str_eq address ""
      then unknown_address
      else if is_ipv4 address
      then ipv4
      else if is_ipv6 address
      then ipv6
      else domain

  abbrev pub server_at : List VMessNode → ℕ → String
  server_at [] i = ""
  server_at (node ∷ nodes) zero = node.server
  server_at (node ∷ nodes) (suc i) = server_at nodes i

  pub priority_at : List VMessNode → DedupStrategy → ℕ → ℕ
  unfolding get_address_type address_priority
  priority_at nodes strategy idx =
      address_priority strategy (get_address_type (server_at nodes idx))

  abbrev pub is_rename : DedupStrategy → Bool
  is_rename rename = true
  is_rename _ = false

  unfoldable pub deduplicate_nodes : List VMessNode → String → List VMessNode
  unfolding parse_strategy rename_loop collect_indices keep_set keep_nodes priority_at
  deduplicate_nodes nodes strategy_name =
      let strategy = parse_strategy strategy_name in
      if is_rename strategy
      then rename_loop [] nodes
      else keep_nodes 0
          (keep_set (priority_at nodes strategy) strategy (collect_indices 0 nodes [])) nodes
