-- ===== src/Parser/Fields.antt =====
-- subscription/parser.rs: `StringOrInt`, and the members of a JSON object as the fields of `V2rayNJson`.
pub mod Decimal
pub mod Rendered
use tobira.Base.{
  ℕ, zero, suc, ◌+◌, ◌-◌, ◌*◌, ◌^◌, ◌&&◌, Option, none, some, String, List, [], ◌∷◌, leb, ltb, ◌==◌,
  if◌then◌else◌, str_eq, any, keep_if, codes, Result, ok, err, ◌>>=◌,
}
use tobira.Config.{PacketEncoding, plain_packets, parse}
use tobira.Parser.{ℤ, pos, negsuc, V2rayNJson, ParseError, bad_json}

-- The digits of a number that goes on from `n`.
unfoldable pub digits : ℕ → List ℕ → Option ℕ
digits n [] = some n
digits n (c ∷ text) =
    let rest = digits (n * 10 + (c - b'0')) text in if leb b'0' c && leb c b'9' then rest else none

abbrev pub minus : ℕ → ℤ
minus zero = pos zero
minus (suc n) = negsuc n

abbrev pub within : ℕ → (ℕ → ℤ) → Option ℕ → Option ℤ
within most make none = none
within most make (some n) = if leb n most then some (make n) else none

-- `str::parse::<i64>`: a sign, if there is one, and one digit or more.
unfoldable pub parse_unsigned : ℕ → (ℕ → ℤ) → List ℕ → Option ℤ
unfolding digits
parse_unsigned most make [] = none
parse_unsigned most make (c ∷ text) = within most make (digits 0 (c ∷ text))

unfoldable pub parse_codes : List ℕ → Option ℤ
unfolding parse_unsigned
parse_codes [] = none
parse_codes (c ∷ text) =
    if c == b'-'
    then parse_unsigned (2 ^ 63) minus text
    else if c == b'+'
    then parse_unsigned (2 ^ 63 - 1) pos text
    else parse_unsigned (2 ^ 63 - 1) pos (c ∷ text)

unfoldable pub parse_i64 : String → Option ℤ
unfolding parse_codes
parse_i64 s = parse_codes (codes s)

-- A member's value: a text, a number that fits an i64, a larger one that fits a u64, or anything else.
pub data Json : Type 0 where
  text : String → Json
  int : ℤ → Json
  large : ℕ → Json
  other : Json

-- The visitor of `StringOrInt`. `v as i64` wraps around.
unfoldable pub string_or_int : Json → Result ParseError ℤ
unfolding parse_i64
string_or_int (int n) = ok n
string_or_int (large n) = ok (if ltb n (2 ^ 63) then pos n else negsuc (2 ^ 64 - 1 - n))
string_or_int (text s) =
    if str_eq s "" then ok (pos 0) else elim (parse_i64 s) [ none ↦ err bad_json | some n ↦ ok n ]
string_or_int other = err bad_json

abbrev pub Members : Type 0
Members = List (String × Json)

abbrev values : List (String × Json) → List Json
values [] = []
values ((key, value) ∷ members) = value ∷ values members

-- The value of a field that goes by some names: none if it is absent, an error if it stands twice.
pub one_member : List String → Members → Result ParseError (Option Json)
one_member names members = elim (values (keep_if (λ m. any (str_eq m.0) names) members)) [
  | [] ↦ ok none
  | value ∷ [] ↦ ok (some value)
  | value ∷ again ∷ more ↦ err bad_json
]

abbrev as_text : Option Json → Result ParseError String
as_text none = ok ""
as_text (some (text s)) = ok s
as_text (some value) = err bad_json

abbrev as_int : Option Json → Result ParseError ℤ
as_int none = ok (pos 0)
as_int (some value) = string_or_int value

abbrev as_encoding : Option Json → Result ParseError PacketEncoding
as_encoding none = ok plain_packets
as_encoding (some (text s)) = elim (parse s) [ none ↦ err bad_json | some e ↦ ok e ]
as_encoding (some value) = err bad_json

pub text_field : String → Members → Result ParseError String
text_field name members = one_member (name ∷ []) members >>= as_text

pub int_field : String → Members → Result ParseError ℤ
int_field name members = one_member (name ∷ []) members >>= as_int

-- What `derive(Deserialize)` makes of the fields and their attributes; other members are passed over.
pub deserialize : Members → Result ParseError V2rayNJson
deserialize members = do
  v ← int_field "v" members
  ps ← text_field "ps" members
  add ← text_field "add" members
  port ← int_field "port" members
  id ← text_field "id" members
  aid ← int_field "aid" members
  net ← text_field "net" members
  type_ ← text_field "type" members
  host ← text_field "host" members
  path ← text_field "path" members
  tls ← text_field "tls" members
  sni ← text_field "sni" members
  scy ← text_field "scy" members
  packet_encoding ← one_member ("packetEncoding" ∷ "packetencoding" ∷ []) members >>= as_encoding
  ok (record {
    v = v;
    ps = ps;
    add = add;
    port = port;
    id = id;
    aid = aid;
    net = net;
    type_ = type_;
    host = host;
    path = path;
    tls = tls;
    sni = sni;
    scy = scy;
    packet_encoding = packet_encoding;
  })
