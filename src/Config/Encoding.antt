-- ===== src/Config/Encoding.antt =====
-- config.rs: which texts name a packet encoding.
use tobira.Base.{ℕ, ◌≡◌, refl, some, String, map, codes, arith}
use tobira.Config.{PacketEncoding, plain_packets, packet_addr, xudp, as_str, parse, to_lower}

-- What is written of an encoding is read back as that encoding.
pub parse-as_str : (e : PacketEncoding) → parse (as_str e) ≡ some e
unfolding parse as_str
parse-as_str plain_packets = refl
parse-as_str packet_addr = refl
parse-as_str xudp = refl

to_lower_idem : (c : ℕ) → to_lower (to_lower c) ≡ to_lower c
unfolding to_lower
to_lower_idem c = ground arith

-- Two texts that differ only in the case of ASCII letters name the same encoding, or none.
pub parse_same :
    (s t : String) → map to_lower (codes s) ≡ map to_lower (codes t) → parse s ≡ parse t
unfolding parse
parse_same s t same = rw (same, parse) refl
