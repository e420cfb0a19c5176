-- ===== src/Util/Codec.antt =====
-- src/util.cpp: `to_hex`, `base64_encode`, `uri_encode`.
pub mod Decode
pub mod Uri
use haiku_mgmt_agent.Prelude.{
  ℕ, ◌+◌, ◌*◌, ◌/◌, ◌%◌, ◌^◌, Bool, not, ◌&&◌, ◌||◌, List, [], ◌∷◌, ◌++◌, leb, ◌==◌, if◌then◌else◌,
  get_or,
}
use haiku_mgmt_agent.Prelude.Text.{Bytes, codes}

abbrev pub hex_digits : Bytes
hex_digits = codes "0123456789abcdef"

abbrev pub upper_digits : Bytes
upper_digits = codes "0123456789ABCDEF"

abbrev pub alphabet : Bytes
alphabet = codes "ABCDEFGHIJKLMNOPQRSTUVWXYZabcdefghijklmnopqrstuvwxyz0123456789+/"

-- `digits[c >> 4]` and `digits[c & 0x0F]`
unfoldable pub to_hex : Bytes → Bytes
to_hex [] = []
to_hex (c ∷ raw) = get_or hex_digits (c / 16) 0 ∷ get_or hex_digits (c % 16) 0 ∷ to_hex raw

-- `alphabet[(v >> shift) & 63]`
unfoldable pub sextet : ℕ → ℕ → ℕ
sextet v shift = get_or alphabet (v / 2 ^ shift % 64) 0

-- Three bytes a round, then the one or two that are left.
unfoldable pub base64_encode : Bytes → Bytes
unfolding sextet
base64_encode [] = []
base64_encode (a ∷ []) = let v = a * 2 ^ 16 in sextet v 18 ∷ sextet v 12 ∷ codes "=="
base64_encode (a ∷ b ∷ []) =
    let v = a * 2 ^ 16 + b * 2 ^ 8 in sextet v 18 ∷ sextet v 12 ∷ sextet v 6 ∷ codes "="
base64_encode (a ∷ b ∷ c ∷ raw) =
    let v = a * 2 ^ 16 + b * 2 ^ 8 + c in
    sextet v 18 ∷ sextet v 12 ∷ sextet v 6 ∷ sextet v 0 ∷ base64_encode raw

unfoldable pub is_unreserved : ℕ → Bool
is_unreserved c =
    (leb b'A' c && leb c b'Z')
    || (leb b'a' c && leb c b'z')
    || (leb b'0' c && leb c b'9')
    || c == b'-'
    || c == b'_'
    || c == b'.'
    || c == b'~'

unfoldable pub uri_byte : Bool → ℕ → Bytes
uri_byte encode_slash c =
    if is_unreserved c || (c == b'/' && not encode_slash)
    then c ∷ []
    else b'%' ∷ get_or upper_digits (c / 16) 0 ∷ get_or upper_digits (c % 16) 0 ∷ []

unfoldable pub uri_encode : Bytes → Bool → Bytes
unfolding uri_byte is_unreserved
uri_encode [] encode_slash = []
uri_encode (c ∷ s) encode_slash = uri_byte encode_slash c ++ uri_encode s encode_slash
