-- ===== src/Bytes/Hex.antt =====
-- Hex text (accounts-drive/js/src/drive.ts, `hexToBytes` and `bytesToHex`), as the codes of its
-- characters.
pub mod RoundTrip
use op_cartesi.Base.{
  ℕ, ◌+◌, ◌-◌, ◌*◌, ◌/◌, ◌%◌, Bool, true, ◌&&◌, ◌||◌, [], ◌∷◌, ltb, leb, ◌==◌, if◌then◌else◌,
  length, bad_hex, error, Result, ok, err,
}
use op_cartesi.Bytes.{Bytes}

-- `[0-9a-fA-F]`
unfoldable pub is_hex_digit : ℕ → Bool
is_hex_digit c =
    (leb b'0' c && leb c b'9') || (leb b'a' c && leb c b'f') || (leb b'A' c && leb c b'F')

unfoldable pub all_hex : Bytes → Bool
all_hex [] = true
all_hex (c ∷ s) = is_hex_digit c && all_hex s

-- The value of one digit to `parseInt`.
unfoldable pub digit_value : ℕ → ℕ
digit_value c = if leb b'a' c then c - 87 else if leb b'A' c then c - 55 else c - 48

-- The loop over pairs of digits.
unfoldable pub pairs : Bytes → Bytes
unfolding digit_value
pairs [] = []
pairs (a ∷ []) = []
pairs (a ∷ b ∷ s) = (digit_value a * 16 + digit_value b) ∷ pairs s

-- The text after `0x` or `0X`.
unfoldable pub strip_prefix : Bytes → Bytes
strip_prefix [] = []
strip_prefix (a ∷ []) = a ∷ []
strip_prefix (a ∷ b ∷ s) = if (a == b'0') && ((b == b'x') || (b == b'X')) then s else a ∷ b ∷ s

unfoldable pub hex_to_bytes : Bytes → Result Bytes
unfolding is_hex_digit all_hex pairs strip_prefix
hex_to_bytes text =
    let hex = strip_prefix text in
    if (length hex % 2 == 0) && all_hex hex then ok (pairs hex) else err (error bad_hex)

unfoldable pub digit : ℕ → ℕ
digit v = if ltb v 10 then v + 48 else v + 87

-- `b.toString(16).padStart(2, "0")` for each byte
unfoldable pub bytes_to_hex : Bytes → Bytes
unfolding digit
bytes_to_hex [] = []
bytes_to_hex (b ∷ bs) = digit (b / 16) ∷ digit (b % 16) ∷ bytes_to_hex bs
