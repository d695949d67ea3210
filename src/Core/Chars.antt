-- ===== src/Core/Chars.antt =====
-- include/core/chars.h: the classes of characters. A `char` is its byte, 0 to 255; the tests give
-- the same answers whether `char` is signed or not, since every bound lies below 128.
use hoblang_old.Base.{ℕ, Bool, ◌&&◌, ◌||◌, ◌==◌, leb}

-- `(char)EOF`. The same value as a byte 0xff of a file.
abbrev pub eof : ℕ
eof = 0xff

unfoldable pub char_is_whitespace : ℕ → Bool
char_is_whitespace c = c == b'\n' || c == b' ' || c == b'\t'

unfoldable pub char_is_latin : ℕ → Bool
char_is_latin c = (leb b'a' c && leb c b'z') || (leb b'A' c && leb c b'Z')

unfoldable pub char_is_digit : ℕ → Bool
char_is_digit c = leb b'0' c && leb c b'9'

unfoldable pub char_is_hex : ℕ → Bool
unfolding char_is_digit
char_is_hex c = char_is_digit c || (leb b'a' c && leb c b'f') || (leb b'A' c && leb c b'F')

unfoldable pub char_is_ident_start : ℕ → Bool
unfolding char_is_latin
char_is_ident_start c = char_is_latin c || c == b'_'

unfoldable pub char_is_ident : ℕ → Bool
unfolding char_is_ident_start char_is_digit
char_is_ident c = char_is_ident_start c || char_is_digit c
