-- ===== src/Prelude/Text.antt =====
-- Text as the list of its UTF-16 code units, and the character classes of JavaScript's patterns.
use Prim.Native.Char.{code}
use Prim.Native.Nat.{ℕ}
use Prim.Native.String.{String}
use mathlib.Core.Bool.{Bool, ◌&&◌, ◌||◌}
use mathlib.Core.List.{List, [], ◌∷◌}
use dip_distributed_llm_runt.Prelude.Tests.{leb, ◌==◌}

abbrev pub codes : String → List ℕ
codes String.[] = []
codes (String.◌∷◌ c s) = code c ∷ codes s

-- `\s`: white space and line ends, which `trim` and Number.parseInt skip.
unfoldable pub is_space : ℕ → Bool
is_space c =
    (leb 9 c && leb c 13)
    || (c == 32)
    || (c == 160)
    || (c == 5760)
    || (leb 8192 c && leb c 8202)
    || (c == 8232)
    || (c == 8233)
    || (c == 8239)
    || (c == 8287)
    || (c == 12288)
    || (c == 65279)

abbrev pub is_digit : ℕ → Bool
is_digit c = leb b'0' c && leb c b'9'

-- What `.` does not match.
abbrev pub is_line_end : ℕ → Bool
is_line_end c = (c == 10) || (c == 13) || (c == 8232) || (c == 8233)

-- `\w`
abbrev pub is_word : ℕ → Bool
is_word c = is_digit c || (leb b'A' c && leb c b'Z') || (c == b'_') || (leb b'a' c && leb c b'z')
