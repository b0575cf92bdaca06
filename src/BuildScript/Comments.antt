-- ===== src/BuildScript/Comments.antt =====
-- Comment stripping of build.rs (build.rs): `strip_comments` as a machine over the bytes.
pub mod Pieces
use clickhouse_c_rs.Base.{
  ℕ, ◌<◌, ◌≡◌, refl, Bool, true, false, ◌&&◌, ◌||◌, [], ◌∷◌, ◌++◌, ◌==◌, if◌then◌else◌, Bytes,
}
use clickhouse_c_rs.BuildScript.Text.{Text}

-- Where the loop of `strip_comments` stands: in the text, in a `//` comment, in a `/* */` comment.
pub data Mode : Type 0 where
  code : Mode
  line : Mode
  block : Mode

abbrev pub slash : ℕ
slash = b'/'

abbrev pub star : ℕ
star = b'*'

-- `out.push(bytes[i] as char)` makes each byte a character of its own. A block comment that the
-- source does not close leaves its last byte behind: the loop stops one byte early.
unfoldable pub strip : Mode → Bytes → Text
strip code [] = []
strip code (a ∷ []) = a ∷ []
strip code (a ∷ b ∷ rest) =
    let in_line = strip line rest in
    let in_block = strip block rest in
    let kept = a ∷ strip code (b ∷ rest) in
    if a == slash && b == slash then in_line else if a == slash && b == star then in_block else kept
strip line [] = []
strip line (a ∷ rest) =
    let ended = a ∷ strip code rest in let on = strip line rest in if a == b'\n' then ended else on
strip block [] = []
strip block (a ∷ []) = a ∷ []
strip block (a ∷ b ∷ rest) =
    let ended = strip code rest in
    let on = strip block (b ∷ rest) in if a == star && b == slash then ended else on

unfoldable pub strip_comments : Bytes → Text
unfolding strip
strip_comments src = strip code src
