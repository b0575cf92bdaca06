-- ===== src/BuildScript/Comments/Pieces.antt =====
-- What `strip_comments` (build.rs) keeps of a source that is put together from text and comments.
use clickhouse_c_rs.Base.{
  ℕ, ◌≡◌, refl, ap, ◌∙◌, Bool, true, false, ◌&&◌, ◌||◌, not, List, [], ◌∷◌, ◌++◌, ◌==◌, Bytes,
  arith, append_assoc, append-nil,
}
use clickhouse_c_rs.BuildScript.Text.{Text}
use clickhouse_c_rs.BuildScript.Comments.{code, line, block, slash, star, strip, strip_comments}

-- A piece of a source, a comment without its marks.
pub data Piece : Type 0 where
  plain : Bytes → Piece
  line_comment : Bytes → Piece
  block_comment : Bytes → Piece

-- The source that the pieces make up, before `rest`.
abbrev pub render : List Piece → Bytes → Bytes
render [] rest = rest
render (plain t ∷ ps) rest = t ++ render ps rest
render (line_comment c ∷ ps) rest = slash ∷ slash ∷ (c ++ b'\n' ∷ render ps rest)
render (block_comment c ∷ ps) rest = slash ∷ star ∷ (c ++ star ∷ slash ∷ render ps rest)

-- A line comment leaves its line break.
abbrev pub kept : List Piece → Text
kept [] = []
kept (plain t ∷ ps) = t ++ kept ps
kept (line_comment c ∷ ps) = b'\n' ∷ kept ps
kept (block_comment c ∷ ps) = kept ps

-- Neither `//` nor `/*` stands in the text, and it does not end in a slash.
abbrev pub no_opener : Bytes → Bool
no_opener [] = true
no_opener (a ∷ []) = not (a == slash)
no_opener (a ∷ b ∷ t) = not (a == slash && (b == slash || b == star)) && no_opener (b ∷ t)

abbrev pub no_newline : Bytes → Bool
no_newline [] = true
no_newline (a ∷ t) = not (a == b'\n') && no_newline t

-- No `*/` stands in the comment.
abbrev pub no_closer : Bytes → Bool
no_closer [] = true
no_closer (a ∷ []) = true
no_closer (a ∷ b ∷ t) = not (a == star && b == slash) && no_closer (b ∷ t)

-- The comment ends where its marks say.
abbrev pub well_formed : List Piece → Bool
well_formed [] = true
well_formed (plain t ∷ ps) = no_opener t && well_formed ps
well_formed (line_comment c ∷ ps) = no_newline c && well_formed ps
well_formed (block_comment c ∷ ps) = no_closer c && well_formed ps

strip-code_one :
    (a : ℕ) (rest : Bytes) → (a == slash) ≡ false → strip code (a ∷ rest) ≡ a ∷ strip code rest
unfolding strip
strip-code_one a [] e = refl
strip-code_one a (b ∷ rest) e = rw e refl

strip-plain : (t rest : Bytes) → no_opener t ≡ true → strip code (t ++ rest) ≡ t ++ strip code rest
unfolding strip
strip-plain [] rest e = refl
strip-plain (a ∷ []) rest e = strip-code_one a rest (ground arith)
strip-plain (a ∷ b ∷ t) rest e = ground (arith, strip-plain (b ∷ t) rest)

strip-line :
    (c rest : Bytes)
    → no_newline c ≡ true
    → strip line (c ++ b'\n' ∷ rest) ≡ b'\n' ∷ strip code rest
unfolding strip
strip-line [] rest e = refl
strip-line (a ∷ c) rest e = ground (arith, strip-line c rest)

strip-block :
    (c rest : Bytes) → no_closer c ≡ true → strip block (c ++ star ∷ slash ∷ rest) ≡ strip code rest
unfolding strip
strip-block [] rest e = refl
strip-block (a ∷ []) rest e = ground arith
strip-block (a ∷ b ∷ c) rest e = ground (arith, strip-block (b ∷ c) rest)

strip-render :
    (ps : List Piece) (rest : Bytes)
    → well_formed ps ≡ true
    → strip code (render ps rest) ≡ kept ps ++ strip code rest
unfolding strip
strip-render [] rest e = refl
strip-render (plain t ∷ ps) rest e = ground (
  arith,
  strip-plain t (render ps rest),
  strip-render ps rest,
  append_assoc t (kept ps) (strip code rest),
)
strip-render (line_comment c ∷ ps) rest e =
    ground (arith, strip-line c (render ps rest), strip-render ps rest)
strip-render (block_comment c ∷ ps) rest e =
    ground (arith, strip-block c (render ps rest), strip-render ps rest)

-- A source that is put together from text without an opening mark, line comments without a line
-- break and block comments without a closing mark is stripped to its text, with the line break
-- behind each line comment kept.
pub strip_comments-render :
    (ps : List Piece) → well_formed ps ≡ true → strip_comments (render ps []) ≡ kept ps
unfolding strip_comments strip
strip_comments-render ps e = strip-render ps [] e ∙ append-nil (kept ps)

strip-open :
    (c : Bytes) (x : ℕ) → no_closer (c ++ x ∷ []) ≡ true → strip block (c ++ x ∷ []) ≡ x ∷ []
unfolding strip
strip-open [] x e = refl
strip-open (a ∷ []) x e = ground arith
strip-open (a ∷ b ∷ c) x e = ground (arith, strip-open (b ∷ c) x)

-- A block comment that is not closed is dropped but for its last byte, which is kept as text.
pub strip_comments-open_block :
    (ps : List Piece) (c : Bytes) (x : ℕ)
    → well_formed ps ≡ true
    → no_closer (c ++ x ∷ []) ≡ true
    → strip_comments (render ps (slash ∷ star ∷ (c ++ x ∷ []))) ≡ kept ps ++ x ∷ []
unfolding strip_comments strip
strip_comments-open_block ps c x e h =
    strip-render ps (slash ∷ star ∷ (c ++ x ∷ [])) e ∙ ap (◌++◌ (kept ps)) (strip-open c x h)
