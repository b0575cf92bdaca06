-- ===== src/BuildScript/Enums/Items.antt =====
-- What `extract_enums` (build.rs) finds in a header.
use clickhouse_c_rs.Base.{
  ◌≡◌, ◌≢◌, Bool, true, false, not, ◌&&◌, ◌||◌, none, some, List, [], ◌∷◌, ◌++◌, ◌==◌, is_some,
}
use clickhouse_c_rs.Base.Int.{pos}
use clickhouse_c_rs.BuildScript.Text.{
  Text, all, codes, is_ident_byte, is_ascii_alphabetic, is_ascii_whitespace, strip_prefix,
}
use clickhouse_c_rs.BuildScript.Enums.{EnumBlock, push_block}
use clickhouse_c_rs.BuildScript.Enums.Entries.{Entry, AllEntries, body_text, assigned, have_next}

-- A header between its comments: enums, with or without a tag, and other text.
pub data Item : Type 0 where
  other : Text → Item
  anonymous : Text → Entry → List Entry → Item
  tagged : Text → Text → Text → Entry → List Entry → Item

abbrev pub item_text : Item → Text → Text
item_text (other t) rest = t ++ rest
item_text (anonymous gap e es) rest =
    codes "enum" ++ (gap ++ b'{' ∷ (body_text e es ++ b'}' ∷ rest))
item_text (tagged gap tag gap' e es) rest =
    codes "enum" ++ (gap ++ (tag ++ (gap' ++ b'{' ∷ (body_text e es ++ b'}' ∷ rest))))

abbrev pub header_text : List Item → Text
header_text [] = []
header_text (i ∷ is) = item_text i (header_text is)

-- The word `enum` starts somewhere in the text.
abbrev pub mentions_enum : Text → Bool
mentions_enum [] = false
mentions_enum (c ∷ cs) = is_some (strip_prefix (codes "enum") (c ∷ cs)) || mentions_enum cs

-- The text does not end in an identifier.
abbrev pub ends_open : Text → Bool
ends_open [] = true
ends_open (c ∷ []) = not (is_ident_byte c)
ends_open (c ∷ d ∷ cs) = ends_open (d ∷ cs)

abbrev pub is_tag : Text → Bool
is_tag [] = false
is_tag (c ∷ cs) = (is_ascii_alphabetic c || c == b'_') && all is_ident_byte cs

abbrev pub IsItem : Item → Type 0
IsItem (other t) = (mentions_enum t ≡ false) × (ends_open t ≡ true)
IsItem (anonymous gap e es) =
    (all is_ascii_whitespace gap ≡ true)
    × AllEntries (e ∷ es)
    × (have_next (assigned (pos 0) (e ∷ es)) ≡ true)
IsItem (tagged gap tag gap' e es) =
    (all is_ascii_whitespace gap ≡ true)
    × (gap ≢ [])
    × (is_tag tag ≡ true)
    × (all is_ascii_whitespace gap' ≡ true)
    × AllEntries (e ∷ es)
    × (have_next (assigned (pos 0) (e ∷ es)) ≡ true)

abbrev pub AllItems : List Item → Type 0
AllItems [] = Unit {0}
AllItems (i ∷ is) = IsItem i × AllItems is

-- The enums that have enumerators, with their values.
abbrev pub enums_of : List Item → List EnumBlock
enums_of [] = []
enums_of (other t ∷ is) = enums_of is
enums_of (anonymous gap e es ∷ is) = push_block none (assigned (pos 0) (e ∷ es)) (enums_of is)
enums_of (tagged gap tag gap' e es ∷ is) =
    push_block (some tag) (assigned (pos 0) (e ∷ es)) (enums_of is)

-- Whether the last character, if there is one, is of an identifier.
abbrev pub after : Bool → Text → Bool
after behind [] = behind
after behind (c ∷ cs) = after (is_ident_byte c) cs
