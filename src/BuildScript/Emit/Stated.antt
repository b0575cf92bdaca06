-- ===== src/BuildScript/Emit/Stated.antt =====
-- The constants file that build.rs writes, and the headers that it is made of.
use clickhouse_c_rs.Base.{
  ◌≡◌, ◌≢◌, refl, ap, sym, ◌∙◌, inl, inr, Bool, true, Option, none, some, List, [], ◌∷◌, ◌++◌,
  Bool-cases,
}
use mathlib.Core.Option.{some-injective}
use mathlib.Core.Path.{subst}
use clickhouse_c_rs.Base.Int.{ℤ, pos}
use clickhouse_c_rs.BuildScript.Text.{Text, as_bytes, all, is_ident_byte}
use clickhouse_c_rs.BuildScript.Text.Suffix.{
  IsSentinel, ends_with-IsSentinel, text_eq-eq, text_eq_refl,
}
use clickhouse_c_rs.BuildScript.Comments.{strip_comments}
use clickhouse_c_rs.BuildScript.Comments.Pieces
use clickhouse_c_rs.BuildScript.Comments.Pieces.{Piece, strip_comments-render}
use clickhouse_c_rs.BuildScript.Enums.{Variant, EnumBlock, push_block, extract_enums}
use clickhouse_c_rs.BuildScript.Enums.Entries.{
  Entry, blank, implicit, explicit, AllEntries, assigned, next_ℤ, name_ident,
}
use clickhouse_c_rs.BuildScript.Enums.Items.{
  Item, other, anonymous, tagged, header_text, AllItems, enums_of,
}
use clickhouse_c_rs.BuildScript.Enums.Found.{extract_enums-header}
use clickhouse_c_rs.BuildScript.Declarations.{extract_define, first_define, lines}
use clickhouse_c_rs.BuildScript.Emit.{same_tag, find_enum, is_sentinel}
use clickhouse_c_rs.BuildScript.Emit.ReadBack.{Constant, constants, AllNamed}
use clickhouse_c_rs.BuildScript.Emit.Macros.{DefinedAs, first_define-DefinedAs}
use clickhouse_c_rs.BuildScript.Emit.Constants.{BlocksNamed, HeaderNamed}

-- The constants of an enum: all its enumerators in order, but for the sentinels.
pub data Declares (rust_type : Text) : List Variant → List Constant → Type 0 where
  nothing : Declares rust_type [] []
  left_out :
      (name : Text) (value : ℤ) (vs : List Variant) (cs : List Constant)
      → IsSentinel name
      → Declares rust_type vs cs
      → Declares rust_type ((name, value) ∷ vs) cs
  declared :
      (name : Text) (value : ℤ) (vs : List Variant) (cs : List Constant)
      → (IsSentinel name → ⊥)
      → Declares rust_type vs cs
      → Declares rust_type ((name, value) ∷ vs) ((name, (rust_type, value)) ∷ cs)

pub constants-Declares :
    (rust_type : Text) (vs : List Variant) → Declares rust_type vs (constants vs rust_type)
unfolding is_sentinel
constants-Declares rust_type [] = nothing
constants-Declares rust_type ((name, value) ∷ vs) = elim (Bool-cases (is_sentinel name)) [
  | inl sentinel ↦ rw sentinel (
      left_out name value vs (constants vs rust_type) ((ends_with-IsSentinel name).0 sentinel)
        (constants-Declares rust_type vs))
  | inr real ↦ rw real (
      declared name value vs (constants vs rust_type)
        (λ is. cc (sym real ∙ (ends_with-IsSentinel name).1 is)) (constants-Declares rust_type vs))
]

-- The first enum of this tag, or the first one without a tag.
abbrev pub NoneTagged : Option Text → List EnumBlock → Type 0
NoneTagged tag [] = Unit {0}
NoneTagged tag ((n, vs) ∷ blocks) = (n ≢ tag) × NoneTagged tag blocks

abbrev pub First : Option Text → List EnumBlock → List Variant → Type 0
First tag blocks vs =
    (before : List EnumBlock) × (after : List EnumBlock) × (blocks ≡ before ++ (tag, vs) ∷ after)
    × NoneTagged tag before

same_tag-eq : (n tag : Option Text) → same_tag n tag ≡ true → n ≡ tag
same_tag-eq none none e = refl
same_tag-eq none (some t) e = cc
same_tag-eq (some n) none e = cc
same_tag-eq (some n) (some t) e = ap some (text_eq-eq n t e)

same_tag_refl : (tag : Option Text) → same_tag tag tag ≡ true
same_tag_refl none = refl
same_tag_refl (some t) = text_eq_refl t

find_enum-before :
    (tag : Option Text) (before after : List EnumBlock) (vs : List Variant)
    → NoneTagged tag before
    → find_enum tag (before ++ (tag, vs) ∷ after) ≡ some vs
unfolding find_enum
find_enum-before tag [] after vs quiet = rw (same_tag_refl tag) refl
find_enum-before tag ((n, ws) ∷ before) after vs (differs, quiet) =
    elim (Bool-cases (same_tag n tag)) [
      | inl same ↦ absurd (differs (same_tag-eq n tag same))
      | inr differ ↦ rw differ (find_enum-before tag before after vs quiet)
    ]

pub find_enum-First :
    (tag : Option Text) (blocks : List EnumBlock) (vs : List Variant)
    → First tag blocks vs
    → find_enum tag blocks ≡ some vs
find_enum-First tag blocks vs (before, after, is, quiet) =
    ap (find_enum tag) is ∙ find_enum-before tag before after vs quiet

-- A header, between its comments: enums and other text.
pub record IsSource (src : Text) (items : List Item) : Type 0 where
  pub pieces : List Piece
  pub made : as_bytes src ≡ Pieces.render pieces []
  pub formed : Pieces.well_formed pieces ≡ true
  pub kept : Pieces.kept pieces ≡ header_text items
  pub are_items : AllItems items

assigned-AllNamed : (next : ℤ) (es : List Entry) → AllEntries es → AllNamed (assigned next es)
assigned-AllNamed next [] h = tt
assigned-AllNamed next (blank space ∷ es) (h, hs) = assigned-AllNamed next es hs
assigned-AllNamed next (implicit before name after ∷ es) ((hb, hn, ha), hs) =
    (name_ident name hn, assigned-AllNamed (next_ℤ next) es hs)
assigned-AllNamed next (explicit before name gap gap' value after v ∷ es)
      ((hb, hn, hg, hg', hv, he, ha, is), hs) =
    (name_ident name hn, assigned-AllNamed (next_ℤ v) es hs)

push_block-BlocksNamed :
    (tag : Option Text) (vs : List Variant) (blocks : List EnumBlock)
    → AllNamed vs
    → BlocksNamed blocks
    → BlocksNamed (push_block tag vs blocks)
push_block-BlocksNamed tag [] blocks named all_named = all_named
push_block-BlocksNamed tag (v ∷ vs) blocks named all_named = (named, all_named)

enums_of-BlocksNamed : (is : List Item) → AllItems is → BlocksNamed (enums_of is)
enums_of-BlocksNamed [] h = tt
enums_of-BlocksNamed (other t ∷ is) (h, hs) = enums_of-BlocksNamed is hs
enums_of-BlocksNamed (anonymous gap e es ∷ is) ((hg, he, fits), hs) =
    push_block-BlocksNamed none (assigned (pos 0) (e ∷ es)) (enums_of is)
      (assigned-AllNamed (pos 0) (e ∷ es) he) (enums_of-BlocksNamed is hs)
enums_of-BlocksNamed (tagged gap tag gap' e es ∷ is) ((hg, ne, ht, hg', he, fits), hs) =
    push_block-BlocksNamed (some tag) (assigned (pos 0) (e ∷ es)) (enums_of is)
      (assigned-AllNamed (pos 0) (e ∷ es) he) (enums_of-BlocksNamed is hs)

module _ (src : Text) (items : List Item) (source : IsSource src items) where
  pub source-enums : (checks : Bool) → extract_enums checks src ≡ some (enums_of items)
  source-enums checks =
      extract_enums-header checks src source.pieces items source.made source.formed source.kept
        source.are_items

  pub source-HeaderNamed : (checks : Bool) → HeaderNamed checks src
  source-HeaderNamed checks enums is =
      subst BlocksNamed (some-injective (enums_of items) enums (sym (source-enums checks) ∙ is))
        (enums_of-BlocksNamed items source.are_items)

  pub source-define :
      (name : Text) (v : ℤ)
      → all is_ident_byte name ≡ true
      → name ≢ []
      → DefinedAs name v (header_text items)
      → extract_define src name ≡ some v
  unfolding extract_define
  source-define name v ident ne defined =
      ap (λ t. first_define name (lines (strip_comments t))) source.made
      ∙ ap (λ t. first_define name (lines t))
          (strip_comments-render source.pieces source.formed ∙ source.kept)
      ∙ first_define-DefinedAs name ident ne v (header_text items) defined
