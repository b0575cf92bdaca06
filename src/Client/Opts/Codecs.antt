-- ===== src/Client/Opts/Codecs.antt =====
-- Which codecs a client accepts.
use clickhouse_c_rs.Base.{
  ◌≡◌, ◌↔◌, refl, sym, ◌∙◌, Option, none, some, true, Bool-cases, inl, inr, ◌&&◌, is_some,
}
use clickhouse_c_rs.Error.{ok}
use clickhouse_c_rs.Codec.{Compression, Codec, supports}
use clickhouse_c_rs.Client.Opts.{ClientOpts, support, validate, validate_codec}

-- A callback is installed.
abbrev pub Installed : {F : Type 0} → Option F → Type 0
Installed none = ⊥
Installed (some f) = Unit {0}

-- The callbacks that an algorithm calls are all there.
abbrev pub Callbacks : {F : Type 0} → Compression → Option (Codec F) → Type 0
Callbacks Compression.none codec = Unit {0}
Callbacks Compression.lz4 none = ⊥
Callbacks Compression.lz4 (some c) =
    Installed c.lz4_compress × Installed c.lz4_decompress × Installed c.lz4_bound
Callbacks Compression.zstd none = ⊥
Callbacks Compression.zstd (some c) =
    Installed c.zstd_compress × Installed c.zstd_decompress × Installed c.zstd_bound

module _ {F : Type 0} where
  all-Installed :
      (a b c : Option F)
      → ((is_some a && is_some b && is_some c) ≡ true) ↔ (Installed a × Installed b × Installed c)
  all-Installed none b c = ((λ e. cc), (λ i. absurd i.0))
  all-Installed (some a) none c = ((λ e. cc), (λ i. absurd i.1))
  all-Installed (some a) (some b) none = ((λ e. cc), (λ i. absurd i.2))
  all-Installed (some a) (some b) (some c) = ((λ e. (tt, tt, tt)), (λ i. refl))

  supported :
      (codec : Codec F) (c : Compression) → (supports codec c ≡ true) ↔ Callbacks c (some codec)
  supported codec Compression.none = ((λ e. tt), (λ i. refl))
  supported codec Compression.lz4 =
      all-Installed codec.lz4_compress codec.lz4_decompress codec.lz4_bound
  supported codec Compression.zstd =
      all-Installed codec.zstd_compress codec.zstd_decompress codec.zstd_bound

  support_iff :
      (c : Compression) (codec : Codec F)
      → (support c (some codec) ≡ ok tt) ↔ Callbacks c (some codec)
  support_iff c codec = elim (Bool-cases (supports codec c)) [
    | inl fits ↦ rw fits ((λ e. (supported codec c).0 fits), (λ i. refl))
    | inr lacks ↦ rw lacks ((λ e. cc), (λ i. cc (sym lacks ∙ (supported codec c).1 i)))
  ]

  validate_iff :
      (c : Compression) (codec : Option (Codec F)) → (validate c codec ≡ ok tt) ↔ Callbacks c codec
  validate_iff Compression.none codec = ((λ e. tt), (λ i. refl))
  validate_iff Compression.lz4 none = ((λ e. cc), (λ i. absurd i))
  validate_iff Compression.lz4 (some codec) = support_iff Compression.lz4 codec
  validate_iff Compression.zstd none = ((λ e. cc), (λ i. absurd i))
  validate_iff Compression.zstd (some codec) = support_iff Compression.zstd codec

  -- Options are accepted with a codec, or without one, exactly if the callbacks that their compression
  -- calls are all installed.
  pub validate_codec_iff :
      (opts : ClientOpts) (codec : Option (Codec F))
      → (validate_codec opts codec ≡ ok tt) ↔ Callbacks opts.compression codec
  unfolding validate_codec
  validate_codec_iff opts codec = validate_iff opts.compression codec
