-- ===== src/Content/Config.antt =====
-- The serialized policy: `serialize` and `deserialize` of src/content/content.cpp.
use prfs.Prelude.{
  ◌⊎◌, ◌≢◌, Ordering, ℕ, ◌+◌, ◌*◌, ◌/◌, ◌%◌, ◌<◌, ◌≡◌, [], ◌∷◌, ◌++◌, ◌||◌, not, Option, none, some,
  if◌then◌else◌, ltb, get_or, take, length, codes, arith,
}
use prfs.Bytes.{Bytes, u8, u32, cmp, is_eq}
use prfs.Content.{ContentConfig, default_config}

-- `s.push_back(char(v >> (8 * i)))` for i = 0 .. 3
abbrev pub put_u32 : ℕ → Bytes → Bytes
put_u32 v s = (v % 256) ∷ (v / 256 % 256) ∷ (v / 65536 % 256) ∷ (v / 16777216 % 256) ∷ s

unfoldable pub serialize : ContentConfig → Bytes
serialize c =
    codes "PCC1"
    ++ put_u32 c.block_size (
        (c.entropy % u8)
        ∷ (c.sparse_percent % u8)
        ∷ (c.dedup_percent % u8)
        ∷ 0
        ∷ put_u32 c.dedup_corpus [])

abbrev pub byte_at : Bytes → ℕ → ℕ
byte_at v i = get_or v i 0 % u8

-- `x |= uint32_t(uint8_t(v[off + i])) << (8 * i)`: the bits are apart.
abbrev pub get_u32 : Bytes → ℕ → ℕ
get_u32 v off =
    byte_at v off
    + byte_at v (off + 1) * 256
    + byte_at v (off + 2) * 65536
    + byte_at v (off + 3) * 16777216

-- `none` is the exception: "bad config blob".
unfoldable pub deserialize : Bytes → Option ContentConfig
deserialize [] = some default_config
deserialize (x ∷ s) =
    let v = x ∷ s in
    if ltb (length v) 16 || not (is_eq (cmp (take 4 v) (codes "PCC1")))
    then none
    else some (record {
      block_size = get_u32 v 4;
      entropy = byte_at v 8;
      sparse_percent = byte_at v 9;
      dedup_percent = byte_at v 10;
      dedup_corpus = get_u32 v 12;
    })

-- The ranges of the fields' types.
pub record Fits (c : ContentConfig) : Type 0 where
  pub block_size_fits : c.block_size < u32
  pub entropy_fits : c.entropy < u8
  pub sparse_fits : c.sparse_percent < u8
  pub dedup_fits : c.dedup_percent < u8
  pub corpus_fits : c.dedup_corpus < u32

-- A policy whose fields are in the ranges of their types is read back whole from its bytes.
pub deserialize-serialize_config : (c : ContentConfig) → Fits c → deserialize (serialize c) ≡ some c
unfolding serialize deserialize cmp
deserialize-serialize_config c f = ground arith

-- Other blobs than the empty one and those of sixteen bytes with the magic are refused.
pub deserialize_refuses :
    (x : ℕ) (s : Bytes)
    → (length s < 15) ⊎ (cmp (take 4 (x ∷ s)) (codes "PCC1") ≢ Ordering.eq)
    → deserialize (x ∷ s) ≡ none
unfolding deserialize
deserialize_refuses x s bad = ground arith
