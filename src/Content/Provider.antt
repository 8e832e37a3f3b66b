-- ===== src/Content/Provider.antt =====
-- `DefaultProvider` of src/content/content.cpp: the generator behind an opaque policy.
use prfs.Prelude.{ℕ, ◌+◌, ◌-◌, ◌<◌, ◌≤◌, ◌≡◌, ◌∙◌, ap, min, Option, none, some}
use prfs.Bytes.{Bytes, u32, u64}
use prfs.Content.{ContentConfig, Env, Buffer, read, allocated_blocks}
use prfs.Content.Config.{Fits, serialize, deserialize, deserialize-serialize_config}
use prfs.Content.RandomAccess.{with_file_bytes, read_lem}

abbrev pub read_by : Env → ℕ → ℕ → ℕ → ℕ → Buffer → Option ContentConfig → Option (ℕ × Buffer)
read_by env seed size off len out none = none
read_by env seed size off len out (some c) = read env c seed size off len out

-- `none` is the exception of `deserialize`.
unfoldable pub provider_read : Env → Bytes → ℕ → ℕ → ℕ → ℕ → Buffer → Option (ℕ × Buffer)
provider_read env cfg seed size off len out = read_by env seed size off len out (deserialize cfg)

abbrev pub allocated_by : ℕ → ℕ → Option ContentConfig → Option ℕ
allocated_by seed size none = none
allocated_by seed size (some c) = some (allocated_blocks c seed size)

unfoldable pub provider_allocated : Bytes → ℕ → ℕ → Option ℕ
provider_allocated cfg seed size = allocated_by seed size (deserialize cfg)

pub provider_read_lem :
    (env : Env) (c : ContentConfig) (seed size off len : ℕ) (out : Buffer)
    → Fits c
    → 0 < c.block_size
    → c.block_size + 16 ≤ u32
    → off + len < u64
    → size + c.block_size < u64
    → provider_read env (serialize c) seed size off len out
      ≡ some (min len (size - off), with_file_bytes env c seed off (min len (size - off)) out)
unfolding provider_read
provider_read_lem env c seed size off len out fits pos small range room =
    ap (read_by env seed size off len out) (deserialize-serialize_config c fits)
    ∙ read_lem env c seed size off len out pos small range room
