-- ===== src/Content.antt =====
-- The content provider, src/content/content.cpp: bytes generated from a seed.
-- Two things lie outside the repository and are parameters: `generate` of the active generator
-- (Random123), and `lround(pow(2.0, 8.0 * entropy / 255.0))` of the mathematical library.
pub mod Config
pub mod Blocks
pub mod Rounds
pub mod RandomAccess
pub mod Provider
use prfs.Prelude.{
  ℕ, zero, suc, ◌+◌, ◌-◌, ◌*◌, ◌/◌, ◌%◌, ◌^◌, min, max, bit_xor, List, [], ◌∷◌, ◌++◌, Bool, true,
  false, ◌&&◌, ◌||◌, Option, none, some, if◌then◌else◌, ltb, leb, ◌==◌, get_or, drop, length, codes,
}
use prfs.Bytes.{Bytes, u8, u32, u64, cmp, is_eq}

pub record ContentConfig : Type 0 where
  pub block_size : ℕ
  pub entropy : ℕ
  pub sparse_percent : ℕ
  pub dedup_percent : ℕ
  pub dedup_corpus : ℕ

abbrev pub default_config : ContentConfig
default_config = record {
  block_size = 4096;
  entropy = 255;
  sparse_percent = 0;
  dedup_percent = 0;
  dedup_corpus = 65536;
}

unfoldable pub mix64 : ℕ → ℕ
mix64 x0 =
    let x1 = bit_xor x0 (x0 / 2 ^ 30) in
    let x2 = x1 * 0xbf58476d1ce4e5b9 % u64 in
    let x3 = bit_xor x2 (x2 / 2 ^ 27) in
    let x4 = x3 * 0x94d049bb133111eb % u64 in bit_xor x4 (x4 / 2 ^ 31)

-- `h`: `golden` is the odd constant of the golden ratio.
unfoldable pub hash : ℕ → ℕ → ℕ → ℕ
unfolding mix64
hash a b tag =
    let golden : ℕ = 0x9E3779B97F4A7C15 in mix64 ((mix64 ((a * golden + b) % u64) + tag) % u64)

abbrev pub hole_tag : ℕ
hole_tag = 1

abbrev pub dup_tag : ℕ
dup_tag = 2

abbrev pub dup2_tag : ℕ
dup2_tag = 3

abbrev pub data_tag : ℕ
data_tag = 4

abbrev pub corpus_tag : ℕ
corpus_tag = 5

unfoldable pub map_byte : ℕ → ℕ → ℕ
map_byte v k = if leb k 1 then 0 else v % k * 255 / (k - 1) % u8

unfoldable pub is_hole : ContentConfig → ℕ → ℕ → Bool
is_hole c seed b = ltb 0 c.sparse_percent && ltb (hash seed b hole_tag % 100) c.sparse_percent

unfoldable pub block_src : ContentConfig → ℕ → ℕ → ℕ
block_src c seed b =
    if ltb 0 c.dedup_percent
      && ltb 0 c.dedup_corpus
      && ltb (hash seed b dup_tag % 100) c.dedup_percent
    then hash 0 (hash seed b dup2_tag % c.dedup_corpus) corpus_tag
    else hash seed b data_tag

-- A memory buffer: the byte at each index.
abbrev pub Buffer : Type 0
Buffer = ℕ → ℕ

abbrev pub write : ℕ → ℕ → Buffer → Buffer
write i x buf j = if j == i then x else buf j

-- `memset(buf, x, n)` and `memcpy(out + at, src + from, n)`
abbrev pub memset : ℕ → ℕ → Buffer → Buffer
memset x n buf j = if ltb j n then x else buf j

abbrev pub memcpy : ℕ → Buffer → ℕ → ℕ → Buffer → Buffer
memcpy at' src from n out j = if leb at' j && ltb j (at' + n) then src (j - at' + from) else out j

-- The parameters of the module, as one value.
pub record Env : Type 0 where
  pub generate : List ℕ → List ℕ → List ℕ
  pub lround_pow : ℕ → ℕ

unfoldable pub alphabet : Env → ℕ → ℕ
alphabet env entropy = min (max (env.lround_pow entropy) 1) 256

-- `uint8_t(out[i / 4] >> (8 * (i % 4)))`
unfoldable pub raw_byte : List ℕ → ℕ → ℕ
raw_byte out i = get_or out (i / 4) 0 / 2 ^ (8 * (i % 4)) % u8

-- The inner loop of `genBlock`, with `left` of its sixteen rounds to go.
unfoldable pub fill : ℕ → ℕ → List ℕ → ℕ → ℕ → ℕ → Buffer → Buffer
fill bs k out off zero i buf = buf
fill bs k out off (suc left) i buf =
    let rest =
      fill bs k out off left (i + 1) (write ((off + i) % u32) (map_byte (raw_byte out i) k) buf) in
    if ltb ((off + i) % u32) bs then rest else buf

-- The outer loop, on fuel: `none` means that it ran out. `off` and `g` are `uint32_t`.
unfoldable pub gen_loop : ℕ → ℕ → (ℕ → List ℕ) → ℕ → ℕ → ℕ → Buffer → Option Buffer
gen_loop bs k words zero off g buf = none
gen_loop bs k words (suc fuel) off g buf =
    let rest =
      gen_loop bs k words fuel ((off + 16) % u32) ((g + 1) % u32)
        (fill bs k (words g) off 16 0 buf) in
    if ltb off bs then rest else some buf

-- The sixteen bytes of group `g` of a block, as four words.
unfoldable pub group_words : Env → ContentConfig → ℕ → ℕ → ℕ → List ℕ
group_words env c seed b g =
    let src = block_src c seed b in
    env.generate (b % u32 ∷ b / u32 % u32 ∷ g ∷ 0 ∷ []) (src % u32 ∷ src / u32 % u32 ∷ [])

abbrev pub or_buffer : Option Buffer → Buffer → Buffer
or_buffer none buf = buf
or_buffer (some b) buf = b

unfoldable pub gen_block : Env → ContentConfig → ℕ → ℕ → ℕ → Buffer → Option Buffer
gen_block env c seed b k buf =
    if is_hole c seed b
    then some (memset 0 c.block_size buf)
    else gen_loop c.block_size k (group_words env c seed b) (c.block_size / 16 + 2) 0 0 buf

-- `c.blockSize ? c.blockSize : 1`
abbrev pub step_size : ContentConfig → ℕ
step_size c = if c.block_size == 0 then 1 else c.block_size

-- What one round of `read` copies of its block. The sums and the length `e - s` are of `uint64_t`.
unfoldable pub copy_round : ContentConfig → ℕ → ℕ → ℕ → Buffer → Buffer → Buffer
copy_round c offset end b filled out =
    let bs = step_size c in
    let bstart = b * bs % u64 in
    let s = max offset bstart in
    let e = min end ((bstart + bs) % u64) in
    memcpy (s - offset) filled (s - bstart) ((e + u64 - s) % u64) out

-- The loop of `read` from block `b`, with `left` rounds to go; `none` where a block's loop ran out
-- of fuel.
unfoldable pub read_loop :
    Env → ContentConfig → ℕ → ℕ → ℕ → ℕ → ℕ → ℕ → Buffer → Buffer → Option Buffer
read_loop env c seed k offset end zero b block out = some out
read_loop env c seed k offset end (suc left) b block out = elim (gen_block env c seed b k block) [
  | none ↦ none
  | some filled ↦
      read_loop env c seed k offset end left (b + 1) filled (copy_round c offset end b filled out)
]

-- `read` past its guard, up to `end`. `vector<char> block(bs)` is zero at first, and the count
-- returned is `end - offset`, as it wraps.
unfoldable pub read_to : Env → ContentConfig → ℕ → ℕ → ℕ → Buffer → Option (ℕ × Buffer)
read_to env c seed offset end out =
    let b = offset / step_size c in
    let last = (end + u64 - 1) % u64 / step_size c in
    elim (read_loop env c seed (alphabet env c.entropy) offset end (last + 1 - b) b (λ _. 0) out) [
      | none ↦ none
      | some filled ↦ some ((end + u64 - offset) % u64, filled)
    ]

unfoldable pub read : Env → ContentConfig → ℕ → ℕ → ℕ → ℕ → Buffer → Option (ℕ × Buffer)
read env c seed size offset len out =
    let end = min ((offset + len) % u64) size in
    if leb size offset || len == 0 then some (0, out) else read_to env c seed offset end out

unfoldable pub allocated_loop : ContentConfig → ℕ → ℕ → ℕ → ℕ → ℕ → ℕ
allocated_loop c seed size zero b bytes = bytes
allocated_loop c seed size (suc left) b bytes =
    allocated_loop c seed size left (b + 1) (
      if is_hole c seed b
      then bytes
      else (bytes + min (step_size c) (size - b * step_size c)) % u64)

unfoldable pub allocated_blocks : ContentConfig → ℕ → ℕ → ℕ
unfolding allocated_loop
allocated_blocks c seed size =
    if size == 0
    then 0
    else (allocated_loop c seed size ((size + step_size c + u64 - 1) % u64 / step_size c) 0 0 + 511)
      % u64
      / 512
