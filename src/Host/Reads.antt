-- ===== src/Host/Reads.antt =====
-- `Host::read` over the default content provider.
use prfs.Prelude.{
  ℕ, ◌+◌, ◌-◌, ◌<◌, ◌≤◌, ◌≡◌, ◌∙◌, sym, ap, min, leb, ◌==◌, ◌||◌, Bool, true, false, if◌then◌else◌,
  some, arith,
}
use prfs.Bytes.{Bytes, u32, u64}
use prfs.Core.Store.{Handle, content_config}
use prfs.Core.Attrs.{attrs, content_seed}
use prfs.Content.{ContentConfig, Env, Buffer, memset}
use prfs.Content.Config.{Fits, serialize}
use prfs.Content.RandomAccess.{with_file_bytes, with_no_bytes}
use prfs.Content.Provider.{provider_read, provider_read_lem}
use prfs.Di.{try_resolve}
use prfs.Di.Selection.{provider, content_id}
use prfs.Host.{Host, read_file, ProviderRead}

-- The default provider, whatever its address.
abbrev pub default_reads : Env → ProviderRead
default_reads env cp = provider_read env

choose {ℓ} :
    {A : Type ℓ} (a b : Bool) (x y z w : A)
    → b ≡ false
    → (a ≡ true → x ≡ w)
    → z ≡ w
    → (if a then x else if b then y else z) ≡ w
choose a b x y z w hb hx hz = ground arith

-- Where a provider is registered and behaves as the default one, a file of a store whose policy
-- is set, with fields in range and a block size above 0 and at most 2 ^ 32 - 16, whose size plus one
-- block is below 2 ^ 64, reads in a range that ends below 2 ^ 64 as the bytes generated at their
-- positions: the count is the part of the range inside the file's size, and the rest of the buffer
-- is not touched.
pub read_file_lem :
    (env : Env) (c : ContentConfig) (chosen : Bytes) (file : Handle) (off len : ℕ) (out : Buffer)
    (h : Host)
    → (try_resolve content_id (provider chosen) h.registry == 0) ≡ false
    → content_config h.fs ≡ serialize c
    → Fits c
    → 0 < c.block_size
    → c.block_size + 16 ≤ u32
    → off + len < u64
    → (attrs file h.fs).size + c.block_size < u64
    → read_file (default_reads env) chosen file off len out h
      ≡ some (
        min len ((attrs file h.fs).size - off),
        with_file_bytes env c
            (content_seed file h.fs)
            off
            (min len ((attrs file h.fs).size - off))
            out,
      )
unfolding read_file
read_file_lem env c chosen file off len out h found policy fits pos small range room =
    let size = (attrs file h.fs).size in
    let seed = content_seed file h.fs in
    let n = min len (size - off) in
    choose (leb size off || len == 0) (try_resolve content_id (provider chosen) h.registry == 0)
      (some (0, out)) (some (n, memset 0 n out))
      (provider_read env (content_config h.fs) seed size off len out)
      (some (n, with_file_bytes env c seed off n out)) found
      (λ past.
        let none_left : n ≡ 0 = ground arith in
        ap (λ (k : ℕ). some (k, out)) (sym none_left)
        ∙ ap (λ (b : Buffer). some (n, b)) (with_no_bytes env c seed off n out none_left))
      (ap (λ (cfg : Bytes). provider_read env cfg seed size off len out) policy
        ∙ provider_read_lem env c seed size off len out fits pos small range room)
