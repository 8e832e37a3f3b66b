-- ===== src/FsStat.antt =====
-- FSSTAT and FSINFO, src/nfs/fsstat.cpp and include/prfs/fsstat.hpp: projections of the store's
-- statistics and of a policy.
use prfs.Prelude.{
  ℕ, ◌+◌, ◌-◌, ◌*◌, ◌/◌, ◌%◌, ◌^◌, ◌<◌, ◌≤◌, ◌≡◌, List, [], ◌∷◌, if◌then◌else◌, ltb, ◌==◌, arith,
  ap, ◌∙◌, div_bounds,
}
use native.Mathlib.Nat.{mul-mod_left}
use prfs.Bytes.{u64}
use prfs.Core.Store.{Store}
use prfs.Core.History.{Stats, stats}

pub record FsConfig : Type 0 where
  pub block_size : ℕ
  pub capacity_bytes : ℕ
  pub capacity_files : ℕ
  pub rtmax : ℕ
  pub rtpref : ℕ
  pub rtmult : ℕ
  pub wtmax : ℕ
  pub wtpref : ℕ
  pub wtmult : ℕ
  pub dtpref : ℕ
  pub maxfilesize : ℕ
  pub time_delta_sec : ℕ
  pub time_delta_nsec : ℕ
  pub properties : ℕ

-- The defaults; `properties` is LINK, SYMLINK, HOMOGENEOUS and CANSETTIME.
abbrev pub default_config : FsConfig
default_config = record {
  block_size = 4096;
  capacity_bytes = 2 ^ 40;
  capacity_files = 2 ^ 32;
  rtmax = 2 ^ 20;
  rtpref = 2 ^ 20;
  rtmult = 4096;
  wtmax = 2 ^ 20;
  wtpref = 2 ^ 20;
  wtmult = 4096;
  dtpref = 2 ^ 16;
  maxfilesize = 2 ^ 63 - 1;
  time_delta_sec = 0;
  time_delta_nsec = 1;
  properties = 0x1b;
}

pub record FsStat : Type 0 where
  pub tbytes : ℕ
  pub fbytes : ℕ
  pub abytes : ℕ
  pub tfiles : ℕ
  pub ffiles : ℕ
  pub afiles : ℕ
  pub invarsec : ℕ

pub record FsInfo : Type 0 where
  pub rtmax : ℕ
  pub rtpref : ℕ
  pub rtmult : ℕ
  pub wtmax : ℕ
  pub wtpref : ℕ
  pub wtmult : ℕ
  pub dtpref : ℕ
  pub maxfilesize : ℕ
  pub time_delta_sec : ℕ
  pub time_delta_nsec : ℕ
  pub properties : ℕ

free_of : ℕ → ℕ → ℕ
free_of used capacity = if ltb used capacity then capacity - used else 0

-- `for (uint64_t n : s.nodes) usedFiles += n;`
unfoldable pub sum_files : List ℕ → ℕ → ℕ
sum_files [] used = used
sum_files (n ∷ ns) used = sum_files ns ((used + n) % u64)

-- The used bytes, rounded up to a whole block, as `uint64_t` arithmetic does it.
unfoldable pub used_bytes : Stats → FsConfig → ℕ
used_bytes s cfg =
    let block = if cfg.block_size == 0 then 1 else cfg.block_size in
    (s.total_size + block + u64 - 1) % u64 / block * block % u64

pub fs_stat : Stats → FsConfig → FsStat
unfolding free_of
fs_stat s cfg =
    let used_files = sum_files s.nodes 0 in
    let used = used_bytes s cfg in
    let tbytes = if ltb used cfg.capacity_bytes then cfg.capacity_bytes else used in
    let tfiles = if ltb used_files cfg.capacity_files then cfg.capacity_files else used_files in
    record {
      tbytes = tbytes;
      fbytes = free_of used tbytes;
      abytes = free_of used tbytes;
      tfiles = tfiles;
      ffiles = free_of used_files tfiles;
      afiles = free_of used_files tfiles;
      invarsec = 0;
    }

unfoldable pub fs_info : FsConfig → FsInfo
fs_info cfg = record {
  rtmax = cfg.rtmax;
  rtpref = cfg.rtpref;
  rtmult = cfg.rtmult;
  wtmax = cfg.wtmax;
  wtpref = cfg.wtpref;
  wtmult = cfg.wtmult;
  dtpref = cfg.dtpref;
  maxfilesize = cfg.maxfilesize;
  time_delta_sec = cfg.time_delta_sec;
  time_delta_nsec = cfg.time_delta_nsec;
  properties = cfg.properties;
}

unfoldable pub fs_stat_at : Store → FsConfig → ℕ → FsStat
unfolding fs_stat
fs_stat_at s cfg g = fs_stat (stats g s) cfg

used_bytes-eq :
    (s : Stats) (cfg : FsConfig)
    → 0 < cfg.block_size
    → s.total_size + cfg.block_size < u64
    → used_bytes s cfg ≡ (s.total_size + cfg.block_size - 1) / cfg.block_size * cfg.block_size
unfolding used_bytes
used_bytes-eq s cfg pos room =
    let d = cfg.block_size in
    let block : (if d == 0 then 1 else d) ≡ d = ground arith in
    let n = s.total_size + d - 1 in
    let wrap : (s.total_size + d + u64 - 1) % u64 ≡ n = omega arith in
    let fits : n / d * d % u64 ≡ n / d * d = omega (arith, div_bounds n d pos) in
    ap (λ (b : ℕ). (s.total_size + b + u64 - 1) % u64 / b * b % u64) block
    ∙ ap (λ (x : ℕ). x / d * d % u64) wrap
    ∙ fits

-- With a block size above 0 and a total size at least a block below 2 ^ 64, the used bytes reported
-- are whole blocks, and cover the bytes used by less than a block.
pub used_bytes_lem :
    (s : Stats) (cfg : FsConfig)
    → 0 < cfg.block_size
    → s.total_size + cfg.block_size < u64
    → (s.total_size ≤ used_bytes s cfg)
      × (used_bytes s cfg < s.total_size + cfg.block_size)
      × (used_bytes s cfg % cfg.block_size ≡ 0)
used_bytes_lem s cfg pos room =
    let b = div_bounds (s.total_size + cfg.block_size - 1) cfg.block_size pos in
    let e = used_bytes-eq s cfg pos room in
    (
      omega arith,
      omega arith,
      ap (λ (n : ℕ). n % cfg.block_size) e
          ∙ mul-mod_left ((s.total_size + cfg.block_size - 1) / cfg.block_size) cfg.block_size,
    )

-- Used and free make up the total, in bytes and in files, the advertised capacity is a lower bound
-- of the total, and what is available is what is free.
pub fs_stat_lem :
    (s : Stats) (cfg : FsConfig)
    → let r = fs_stat s cfg in
      (used_bytes s cfg + r.fbytes ≡ r.tbytes)
      × (sum_files s.nodes 0 + r.ffiles ≡ r.tfiles)
      × (cfg.capacity_bytes ≤ r.tbytes)
      × (cfg.capacity_files ≤ r.tfiles)
      × (r.abytes ≡ r.fbytes)
      × (r.afiles ≡ r.ffiles)
unfolding fs_stat
fs_stat_lem s cfg = ground arith
