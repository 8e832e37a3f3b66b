-- ===== src/Tests/Parts.antt =====
-- The theorems of the content provider, the statistics, the engine and the registry at concrete
-- inputs.
use prfs.Prelude.{
  ◌==◌, ◌⊎◌, ◌+◌, ◌-◌, ◌%◌, ◌<◌, ◌≤◌, ◌≡◌, refl, [], ◌∷◌, arith, some, none, codes, min, false,
}
use prfs.Bytes.{u64, be, cmp}
use prfs.Kv.{Map, find, put, del}
use prfs.Kv.Laws.{Sorted}
use prfs.Kv.Prefix.{scan, with_prefix, scan_lem}
use prfs.Core.Record.{NodeRec, empty_rec, dir, serialize, deserialize, Fits, deserialize-serialize}
use prfs.Core.Tables.{Db, empty_db, load_node, store_node, version_at, get_meta}
use prfs.Core.Store.{Store, Handle, open_store, latest, is_snap_dir}
use prfs.Core.Attrs.{attrs}
use prfs.Core.History.{Stats}
use prfs.Content.{ContentConfig, Env, Buffer, read}
use prfs.Content.{default_config as default_content}
use prfs.Content.Config.{deserialize-serialize_config}
use prfs.Content.Config
use prfs.Content.RandomAccess.{with_file_bytes, read_lem}
use prfs.FsStat.{default_config, fs_stat, used_bytes, sum_files, fs_stat_lem, used_bytes_lem}
use prfs.Bytes.{is_eq}
use prfs.Core.Store.{content_config}
use prfs.Core.Attrs.{content_seed}
use prfs.Content.Config.{serialize as config_bytes}
use prfs.Di.{Registry, empty_registry, provide, try_resolve, resolve, find_impl, insert, cmp_key}
use prfs.Di.Selection.{select, selected, selected-select, provider, content_id, rng_id}
use prfs.Host.{Host, read_file}
use prfs.Host.Reads.{default_reads, read_file_lem}
use prfs.Core.Store.{set_content_config}
use prfs.Core.Attrs.{set_size, mutate_node, read_node}
use prfs.Core.Tables.{get_meta, put_meta, store_node, load_node}
use prfs.Bytes.{Bytes, cmp}
use prfs.Kv.{find, put}
use prfs.Core.Store.{is_snap_dir}
use prfs.Core.Record.{serialize, deserialize}

abbrev content_policy : ContentConfig
content_policy = record default_content { block_size = 512; sparse_percent = 25 }

content_policy-Fits : Config.Fits content_policy
content_policy-Fits = omega arith

deserialize-serialize_config_example :
    Config.deserialize (Config.serialize content_policy) ≡ some content_policy
deserialize-serialize_config_example =
    deserialize-serialize_config content_policy content_policy-Fits

abbrev counting : Env
counting = record { generate = λ ctr key. 1 ∷ 2 ∷ 3 ∷ 4 ∷ []; lround_pow = λ entropy. entropy + 1 }

abbrev blank : Buffer
blank = λ i. 0

read_lem_example :
    read counting content_policy 9 2000 500 600 blank
    ≡ some (
      min 600 (2000 - 500),
      with_file_bytes counting content_policy 9 500 (min 600 (2000 - 500)) blank,
    )
read_lem_example =
    read_lem counting content_policy 9 2000 500 600 blank (omega arith) (omega arith) (omega arith)
      (omega arith)

abbrev usage : Stats
usage = record { nodes = 3 ∷ 1 ∷ 0 ∷ 0 ∷ 0 ∷ 0 ∷ 0 ∷ []; links = 3; total_size = 10000 }

fs_stat_lem_example :
    let r = fs_stat usage default_config in
    (used_bytes usage default_config + r.fbytes ≡ r.tbytes)
    × (sum_files usage.nodes 0 + r.ffiles ≡ r.tfiles)
    × (default_config.capacity_bytes ≤ r.tbytes)
    × (default_config.capacity_files ≤ r.tfiles)
    × (r.abytes ≡ r.fbytes)
    × (r.afiles ≡ r.ffiles)
fs_stat_lem_example = fs_stat_lem usage default_config

used_bytes_lem_example :
    (usage.total_size ≤ used_bytes usage default_config)
    × (used_bytes usage default_config < usage.total_size + default_config.block_size)
    × (used_bytes usage default_config % default_config.block_size ≡ 0)
used_bytes_lem_example = used_bytes_lem usage default_config (omega arith) (omega arith)

abbrev small_map : Map
small_map = (codes "ab", codes "1") ∷ (codes "b", codes "2") ∷ []

small_map-Sorted : Sorted small_map
unfolding cmp
small_map-Sorted = (refl, (tt, tt))

scan_lem_example : scan (codes "a") small_map ≡ with_prefix (codes "a") small_map
scan_lem_example = scan_lem (codes "a") small_map small_map-Sorted

abbrev registry : Registry
registry = provide content_id 7 (codes "config") (provide rng_id 9 (codes "philox") empty_registry)

selected-select_example :
    (select rng_id (codes "philox") registry ≡ none)
      × (resolve rng_id (codes "philox") registry ≡ none)
    ⊎ (s : Bytes) × (select rng_id (codes "philox") registry ≡ some s)
      × (resolve rng_id (selected (codes "threefry") s) registry
          ≡ some (try_resolve rng_id (codes "philox") registry))
selected-select_example = selected-select rng_id (codes "threefry") (codes "hilox") b'p' registry

abbrev host : Host
host = record {
  fs =
      set_size (record { id = 1; snap = latest }) 2000
        (set_content_config (config_bytes content_policy) (open_store empty_db));
  registry = registry;
  options = [];
}

abbrev root_view : Handle
root_view = record { id = 1; snap = latest }

registered : (try_resolve content_id (provider []) registry == 0) ≡ false
unfolding try_resolve provide find_impl insert cmp_key cmp selected
registered = refl

policy_set : content_config host.fs ≡ config_bytes content_policy
unfolding content_config set_content_config set_size mutate_node load_node find put cmp config_bytes
    open_store get_meta put_meta store_node prfs.Kv.seek be prfs.Core.Tables.is_node_key
    prfs.Bytes.rdbe prfs.Core.Tables.is_version_of
policy_set = refl

root_size : (attrs root_view host.fs).size + content_policy.block_size < u64
unfolding set_content_config set_size mutate_node load_node find put cmp open_store get_meta
    put_meta store_node prfs.Kv.seek be prfs.Core.Tables.is_node_key prfs.Bytes.rdbe
    prfs.Core.Tables.is_version_of attrs read_node is_snap_dir prfs.Core.Store.rr deserialize
    serialize prfs.Core.Record.rdle prfs.Core.Record.le
root_size = omega arith

read_file_lem_example :
    read_file (default_reads counting) [] root_view 3 10 blank host
    ≡ some (
      min 10 ((attrs root_view host.fs).size - 3),
      with_file_bytes counting content_policy
          (content_seed root_view host.fs)
          3
          (min 10 ((attrs root_view host.fs).size - 3))
          blank,
    )
read_file_lem_example =
    read_file_lem counting content_policy [] root_view 3 10 blank host registered policy_set
      content_policy-Fits (omega arith) (omega arith) (omega arith) root_size
