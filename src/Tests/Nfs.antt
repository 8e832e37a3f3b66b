-- ===== src/Tests/Nfs.antt =====
-- The theorems about the NFSv3 front-end at concrete inputs.
use prfs.Prelude.{
  ℕ, ◌+◌, ◌-◌, ◌<◌, ◌≤◌, ◌≡◌, ◌↔◌, refl, List, [], ◌∷◌, ◌++◌, true, false, some, codes, length,
  arith,
}
use prfs.Bytes.{u32, cmp, be, rdbe}
use prfs.Kv.{find, seek, put}
use prfs.Core.Record.{ok, reg, deserialize, serialize}
use prfs.Core.Tables.{
  empty_db, load_node, store_node, put_meta, get_meta, is_node_key, is_version_of,
}
use prfs.Core.Store.{Store, open_store, alloc, is_snap_dir}
use prfs.Core.Attrs.{content_seed, set_content_seed}
use prfs.Core.Ops.{Op, creates, run, StoreOk}
use prfs.Core.Sealing.{reached-StoreOk}
use prfs.Names.{live}
use prfs.Nfsv3.{Reader, read_str, read_fh, take_str, put_str, put_fh, outside, taken}
use prfs.Nfsv3.Attrs.{mix_seed}
use prfs.Nfsv3.RoundTrip.{read_str-put_str, read_fh-put_fh, take_str-outside}
use prfs.Nfsv3.Seeds.{content_seed-mix_seed}

read_str-put_str_example :
    read_str
      (record { p = put_str (codes "name") [] ++ 1 ∷ []; pos = length {A = ℕ} []; ok = true })
    ≡ taken (codes "name") (record {
      p = put_str (codes "name") [] ++ 1 ∷ [];
      pos = length (put_str (codes "name") []);
      ok = true;
    })
read_str-put_str_example = read_str-put_str (codes "name") [] (1 ∷ []) (omega arith) refl

read_fh-put_fh_example :
    read_fh (record { p = put_fh 2 1 [] ++ []; pos = length {A = ℕ} []; ok = true })
    ≡ (some (2, 1), record { p = put_fh 2 1 [] ++ []; pos = length {A = ℕ} [] + 20; ok = true })
read_fh-put_fh_example = read_fh-put_fh 2 1 [] [] (omega arith) (omega arith)

-- A message that ends behind the announced length.
abbrev short_message : Reader
short_message = record { p = 255 ∷ 255 ∷ 255 ∷ 255 ∷ []; pos = 4; ok = true }

take_str-outside_example :
    (take_str 4294967295 short_message ≡ outside)
    ↔ ((u32 - 3 ≤ 4294967295) × (length short_message.p < short_message.pos + 4294967295))
take_str-outside_example =
    take_str-outside 4294967295 short_message (omega arith) refl (omega arith)

abbrev file_calls : List Op
file_calls = creates reg [] 0 ∷ []

abbrev file_store : Store
file_store = run file_calls (open_store empty_db)

file_store-StoreOk : StoreOk file_store
file_store-StoreOk = reached-StoreOk file_calls (omega arith) (omega arith)

file_real : is_snap_dir 2 ≡ false
unfolding is_snap_dir
file_real = refl

seed_set :
    (set_content_seed
      (live 2)
      (mix_seed (content_seed (live 2) file_store) 0 (codes "x"))
      file_store).0
    ≡ ok
unfolding set_content_seed run load_node seek alloc store_node put put_meta open_store get_meta find
    cmp be is_node_key rdbe is_version_of deserialize serialize
seed_set = refl

content_seed-mix_seed_example :
    content_seed
      (live 2)
      (set_content_seed
        (live 2)
        (mix_seed (content_seed (live 2) file_store) 0 (codes "x"))
        file_store).1
    ≡ mix_seed (content_seed (live 2) file_store) 0 (codes "x")
content_seed-mix_seed_example =
    content_seed-mix_seed file_store 2 0 120 [] file_store-StoreOk (omega arith) file_real seed_set

-- A message that begins with a handle of the root in the first snapshot.
abbrev sealed_message : Reader
sealed_message = record {
  p = put_fh 1 1 [] ++ put_str (codes "a") [];
  pos = length {A = ℕ} [];
  ok = true;
}

abbrev behind_handle : Reader
behind_handle = record sealed_message { pos = length {A = ℕ} [] + 20 }
