-- ===== src/Core/Tables.antt =====
-- The tables of the store and the private helpers of `PrfsStore` that read and write them.
use prfs.Prelude.{
  ℕ, ◌+◌, ◌%◌, List, [], ◌∷◌, ◌++◌, drop, ◌==◌, ltb, leb, Bool, false, ◌&&◌, ◌||◌, Option, none,
  some, if◌then◌else◌, length, map, Ordering,
}
use prfs.Bytes.{Bytes, u64, be, rdbe, cmp, is_eq}
use prfs.Kv.{Map, Entry, find, put, seek, entry}
use prfs.Kv.Seek.{settle}
use prfs.Kv.Prefix.{scan}
use prfs.Core.Record.{NodeRec, empty_rec, le, rdle, serialize, deserialize, dir, type_code}

-- The sub-stores of `enum class Kv`.
pub record Db : Type 0 where
  pub nodes : Map
  pub down_links : Map
  pub up_links : Map
  pub changes : Map
  pub meta : Map
  pub snaps : Map

abbrev pub empty_db : Db
empty_db = record {
  nodes = [];
  down_links = [];
  up_links = [];
  changes = [];
  meta = [];
  snaps = [];
}

-- `none` where the key is missing and the variable keeps its value.
unfoldable pub get_meta : Bytes → Db → Option ℕ
get_meta key db = elim (find key db.meta) [ none ↦ none | some v ↦ some (rdle 8 v) ]

unfoldable pub put_meta : Bytes → ℕ → Db → Db
put_meta key x db = record db { meta = put key (le 8 x) db.meta }

-- `k.size() == 16 && rdbe(k.data()) == id && rdbe(k.data() + 8) == rg`
unfoldable pub is_node_key : ℕ → ℕ → Bytes → Bool
is_node_key id rg k = length k == 16 && rdbe k == id && rdbe (drop 8 k) == rg

-- `k.size() == 16 && rdbe(k.data()) == id && rdbe(k.data() + 8) <= rg`
unfoldable pub is_version_of : ℕ → ℕ → Bytes → Bool
is_version_of id rg k = length k == 16 && rdbe k == id && leb (rdbe (drop 8 k)) rg

unfoldable pub version_at : ℕ → ℕ → Option Entry → Option NodeRec
version_at id rg none = none
version_at id rg (some e) = if is_version_of id rg e.0 then some (deserialize e.1) else none

-- The cursor goes to the key, or to the entry before its place, or to the last one.
unfoldable pub load_node : Db → ℕ → ℕ → Option NodeRec
unfolding version_at
load_node db id rg =
    let cursor = settle (is_node_key id rg) db.nodes (seek (be id ++ be rg) db.nodes) in
    version_at id rg (entry cursor)

-- The record that a declared `NodeRec r; loadNode(..., r);` holds.
abbrev pub or_empty : Option NodeRec → NodeRec
or_empty none = empty_rec
or_empty (some r) = r

unfoldable pub store_node : ℕ → ℕ → NodeRec → Db → Db
store_node id snap r db = record db {
  nodes = put (be id ++ be snap) (serialize r) db.nodes;
  changes = put (be snap ++ be id) [] db.changes;
}

abbrev pub Link : Type 0
Link = Bytes × ℕ

-- `fn(name, child)` of each entry, as a list in the order of the calls
abbrev pub to_link : Entry → Link
to_link (k, v) = (drop 16 k, rdbe v)

unfoldable pub scan_down_links : Db → ℕ → ℕ → List Link
scan_down_links db dir_id dv = map to_link (scan (be dir_id ++ be dv) db.down_links)

abbrev pub is_dir : NodeRec → Bool
is_dir r = r.type == type_code dir

-- `std::map<std::string, uint64_t>` as a list in key order: `out[n] = c`, `out.count(n)`
unfoldable pub put_link : Link → List Link → List Link
put_link l [] = l ∷ []
put_link l (e ∷ ls) = elim (cmp e.0 l.0) [
  | Ordering.lt ↦ e ∷ put_link l ls
  | Ordering.eq ↦ l ∷ ls
  | Ordering.gt ↦ l ∷ e ∷ ls
]

unfoldable pub has_name : Bytes → List Link → Bool
has_name n [] = false
has_name n (e ∷ ls) = is_eq (cmp e.0 n) || has_name n ls

unfoldable pub put_all : List Link → List Link → List Link
unfolding put_link
put_all [] out = out
put_all (l ∷ ls) out = put_all ls (put_link l out)

unfoldable pub link_set : Db → ℕ → ℕ → List Link
unfolding put_all
link_set db dir_id rg = elim (load_node db dir_id rg) [
  | none ↦ []
  | some dr ↦ if is_dir dr then put_all (scan_down_links db dir_id dr.dn_link_ver) [] else []
]

-- The loop of `eachEffNode`: `finish` adds the record chosen for an id, if there is one.
unfoldable pub finish : Bool → ℕ → NodeRec → List (ℕ × NodeRec) → List (ℕ × NodeRec)
finish have cur_id chosen out = if have then (cur_id, chosen) ∷ out else out

unfoldable pub each_loop : ℕ → ℕ → Bool → NodeRec → Map → List (ℕ × NodeRec)
unfolding finish
each_loop rg cur_id have chosen [] = finish have cur_id chosen []
each_loop rg cur_id have chosen ((k, v) ∷ m) =
    let id = rdbe k in
    let same = id == cur_id in
    let newer = leb (rdbe (drop 8 k)) rg in
    let rest =
      each_loop rg id (newer || (same && have)) (if newer then deserialize v else chosen) m in
    if same then rest else finish have cur_id chosen rest

unfoldable pub each_eff_node : Db → ℕ → List (ℕ × NodeRec)
unfolding each_loop
each_eff_node db rg = each_loop rg 0 false empty_rec db.nodes

-- `std::set<uint64_t>` as a rising list
unfoldable pub put_id : ℕ → List ℕ → List ℕ
put_id x [] = x ∷ []
put_id x (y ∷ ys) = if ltb y x then y ∷ put_id x ys else if x == y then y ∷ ys else x ∷ y ∷ ys

unfoldable pub candidates_loop : ℕ → Map → List ℕ → List ℕ
unfolding put_id
candidates_loop rb [] out = out
candidates_loop rb ((k, v) ∷ m) out =
    let rest = candidates_loop rb m (put_id (rdbe (drop 8 k)) out) in
    if ltb rb (rdbe k) then out else rest

unfoldable pub candidates : Db → ℕ → ℕ → List ℕ
unfolding candidates_loop
candidates db ra rb = candidates_loop rb (seek (be ((ra + 1) % u64)) db.changes).here []
