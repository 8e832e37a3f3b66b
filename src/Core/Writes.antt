-- ===== src/Core/Writes.antt =====
-- The writes that the operations of the store make, as a step relation, and what they leave alone:
-- every record, every link set and every label of a sealed snapshot.
use prfs.Prelude.{
  ℕ, ◌<◌, ◌≡◌, refl, sym, ap, ◌∙◌, [], ◌++◌, drop, arith, false, Bool-cases, inl, inr,
}
use prfs.Bytes.{Bytes, u64, be, has_prefix}
use prfs.Bytes.Encoding.{be-injective, drop-be, be-append}
use prfs.Bytes.Order.{has_prefix_split}
use prfs.Kv.{find, put, del}
use prfs.Kv.Laws.{Sorted, put-Sorted, del-Sorted}
use prfs.Kv.Prefix.{with_prefix, with_prefix-put, with_prefix-del}
use prfs.Core.Record.{NodeRec}
use prfs.Core.Tables.{Db, load_node, store_node}
use prfs.Core.Loads.{NodesOk, Bounded, store_node-NodesOk, load_node-store_node_other}

-- One write of a transaction at the snapshot `cur`.
pub data Write (cur : ℕ) : Db → Db → Type 0 where
  node :
      (id : ℕ) (r : NodeRec) (db : Db)
      → id < u64
      → Bounded cur r
      → Write cur db (store_node id cur r db)
  put_down :
      (d : ℕ) (name v : Bytes) (db : Db)
      → Write cur db (record db { down_links = put (be d ++ (be cur ++ name)) v db.down_links })
  del_down :
      (d : ℕ) (name : Bytes) (db : Db)
      → Write cur db (record db { down_links = del (be d ++ (be cur ++ name)) db.down_links })
  put_up :
      (c : ℕ) (suffix : Bytes) (db : Db)
      → Write cur db (record db { up_links = put (be c ++ (be cur ++ suffix)) [] db.up_links })
  del_up :
      (c : ℕ) (suffix : Bytes) (db : Db)
      → Write cur db (record db { up_links = del (be c ++ (be cur ++ suffix)) db.up_links })
  put_meta : (k v : Bytes) (db : Db) → Write cur db (record db { meta = put k v db.meta })

pub data Writes (cur : ℕ) (a : Db) : Db → Type 0 where
  done : Writes cur a a
  more : {b c : Db} → Writes cur a b → Write cur b c → Writes cur a c

pub Writes-trans : {cur : ℕ} {a b c : Db} → Writes cur a b → Writes cur b c → Writes cur a c
Writes-trans w done = w
Writes-trans w (more v s) = more (Writes-trans w v) s

-- The tables of a store at the snapshot `cur`.
pub record DbOk (cur : ℕ) (db : Db) : Type 0 where
  pub nodes_ok : NodesOk cur db.nodes
  pub down_sorted : Sorted db.down_links
  pub up_sorted : Sorted db.up_links

Write-DbOk : {cur : ℕ} {a b : Db} → Write cur a b → DbOk cur a → DbOk cur b
unfolding store_node
Write-DbOk {cur} (node id r db hid bound) ok = record {
  nodes_ok = store_node-NodesOk cur id r db hid bound.fits bound.dn bound.up ok.nodes_ok;
  down_sorted = ok.down_sorted;
  up_sorted = ok.up_sorted;
}
Write-DbOk (put_down d name v db) ok = record {
  nodes_ok = ok.nodes_ok;
  down_sorted = put-Sorted _ v db.down_links ok.down_sorted;
  up_sorted = ok.up_sorted;
}
Write-DbOk (del_down d name db) ok = record {
  nodes_ok = ok.nodes_ok;
  down_sorted = del-Sorted _ db.down_links ok.down_sorted;
  up_sorted = ok.up_sorted;
}
Write-DbOk (put_up c suffix db) ok = record {
  nodes_ok = ok.nodes_ok;
  down_sorted = ok.down_sorted;
  up_sorted = put-Sorted _ [] db.up_links ok.up_sorted;
}
Write-DbOk (del_up c suffix db) ok = record {
  nodes_ok = ok.nodes_ok;
  down_sorted = ok.down_sorted;
  up_sorted = del-Sorted _ db.up_links ok.up_sorted;
}
Write-DbOk (put_meta k v db) ok = record {
  nodes_ok = ok.nodes_ok;
  down_sorted = ok.down_sorted;
  up_sorted = ok.up_sorted;
}

pub Writes-DbOk : {cur : ℕ} {a b : Db} → Writes cur a b → DbOk cur a → DbOk cur b
Writes-DbOk done ok = ok
Writes-DbOk (more w s) ok = Write-DbOk s (Writes-DbOk w ok)

-- A key of the version `cur` has no prefix of an older one.
old_prefix :
    (d v cur e : ℕ) (rest : Bytes)
    → d < u64
    → v < cur
    → cur < u64
    → has_prefix (be d ++ be v) (be e ++ (be cur ++ rest)) ≡ false
old_prefix d v cur e rest hd hv hc =
    elim (Bool-cases (has_prefix (be d ++ be v) (be e ++ (be cur ++ rest)))) [
      | inl shared ↦
          let (s, eq) = has_prefix_split (be d ++ be v) _ shared in
          let tails =
            sym (drop-be e (be cur ++ rest))
            ∙ ap (drop 8) (eq ∙ be-append d v s)
            ∙ drop-be d (be v ++ s) in
          absurd (omega (arith, be-injective cur v rest s hc (omega arith) tails))
      | inr apart ↦ apart
    ]

-- What is the same in two stores for every snapshot before `cur`.
pub record Frozen (cur : ℕ) (a b : Db) : Type 0 where
  pub loads : (id rg : ℕ) → id < u64 → rg < cur → load_node b id rg ≡ load_node a id rg
  pub downs :
      (d v : ℕ)
      → d < u64
      → v < cur
      → with_prefix (be d ++ be v) b.down_links ≡ with_prefix (be d ++ be v) a.down_links
  pub ups :
      (c v : ℕ)
      → c < u64
      → v < cur
      → with_prefix (be c ++ be v) b.up_links ≡ with_prefix (be c ++ be v) a.up_links
  pub labels : (g : ℕ) → g < cur → find (be g) b.snaps ≡ find (be g) a.snaps

Frozen-refl : (cur : ℕ) (a : Db) → Frozen cur a a
Frozen-refl cur a = record {
  loads = λ id rg p q. refl;
  downs = λ d v p q. refl;
  ups = λ c v p q. refl;
  labels = λ g q. refl;
}

Frozen-trans : {cur : ℕ} {a b c : Db} → Frozen cur a b → Frozen cur b c → Frozen cur a c
Frozen-trans f g = record {
  loads = λ id rg p q. g.loads id rg p q ∙ f.loads id rg p q;
  downs = λ d v p q. g.downs d v p q ∙ f.downs d v p q;
  ups = λ c v p q. g.ups c v p q ∙ f.ups c v p q;
  labels = λ n q. g.labels n q ∙ f.labels n q;
}

Write-Frozen : {cur : ℕ} {a b : Db} → cur < u64 → DbOk cur a → Write cur a b → Frozen cur a b
unfolding load_node store_node
Write-Frozen {cur} hc ok (node id r db hid bound) = record {
  loads = λ i rg p q.
      load_node-store_node_other cur id r db hc hid bound.fits bound.dn bound.up ok.nodes_ok i rg p
        (omega arith) (inr q);
  downs = λ d v p q. refl;
  ups = λ c v p q. refl;
  labels = λ g q. refl;
}
Write-Frozen {cur} hc ok (put_down d name w db) = record {
  loads = λ i rg p q. refl;
  downs = λ e v p q. with_prefix-put _ _ w db.down_links (old_prefix e v cur d name p q hc);
  ups = λ c v p q. refl;
  labels = λ g q. refl;
}
Write-Frozen {cur} hc ok (del_down d name db) = record {
  loads = λ i rg p q. refl;
  downs = λ e v p q. with_prefix-del _ _ db.down_links (old_prefix e v cur d name p q hc);
  ups = λ c v p q. refl;
  labels = λ g q. refl;
}
Write-Frozen {cur} hc ok (put_up c suffix db) = record {
  loads = λ i rg p q. refl;
  downs = λ e v p q. refl;
  ups = λ e v p q. with_prefix-put _ _ [] db.up_links (old_prefix e v cur c suffix p q hc);
  labels = λ g q. refl;
}
Write-Frozen {cur} hc ok (del_up c suffix db) = record {
  loads = λ i rg p q. refl;
  downs = λ e v p q. refl;
  ups = λ e v p q. with_prefix-del _ _ db.up_links (old_prefix e v cur c suffix p q hc);
  labels = λ g q. refl;
}
Write-Frozen {cur} hc ok (put_meta k v db) = record {
  loads = λ i rg p q. refl;
  downs = λ e v p q. refl;
  ups = λ e v p q. refl;
  labels = λ g q. refl;
}

-- Whatever a transaction writes, the sealed snapshots keep their records, links and labels.
pub Writes-Frozen : {cur : ℕ} {a b : Db} → cur < u64 → DbOk cur a → Writes cur a b → Frozen cur a b
Writes-Frozen hc ok done = Frozen-refl _ _
Writes-Frozen hc ok (more w s) =
    Frozen-trans (Writes-Frozen hc ok w) (Write-Frozen hc (Writes-DbOk w ok) s)
