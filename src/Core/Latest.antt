-- ===== src/Core/Latest.antt =====
-- Past the newest versions, every snapshot shows the same.
use prfs.Prelude.{
  ℕ, ◌<◌, ◌≤◌, ◌≡◌, refl, sym, ap, ◌∙◌, subst, [], ◌∷◌, ◌++◌, All, arith, Option, none, some,
}
use prfs.Bytes.{Bytes, u64, be, cmp}
use prfs.Bytes.Encoding.{cmp-be}
use prfs.Kv.{Map, Entry}
use prfs.Kv.Scan.{floor, cut}
use prfs.Core.Tables.{Db, load_node, version_at, is_version_of}
use prfs.Core.Versions.{IsVersion, OnSome, OnSome-floor, is_version_of_lem}
use prfs.Core.Loads.{NodesOk, load_node-floor}

module _ (id cur rg : ℕ) (hid : id < u64) (later : cur ≤ rg) (hrg : rg < u64) where
  same_cut :
      (e : Entry) (o : Option Entry)
      → IsVersion cur e
      → cut (cmp e.0 (be id ++ be rg)) o e ≡ cut (cmp e.0 (be id ++ be cur)) o e
  same_cut e o v =
      let at_key =
        λ (k : Bytes). cut (cmp k (be id ++ be rg)) o e ≡ cut (cmp k (be id ++ be cur)) o e in
      let hs : v.snap < u64 = omega (arith, v.snap_le) in
      let hc : cur < u64 = omega arith in
      subst at_key (sym v.key_eq) (
        rw
          (
            cmp-be v.id v.snap id rg v.id_fits hs hid hrg,
            cmp-be v.id v.snap id cur v.id_fits hs hid hc,
          )
          (ground (arith, v.snap_le)))

  floor_later :
      (m : Map) → All (IsVersion cur) m → floor (be id ++ be rg) m ≡ floor (be id ++ be cur) m
  unfolding floor
  floor_later [] a = refl
  floor_later (e ∷ m) a =
      ap (λ o. cut (cmp e.0 (be id ++ be rg)) o e) (floor_later m a.1)
      ∙ same_cut e (floor (be id ++ be cur) m) a.0

  version_later :
      (o : Option Entry) → OnSome (IsVersion cur) o → version_at id rg o ≡ version_at id cur o
  unfolding version_at
  version_later none a = refl
  version_later (some e) v =
      let hs : v.snap < u64 = omega (arith, v.snap_le) in
      let same : is_version_of id rg e.0 ≡ is_version_of id cur e.0 =
        subst (λ k. is_version_of id rg k ≡ is_version_of id cur k) (sym v.key_eq)
          (rw
            (
              is_version_of_lem v.id v.snap v.id_fits hs id rg,
              is_version_of_lem v.id v.snap v.id_fits hs id cur,
            )
            (ground (arith, v.snap_le))) in
      rw same refl

  -- No version is newer than `cur`: a later snapshot reads what `cur` reads.
  pub load_node_later : (db : Db) → NodesOk cur db.nodes → load_node db id rg ≡ load_node db id cur
  load_node_later db ok =
      let hc : cur < u64 = omega arith in
      load_node-floor cur id rg hc hid hrg db ok
      ∙ ap (version_at id rg) (floor_later db.nodes ok.versions)
      ∙ version_later (floor (be id ++ be cur) db.nodes)
          (OnSome-floor (IsVersion cur) (be id ++ be cur) db.nodes ok.versions)
      ∙ sym (load_node-floor cur id cur hc hid hc db ok)
