-- ===== src/Mem/Invariant.antt =====
-- The invariant of the links of `MemStore`, and the live map that `link` and `unlink` change.
use prfs.Prelude.{
  ℕ, ◌+◌, ◌<◌, ◌≤◌, ◌≡◌, refl, ap, ◌∙◌, subst, List, [], Bool, true, false, Option, none, some,
  if◌then◌else◌, arith, change_in, entry_of, entry_of-change_in, each-change_in, same, find_in,
  nat_order,
}
use prfs.Bytes.{Bytes, u64}
use prfs.Bytes.Order.{cmp_refl}
use prfs.Core.Record.{FileType}
use prfs.Core.Store.{latest}
use prfs.Mem.{
  NodeVer, LinkIv, LinkKey, link_key_order, MemStore, live_at_r, link_live_at, resolve, put_name,
  names_of, live_ver, touch,
}
use prfs.Mem.Ops.{add_link, remove_link, end_iv, alloc, new_store}
use prfs.Mem.Attrs.{mutate}
use prfs.Mem.History.{snapshot}
use prfs.Mem.Intervals.{IsTidy, append-IsTidy, end_iv-IsTidy, sealed-IsTidy}
use prfs.Mem.Listings.{is_listed, is_listed-put_name}
use prfs.Mem.Kept.{ivs_of}

-- The intervals are tidy, and stand under names that are listed.
pub record MemOk (s : MemStore) : Type 0 where
  pub started : 1 ≤ s.cur
  pub tidy : (k : LinkKey) → IsTidy s.cur (ivs_of s k)
  pub listed : (d : ℕ) (n : Bytes) → is_listed n (names_of s d) ≡ false → ivs_of s (d, n) ≡ []

-- The child behind a name in the live view.
abbrev pub live_at : MemStore → LinkKey → Option ℕ
live_at s k = live_at_r (ivs_of s k) s.cur

pub link_live_at-latest : (s : MemStore) (k : LinkKey) → link_live_at s k latest ≡ live_at s k
unfolding link_live_at resolve
link_live_at-latest s k = refl

-- One name is set in the live map, and the invariant is kept.
pub record Sets (k : LinkKey) (x : Option ℕ) (a b : MemStore) : Type 0 where
  pub same_cur : b.cur ≡ a.cur
  pub mem_ok : MemOk b
  pub live : (q : LinkKey) → live_at b q ≡ (if same k q then x else live_at a q)

live_at-change_in :
    (s : MemStore) (k q : LinkKey) (f : List LinkIv → List LinkIv) (x : Option ℕ)
    → live_at_r (f (ivs_of s k)) s.cur ≡ x
    → live_at_r (entry_of [] q (change_in k [] f s.links)) s.cur
      ≡ (if same k q then x else live_at s q)
live_at-change_in s k q f x e =
    ap (λ ivs. live_at_r ivs s.cur) (entry_of-change_in [] q k f s.links)
    ∙ through (same k q) (f (ivs_of s k)) (ivs_of s q)
    ∙ ap (λ o. if same k q then o else live_at s q) e
  where
    through :
        (b : Bool) (v w : List LinkIv)
        → live_at_r (if b then v else w) s.cur
          ≡ (if b then live_at_r v s.cur else live_at_r w s.cur)
    through true v w = refl
    through false v w = refl

-- A name is listed once it has been put.
put_name-lists :
    (d : ℕ) (n : Bytes) (names : List (ℕ × List Bytes))
    → is_listed n (entry_of [] d (change_in d [] (put_name n) names)) ≡ true
put_name-lists d n names =
    ap (is_listed n) (entry_of-change_in [] d d (put_name n) names)
    ∙ rw (self d) (is_listed-put_name n n (entry_of [] d names) ∙ rw (cmp_refl n) refl)
  where
    self : (d : ℕ) → same d d ≡ true
    self d = ground arith

put_name-grows :
    (q d : ℕ) (m n : Bytes) (names : List (ℕ × List Bytes))
    → is_listed m (entry_of [] q (change_in d [] (put_name n) names)) ≡ false
    → is_listed m (entry_of [] q names) ≡ false
put_name-grows q d m n names =
    each-change_in (λ j ns. is_listed m ns ≡ false → is_listed m (entry_of [] j names) ≡ false) [] q
      d (put_name n) names (λ h. ground (arith, is_listed-put_name m n (entry_of [] d names), h))
      (λ h. h)

module _ (s : MemStore) (k : MemOk s) where
  pub mutate-MemOk : (id : ℕ) (f : NodeVer → NodeVer) → MemOk (mutate id f s)
  unfolding mutate live_ver touch
  mutate-MemOk id f = record { started = k.started; tidy = k.tidy; listed = k.listed }

  pub alloc-MemOk : (t : FileType) (blob : Bytes) (spec : ℕ) → MemOk (alloc t blob spec s).1
  unfolding alloc touch
  alloc-MemOk t blob spec = record { started = k.started; tidy = k.tidy; listed = k.listed }

  pub snapshot-MemOk : (label : Bytes) → s.cur + 1 < u64 → MemOk (snapshot label s).1
  unfolding snapshot
  snapshot-MemOk label room = record {
    started = omega (arith, k.started);
    tidy = λ q.
        subst (λ c. IsTidy c (ivs_of s q)) (omega arith)
          (sealed-IsTidy s.cur (ivs_of s q) (k.tidy q)).0;
    listed = k.listed;
  }

  pub add_link-Sets :
      (d : ℕ) (name : Bytes) (c : ℕ)
      → live_at s (d, name) ≡ none
      → Sets (d, name) (some c) s (add_link d name c s)
  unfolding add_link live_ver touch
  add_link-Sets d name c free =
      let added = append-IsTidy s.cur c (ivs_of s (d, name)) (k.tidy (d, name)) free in
      record {
        same_cur = refl;
        mem_ok = record {
          started = k.started;
          tidy = λ q.
              each-change_in (λ j ivs. IsTidy s.cur ivs) [] q (d, name) _ s.links added.0
                (k.tidy q);
          listed = λ e n h.
              each-change_in
                (λ j ivs.
                  is_listed (j.1) (entry_of [] (j.0) (change_in d [] (put_name name) s.names))
                    ≡ false
                  → ivs ≡ [])
                [] (e, n) (d, name) _ s.links
                (λ h'. absurd (cc (h', put_name-lists d name s.names)))
                (λ h'. k.listed e n (put_name-grows e d n name s.names h')) h;
        };
        live = λ q. live_at-change_in s (d, name) q _ (some c) added.1;
      }

  pub remove_link-Sets :
      (d : ℕ) (name : Bytes) (c : ℕ) → Sets (d, name) none s (remove_link d name c s)
  unfolding remove_link live_ver touch end_iv
  remove_link-Sets d name c =
      let ended = end_iv-IsTidy s.cur (ivs_of s (d, name)) k.started (k.tidy (d, name)) in
      record {
        same_cur = refl;
        mem_ok = record {
          started = k.started;
          tidy = λ q.
              each-change_in (λ j ivs. IsTidy s.cur ivs) [] q (d, name) _ s.links ended.0
                (k.tidy q);
          listed = λ e n h.
              each-change_in (λ j ivs. is_listed (j.1) (names_of s (j.0)) ≡ false → ivs ≡ []) []
                (e, n) (d, name) (end_iv s.cur) s.links (λ h'. rw (k.listed d name h') refl)
                (k.listed e n) h;
        };
        live = λ q. live_at-change_in s (d, name) q _ none ended.1;
      }

pub new_store-MemOk : MemOk new_store
unfolding new_store touch find_in
new_store-MemOk = record { started = omega arith; tidy = λ k. tt; listed = λ d n h. refl }
