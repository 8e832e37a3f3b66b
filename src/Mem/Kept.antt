-- ===== src/Mem/Kept.antt =====
-- What the calls on the reference store are made of, and what they leave to a sealed snapshot.
use prfs.Prelude.{
  ℕ, ◌<◌, ◌≡◌, refl, sym, ap, ◌∙◌, List, [], ◌∷◌, ◌++◌, false, none, arith, find_in, change_in,
  entry_of, each-change_in, find_in-change_in, same, or_default, nat_order,
}
use prfs.Bytes.{Bytes}
use prfs.Core.Record.{FileType}
use prfs.Core.Store.{Handle, latest}
use prfs.Mem.{
  NodeVer, LinkIv, LinkKey, link_key_order, MemStore, link_live_at, resolve, eff_r, live_at_r,
  live_ver, touch, best_loop, live_vers, names_of,
}
use prfs.Mem.Ops.{alloc}
use prfs.Mem.Attrs.{mutate}
use prfs.Mem.History.{snapshot}
use prfs.Mem.Views.{name_entries, has_child, parents_loop}
use prfs.Mem.Intervals.{IsInPlace, best_loop-append, best_loop-live_vers}
use prfs.Mem.Listings.{parents_loop-change_in}

abbrev pub ivs_of : MemStore → LinkKey → List LinkIv
ivs_of s k = or_default [] (find_in k s.links)

-- What the views of the snapshot `n` read is the same in both stores.
pub record Kept (n : ℕ) (a b : MemStore) : Type 0 where
  pub vers : (id : ℕ) → eff_r b id n ≡ eff_r a id n
  pub lives : (k : LinkKey) → live_at_r (ivs_of b k) n ≡ live_at_r (ivs_of a k) n
  pub entries :
      (d : ℕ)
      → name_entries (record { id = d; snap = n }) (names_of b d) b
        ≡ name_entries (record { id = d; snap = n }) (names_of a d) a
  pub containers : (h : Handle) → parents_loop h n [] b.links ≡ parents_loop h n [] a.links
  pub info : find_in n b.snaps ≡ find_in n a.snaps

pub Kept-refl : {n : ℕ} {a : MemStore} → Kept n a a
Kept-refl = record {
  vers = λ id. refl;
  lives = λ k. refl;
  entries = λ d. refl;
  containers = λ h. refl;
  info = refl;
}

pub Kept-trans : {n : ℕ} {a b c : MemStore} → Kept n a b → Kept n b c → Kept n a c
Kept-trans x y = record {
  vers = λ id. y.vers id ∙ x.vers id;
  lives = λ k. y.lives k ∙ x.lives k;
  entries = λ d. y.entries d ∙ x.entries d;
  containers = λ h. y.containers h ∙ x.containers h;
  info = y.info ∙ x.info;
}

pub resolve-sealed : (s : MemStore) (n : ℕ) → n < latest → resolve s n ≡ n
unfolding resolve
resolve-sealed s n h = ground arith

pub link_live_at-sealed :
    (s : MemStore) (k : LinkKey) (n : ℕ)
    → n < latest
    → link_live_at s k n ≡ live_at_r (ivs_of s k) n
unfolding link_live_at
link_live_at-sealed s k n h = ap (live_at_r (ivs_of s k)) (resolve-sealed s n h)

module _ (n : ℕ) (s : MemStore) (older : n < s.cur) (open' : n < latest) where
  name_entries-links :
      (a b : MemStore) (d : ℕ) (ns : List Bytes)
      → ((k : LinkKey) → live_at_r (ivs_of b k) n ≡ live_at_r (ivs_of a k) n)
      → name_entries (record { id = d; snap = n }) ns b
        ≡ name_entries (record { id = d; snap = n }) ns a
  unfolding name_entries
  name_entries-links a b d [] h = refl
  name_entries-links a b d (x ∷ xs) h =
      let same_live =
        link_live_at-sealed b (d, x) n open'
        ∙ h (d, x)
        ∙ sym (link_live_at-sealed a (d, x) n open') in
      rw (same_live, name_entries-links a b d xs h) refl

  -- The tables of versions and of changes are written.
  vers-Kept :
      (nodes : List (ℕ × List NodeVer)) (next : ℕ) (changes : List (ℕ × List ℕ))
      → ((i : ℕ)
          → best_loop n none (entry_of [] i nodes) ≡ best_loop n none (entry_of [] i s.nodes))
      → Kept n s (record s { nodes = nodes; next = next; changes = changes })
  unfolding eff_r
  vers-Kept nodes next changes h = record {
    vers = h;
    lives = λ k. refl;
    entries = λ d. name_entries-links s _ d (names_of s d) (λ k. refl);
    containers = λ h. refl;
    info = refl;
  }

  pub live_ver-Kept :
      (id : ℕ) (f : NodeVer → NodeVer)
      → IsInPlace f
      → (changes : List (ℕ × List ℕ)) → Kept n s (record (live_ver id f s) { changes = changes })
  unfolding live_ver
  live_ver-Kept id f p changes = vers-Kept _ _ _ (λ i.
      each-change_in (λ j vs. best_loop n none vs ≡ best_loop n none (entry_of [] j s.nodes)) [] i
        id (live_vers s.cur f) s.nodes (best_loop-live_vers n s.cur f none _ older p) refl)

  pub mutate-Kept : (id : ℕ) (f : NodeVer → NodeVer) → IsInPlace f → Kept n s (mutate id f s)
  unfolding mutate live_ver touch
  mutate-Kept id f p = live_ver-Kept id f p _

  -- The policy and the clock are no part of a view.
  pub same_tables-Kept :
      (blob : Bytes) (t : ℕ) → Kept n s (record s { content_config = blob; clock = t })
  unfolding eff_r
  same_tables-Kept blob t = record {
    vers = λ id. refl;
    lives = λ k. refl;
    entries = λ d. name_entries-links s _ d (names_of s d) (λ k. refl);
    containers = λ h. refl;
    info = refl;
  }

  pub alloc-Kept : (t : FileType) (blob : Bytes) (spec : ℕ) → Kept n s (alloc t blob spec s).1
  unfolding alloc touch
  alloc-Kept t blob spec = vers-Kept _ _ _ (λ i.
      each-change_in (λ j vs. best_loop n none vs ≡ best_loop n none (entry_of [] j s.nodes)) [] i
        s.next (λ vs. vs ++ _ ∷ []) s.nodes
        (best_loop-append n _ none (entry_of [] s.next s.nodes) older) refl)

  -- A link is changed by what leaves the older snapshots, and its name is listed where it may have
  -- links.
  pub links-Kept :
      (k : LinkKey) (f : List LinkIv → List LinkIv) (names : List (ℕ × List Bytes))
      → ((ivs : List LinkIv) → live_at_r (f ivs) n ≡ live_at_r ivs n)
      → ((id : ℕ) (ivs : List LinkIv) → has_child id n (f ivs) ≡ has_child id n ivs)
      → ((d : ℕ)
          → name_entries (record { id = d; snap = n }) (entry_of [] d names) s
            ≡ name_entries (record { id = d; snap = n }) (names_of s d) s)
      → Kept n s (record s { links = change_in k [] f s.links; names = names })
  unfolding eff_r
  links-Kept k f names same_live same_child same_names =
      let lives = λ (q : LinkKey).
        each-change_in (λ j ivs. live_at_r ivs n ≡ live_at_r (ivs_of s j) n) [] q k f s.links
          (same_live (ivs_of s k)) refl in
      record {
        vers = λ id. refl;
        lives = lives;
        entries = λ d. name_entries-links s _ d (entry_of [] d names) lives ∙ same_names d;
        containers = λ h. parents_loop-change_in h n [] k f s.links (same_child h.id);
        info = refl;
      }

  pub snapshot-Kept : (label : Bytes) → Kept n s (snapshot label s).1
  unfolding snapshot eff_r
  snapshot-Kept label = record {
    vers = λ id. refl;
    lives = λ k. refl;
    entries = λ d. name_entries-links s _ d (names_of s d) (λ k. refl);
    containers = λ h. refl;
    info =
        let other : same s.cur n ≡ false = ground arith in
        find_in-change_in n s.cur _ _ s.snaps ∙ rw other refl;
  }
