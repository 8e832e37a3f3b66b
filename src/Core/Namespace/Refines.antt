-- ===== src/Core/Namespace/Refines.antt =====
-- Every call as a change of the live map, and the invariant that this rests on.
use prfs.Prelude.{
  ℕ, ◌<◌, ◌≤◌, ◌≡◌, ◌≢◌, ◌⊎◌, refl, sym, ◌∙◌, inl, inr, Option, none, some, Option-cases, arith,
}
use prfs.Bytes.{Bytes, u64}
use prfs.Kv.{find}
use prfs.Core.Record.{NodeRec, Error, ok, noent, exist, notdir, isdir, inval, notempty, perm}
use prfs.Core.Tables.{Db, load_node}
use prfs.Core.Links.{link_t, unlink_t, link_guard, add_link, remove_link, child_of, down_key}
use prfs.Core.Writes.{DbOk}
use prfs.Core.Transactions.{child_of-lt}
use prfs.Core.Namespace.Live.{IsPlaced, live_at, child_of-live_at}
use prfs.Core.Namespace.Transactions.{Sets, add_link-Sets, remove_link-Sets}

-- A name is set where the call succeeds, and nothing is changed where it fails.
abbrev pub Outcome : ℕ → ℕ → Bytes → Option ℕ → Db → Error × Db → Type 0
Outcome cur d name x db r = ((r.0 ≡ ok) × Sets cur d name x db r.1) ⊎ ((r.0 ≢ ok) × (r.1 ≡ db))

module _ (cur d : ℕ) (name : Bytes) (db : Db) (hc : cur < u64) (open' : 1 ≤ cur) (hd : d < u64)
    (good : DbOk cur db) (placed : IsPlaced cur db) where
  pub link_t-Outcome : (c : ℕ) → c < u64 → Outcome cur d name (some c) db (link_t cur d name c db)
  unfolding link_t
  link_t-Outcome c h =
      elim (link_guard cur d name c db)
        as (λ e.
          Outcome cur d name (some c) db
            (elim e [ ok ↦ (ok, add_link cur d name c db) | e' ↦ (e', db) ])) [
              | ok ↦ inl (refl, add_link-Sets cur d name c db hc open' hd h good placed)
              | noent ↦ inr (λ e. cc, refl)
              | exist ↦ inr (λ e. cc, refl)
              | notdir ↦ inr (λ e. cc, refl)
              | isdir ↦ inr (λ e. cc, refl)
              | inval ↦ inr (λ e. cc, refl)
              | notempty ↦ inr (λ e. cc, refl)
              | perm ↦ inr (λ e. cc, refl)
            ]

  -- `unlinkT` fails exactly where the name has no child.
  pub unlink_t-Outcome :
      ((live_at cur db d name ≡ none) × (unlink_t cur d name db ≡ (noent, db)))
      ⊎ (c : ℕ) × (live_at cur db d name ≡ some c)
        × (unlink_t cur d name db ≡ (ok, remove_link cur d name c db))
        × Sets cur d name none db (remove_link cur d name c db)
  unfolding unlink_t
  unlink_t-Outcome =
      let live = child_of-live_at cur db d name hd placed in
      elim (Option-cases (child_of cur d name db)) [
        | inl missing ↦ inl (sym live ∙ missing, rw (missing, unlink_t) refl)
        | inr (c, e) ↦ inr (
          c,
          sym live ∙ e,
          rw (e, unlink_t) refl,
          remove_link-Sets cur d name c db hc open' hd (child_of-lt cur d name db c e) good placed,
        )
      ]

-- The guard lets no name through that has a child.
pub guard_taken :
    (cur d : ℕ) (name : Bytes) (c : ℕ) (db : Db) (dr : NodeRec) (v : Bytes)
    → load_node db d cur ≡ some dr
    → find (down_key d dr.dn_link_ver name) db.down_links ≡ some v
    → link_guard cur d name c db ≡ ok
    → ⊥
unfolding link_guard
guard_taken cur d name c db dr v e1 e2 h = ground (arith, e1, e2, h)

pub guard_missing :
    (cur d : ℕ) (name : Bytes) (c : ℕ) (db : Db)
    → load_node db d cur ≡ none
    → link_guard cur d name c db ≡ ok
    → ⊥
unfolding link_guard
guard_missing cur d name c db e1 h = ground (arith, e1, h)
