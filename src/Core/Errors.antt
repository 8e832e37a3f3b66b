-- ===== src/Core/Errors.antt =====
-- Refused calls leave the store as it was.
use prfs.Prelude.{
  arith, ℕ, ◌≡◌, refl, ap, ◌⊎◌, inl, inr, Bool, true, false, Option, none, some, if◌then◌else◌,
}
use prfs.Bytes.{Bytes}
use prfs.Core.Record.{NodeRec, Error, ok, noent, exist, notdir, isdir, inval, notempty, perm}
use prfs.Core.Tables.{Db, load_node, store_node}
use prfs.Core.Links.{link_t, link_guard, unlink_t, child_of, add_link, remove_link}
use prfs.Core.Store.{Store, link, unlink, move}
use prfs.Core.Attrs.{set_guarded, set_blob, set_rdev, set_content_seed}
use prfs.Core.Ops.{
  Op, creates, links, unlinks, moves, sets, sets_blob, sets_rdev, sets_seed, sets_config, sets_time,
  snapshots, apply,
}

-- What a call returns; the creations and the setters without a result always succeed.
abbrev pub answer : Op → Store → Error
answer (links d name c) s = (link d name c s).0
answer (unlinks d name) s = (unlink d name s).0
answer (moves sd sn dd dn) s = (move sd sn dd dn s).0
answer (sets_blob h t blob) s = (set_blob h t blob s).0
answer (sets_rdev h maj min) s = (set_rdev h maj min s).0
answer (sets_seed h seed) s = (set_content_seed h seed s).0
answer _ s = ok

unfoldable pub is_move : Op → Bool
is_move (moves sd sn dd dn) = true
is_move _ = false

-- The result is a success, or the state after is the state before.
abbrev Kept {ℓ} : {A : Type ℓ} → A → Error × A → Type ℓ
Kept a p = (p.0 ≡ ok) ⊎ (p.1 ≡ a)

Kept-guarded : (e : Error) (db after : Db) → Kept db (elim e [ ok ↦ (ok, after) | e' ↦ (e', db) ])
Kept-guarded ok db after = inl refl
Kept-guarded noent db after = inr refl
Kept-guarded exist db after = inr refl
Kept-guarded notdir db after = inr refl
Kept-guarded isdir db after = inr refl
Kept-guarded inval db after = inr refl
Kept-guarded notempty db after = inr refl
Kept-guarded perm db after = inr refl

Kept-found {ℓ} :
    {A : Type ℓ} (o : Option A) (db : Db) (f : A → Db)
    → Kept db (elim o [ none ↦ (noent, db) | some x ↦ (ok, f x) ])
Kept-found none db f = inr refl
Kept-found (some x) db f = inl refl

Kept-wanted :
    (o : Option NodeRec) (s : Store) (wanted : NodeRec → Bool) (f : NodeRec → Store)
    → Kept s (elim o [ none ↦ (noent, s) | some r ↦ if wanted r then (ok, f r) else (inval, s) ])
Kept-wanted none s wanted f = inr refl
Kept-wanted (some r) s wanted f = ground arith

link_t-Kept :
    (cur dir_id : ℕ) (name : Bytes) (child : ℕ) (db : Db)
    → Kept db (link_t cur dir_id name child db)
unfolding link_t
link_t-Kept cur dir_id name child db =
    Kept-guarded (link_guard cur dir_id name child db) db (add_link cur dir_id name child db)

unlink_t-Kept : (cur dir_id : ℕ) (name : Bytes) (db : Db) → Kept db (unlink_t cur dir_id name db)
unfolding unlink_t
unlink_t-Kept cur dir_id name db =
    Kept-found (child_of cur dir_id name db) db (λ cid. remove_link cur dir_id name cid db)

set_guarded-Kept :
    (id : ℕ) (wanted : NodeRec → Bool) (fn : NodeRec → NodeRec) (s : Store)
    → Kept s (set_guarded id wanted fn s)
unfolding set_guarded
set_guarded-Kept id wanted fn s =
    Kept-wanted (load_node s.db id s.cur) s wanted
      (λ r. record s { db = store_node id s.cur (fn r) s.db })

with_db :
    (s : Store) (e : Error) (db : Db)
    → (e ≡ ok) ⊎ (db ≡ s.db)
    → (e ≡ ok) ⊎ (record s { db = db } ≡ s)
with_db s e db (inl fine) = inl fine
with_db s e db (inr same) = inr (ap (λ (d : Db). record s { db = d }) same)

-- Every call but `move` either succeeds or leaves the store as it was.
pub apply-kept : (op : Op) (s : Store) → is_move op ≡ false → (answer op s ≡ ok) ⊎ (apply op s ≡ s)
unfolding is_move link unlink set_blob set_rdev set_content_seed
apply-kept (creates t blob spec) s other = inl refl
apply-kept (links d name c) s other = with_db s _ _ (link_t-Kept s.cur d.id name c.id s.db)
apply-kept (unlinks d name) s other = with_db s _ _ (unlink_t-Kept s.cur d.id name s.db)
apply-kept (moves sd sn dd dn) s other = ground arith
apply-kept (sets a h x) s other = inl refl
apply-kept (sets_blob h t blob) s other = set_guarded-Kept h.id _ _ s
apply-kept (sets_rdev h maj min) s other = set_guarded-Kept h.id _ _ s
apply-kept (sets_seed h seed) s other = set_guarded-Kept h.id _ _ s
apply-kept (sets_config blob) s other = inl refl
apply-kept (sets_time t) s other = inl refl
apply-kept (snapshots label) s other = inl refl
