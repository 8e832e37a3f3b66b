-- ===== src/Core/Namespace/Moves.antt =====
-- `move`: a link and an unlink, of which the second does not fail after the first.
use prfs.Prelude.{
  ℕ, ◌<◌, ◌≤◌, ◌≡◌, ◌≢◌, ◌⊎◌, refl, sym, ap, ◌∙◌, subst, Bool, true, false, inl, inr, none, some,
  Option-cases, if◌then◌else◌,
}
use prfs.Bytes.{Bytes, u64}
use prfs.Kv.{find}
use prfs.Core.Record.{Error, ok, noent, exist, notdir, isdir, inval, notempty, perm}
use prfs.Core.Tables.{Db, load_node}
use prfs.Core.Links.{link_t, unlink_t, link_guard, add_link, child_of, down_key}
use prfs.Names.{same_name}
use prfs.Core.Store.{move_t, unlink_after}
use prfs.Core.Writes.{DbOk, Writes-DbOk}
use prfs.Core.Transactions.{child_of-lt, link_t-Writes}
use prfs.Core.Namespace.Live.{IsPlaced, live_at, child_of-live_at}
use prfs.Core.Namespace.Transactions.{Sets}
use prfs.Core.Namespace.Refines.{link_t-Outcome, unlink_t-Outcome, guard_taken, guard_missing}

link_t-guard :
    (cur d : ℕ) (name : Bytes) (c : ℕ) (db : Db)
    → (link_t cur d name c db).0 ≡ link_guard cur d name c db
unfolding link_t
link_t-guard cur d name c db = through (link_guard cur d name c db)
  where
    through :
        (e : Error)
        → (let r : Error × Db = elim e [ ok ↦ (ok, add_link cur d name c db) | e' ↦ (e', db) ] in
            r.0)
          ≡ e
    through ok = refl
    through noent = refl
    through exist = refl
    through notdir = refl
    through isdir = refl
    through inval = refl
    through notempty = refl
    through perm = refl

-- A link succeeds at a name without a child only.
pub link_t-free :
    (cur d : ℕ) (name : Bytes) (c : ℕ) (db : Db)
    → (link_t cur d name c db).0 ≡ ok
    → live_at cur db d name ≡ none
link_t-free cur d name c db h =
    let passed = sym (link_t-guard cur d name c db) ∙ h in
    elim (Option-cases (load_node db d cur)) [
      | inl missing ↦ absurd (guard_missing cur d name c db missing passed)
      | inr (dr, e) ↦ elim (Option-cases (find (down_key d dr.dn_link_ver name) db.down_links)) [
        | inl free ↦ rw (e, free) refl
        | inr (v, taken) ↦ absurd (guard_taken cur d name c db dr v e taken passed)
      ]
    ]

unlink_after_failed :
    (cur sd : ℕ) (sn : Bytes) (p : Error × Db) → p.0 ≢ ok → unlink_after cur sd sn p ≡ p
unfolding unlink_after
unlink_after_failed cur sd sn (ok, db) h = absurd (h refl)
unlink_after_failed cur sd sn (noent, db) h = refl
unlink_after_failed cur sd sn (exist, db) h = refl
unlink_after_failed cur sd sn (notdir, db) h = refl
unlink_after_failed cur sd sn (isdir, db) h = refl
unlink_after_failed cur sd sn (inval, db) h = refl
unlink_after_failed cur sd sn (notempty, db) h = refl
unlink_after_failed cur sd sn (perm, db) h = refl

-- The child goes from one name to another, and the other names stay.
pub record Moved (cur sd : ℕ) (sn : Bytes) (dd : ℕ) (dn : Bytes) (a b : Db) : Type 0 where
  pub child : ℕ
  pub from : live_at cur a sd sn ≡ some child
  pub free : live_at cur a dd dn ≡ none
  pub placed : IsPlaced cur b
  pub live :
      (e : ℕ) (n : Bytes)
      → e < u64
      → live_at cur b e n ≡ (
          if same_name sd sn e n
          then none
          else if same_name dd dn e n
          then some child
          else live_at cur a e n)

abbrev pub MoveOutcome : ℕ → ℕ → Bytes → ℕ → Bytes → Db → Error × Db → Type 0
MoveOutcome cur sd sn dd dn db r =
    ((r.0 ≡ ok) × Moved cur sd sn dd dn db r.1) ⊎ ((r.0 ≢ ok) × (r.1 ≡ db))

module _ (cur sd : ℕ) (sn : Bytes) (dd : ℕ) (dn : Bytes) (db : Db) (hc : cur < u64)
    (open' : 1 ≤ cur) (hs : sd < u64) (hd : dd < u64) (good : DbOk cur db)
    (placed : IsPlaced cur db) where
  unlinked :
      (c : ℕ)
      → c < u64
      → live_at cur db sd sn ≡ some c
      → (link_t cur dd dn c db).0 ≡ ok
      → Sets cur dd dn (some c) db (link_t cur dd dn c db).1
      → MoveOutcome cur sd sn dd dn db (unlink_t cur sd sn (link_t cur dd dn c db).1)
  unlinked c h e fine s =
      let after = (link_t cur dd dn c db).1 in
      let good' = Writes-DbOk (link_t-Writes hc dd dn c db hd h good) good in
      let still : live_at cur after sd sn ≡ some c =
        s.live sd sn hs ∙ rw e (same_either (same_name dd dn sd sn) c) in
      elim (unlink_t-Outcome cur sd sn after hc open' hs good' s.placed) [
        | inl gone ↦ absurd (cc (still, gone.0))
        | inr (c', e', r, s') ↦ rw r (
            inl (
              refl,
              record {
                child = c;
                from = e;
                free = link_t-free cur dd dn c db fine;
                placed = s'.placed;
                live = λ i n hi.
                    s'.live i n hi
                    ∙ ap (λ o. if same_name sd sn i n then none else o) (s.live i n hi);
              },
            ))
      ]
    where
      same_either : (b : Bool) (x : ℕ) → (if b then some x else some x) ≡ some x
      same_either true x = refl
      same_either false x = refl

  pub move_t-Outcome : MoveOutcome cur sd sn dd dn db (move_t cur sd sn dd dn db)
  unfolding move_t unlink_after
  move_t-Outcome = elim (Option-cases (child_of cur sd sn db)) [
    | inl missing ↦ rw (missing, move_t) (inr (λ e. cc, refl))
    | inr (c, e) ↦
        let h = child_of-lt cur sd sn db c e in
        let p = link_t cur dd dn c db in
        let live = sym (child_of-live_at cur db sd sn hs placed) ∙ e in
        rw (e, move_t)
          (elim (link_t-Outcome cur dd dn db hc open' hd good placed c h) [
            | inl (fine, s) ↦
                subst (λ q. MoveOutcome cur sd sn dd dn db (unlink_after cur sd sn q))
                  (sym (pair_eq p ok fine)) (after_ok c h live fine s)
            | inr (bad, same) ↦
                subst (MoveOutcome cur sd sn dd dn db) (sym (unlink_after_failed cur sd sn p bad))
                  (inr (bad, same))
          ])
  ]
    where
      pair_eq : (q : Error × Db) (x : Error) → q.0 ≡ x → q ≡ (x, q.1)
      pair_eq q x e' = ap (λ y. (y, q.1)) e'

      after_ok :
          (c : ℕ)
          → c < u64
          → live_at cur db sd sn ≡ some c
          → (link_t cur dd dn c db).0 ≡ ok
          → Sets cur dd dn (some c) db (link_t cur dd dn c db).1
          → MoveOutcome cur sd sn dd dn db (unlink_after cur sd sn (ok, (link_t cur dd dn c db).1))
      after_ok c h e' fine s = unlinked c h e' fine s
