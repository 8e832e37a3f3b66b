-- ===== src/Agreement.antt =====
-- `PrfsStore` and the reference store that its tests compare it with, src/reference/memstore.cpp.
use prfs.Prelude.{
  ℕ, ◌+◌, ◌<◌, ◌≡◌, ◌↔◌, sym, ap, ◌∙◌, List, inl, inr, some, none, if◌then◌else◌, length, All,
}
use prfs.Bytes.{Bytes, u64}
use prfs.Core.Record.{Error, ok}
use prfs.Core.Tables.{empty_db}
use prfs.Core.Store.{open_store, latest}
use prfs.Core.Ops.{
  Op, creates, links, unlinks, moves, sets, sets_blob, sets_rdev, sets_seed, sets_config, sets_time,
  snapshots, InRange, run, apply,
}
use prfs.Core.Errors.{answer}
use prfs.Core.Namespace.Refinement.{apply-Refined, view}
use prfs.Names.{View, same_name, after, live, IsPlain, TakesPlain, MakesOther, Refined}
use prfs.Mem.Ops.{new_store}
use prfs.Mem.Runs.{apply as mem_apply, answer as mem_answer, run as mem_run}
use prfs.Mem.Lookups.{view as mem_view}
use prfs.Mem.Refinement.{mem_apply-Refined}

-- Both stores have the same names in the live view.
abbrev pub SameNames : View → View → Type 0
SameNames p m = (e : ℕ) (n : Bytes) → e < u64 → IsPlain e n → p e n ≡ m e n

after-SameNames :
    (op : Op) (p m : View)
    → InRange op
    → TakesPlain op
    → SameNames p m
    → (e : ℕ) (n : Bytes) → e < u64
    → IsPlain e n
    → after op p e n ≡ after op m e n
unfolding after
after-SameNames (links d name c) p m h taken same e n he plain =
    ap (λ o. if same_name d.id name e n then some (live c.id) else o) (same e n he plain)
after-SameNames (unlinks d name) p m h taken same e n he plain =
    ap (λ o. if same_name d.id name e n then none else o) (same e n he plain)
after-SameNames (moves sd sn dd dn) p m h taken same e n he plain =
    ap (λ o. if same_name sd.id sn e n then none else if same_name dd.id dn e n then o else p e n)
      (same sd.id sn h.0 taken)
    ∙ ap
        (λ o.
          if same_name sd.id sn e n then none else if same_name dd.id dn e n then m sd.id sn else o)
        (same e n he plain)
after-SameNames (creates t blob spec) p m h taken same e n he plain = same e n he plain
after-SameNames (sets a d x) p m h taken same e n he plain = same e n he plain
after-SameNames (sets_blob d t blob) p m h taken same e n he plain = same e n he plain
after-SameNames (sets_rdev d maj min) p m h taken same e n he plain = same e n he plain
after-SameNames (sets_seed d seed) p m h taken same e n he plain = same e n he plain
after-SameNames (sets_config blob) p m h taken same e n he plain = same e n he plain
after-SameNames (sets_time t) p m h taken same e n he plain = same e n he plain
after-SameNames (snapshots label) p m h taken same e n he plain = same e n he plain

same_step :
    (op : Op) (a b : Error) (p p' m m' : View) (e : ℕ) (n : Bytes)
    → ((a ≡ ok) ↔ (b ≡ ok))
    → after op p e n ≡ after op m e n
    → p e n ≡ m e n
    → Refined op a p p' e n
    → Refined op b m m' e n
    → p' e n ≡ m' e n
same_step op a b p p' m m' e n answers changed kept (inl (fine, v)) (inl (fine', v')) =
    v ∙ changed ∙ sym v'
same_step op a b p p' m m' e n answers changed kept (inr (bad, v)) (inr (bad', v')) =
    v ∙ kept ∙ sym v'
same_step op a b p p' m m' e n answers changed kept (inl (fine, v)) (inr (bad', v')) =
    absurd (bad' (answers.0 fine))
same_step op a b p p' m m' e n answers changed kept (inr (bad, v)) (inl (fine', v')) =
    absurd (bad (answers.1 fine'))

-- Where a store and a reference store, each made by a sequence of calls that leaves room in the
-- counter, the first one's with arguments in range, have the same names in the live view, and a
-- call with arguments in range succeeds in both or fails in both, they have the same names after
-- it, but for those of the node that the call creates: the name that an unlink or a move takes away
-- is not `.snapshot` or in it, and names are compared in directories with ids of 64 bits.
pub same_answers-SameNames :
    (made mem_made : List Op) (op : Op)
    → All InRange made
    → 2 + length made < latest
    → 2 + length mem_made < latest
    → SameNames (view (run made (open_store empty_db))) (mem_view (mem_run mem_made new_store))
    → InRange op
    → TakesPlain op
    → ((answer op (run made (open_store empty_db)) ≡ ok)
        ↔ (mem_answer op (mem_run mem_made new_store) ≡ ok))
    → (e : ℕ) (n : Bytes) → e < u64
    → IsPlain e n
    → MakesOther op (run made (open_store empty_db)).next e
    → view (apply op (run made (open_store empty_db))) e n
      ≡ mem_view (mem_apply op (mem_run mem_made new_store)) e n
same_answers-SameNames made mem_made op ranges room mem_room same h taken answers e n he plain
      other =
    same_step op _ _ _ (view (apply op (run made (open_store empty_db)))) _
      (mem_view (mem_apply op (mem_run mem_made new_store))) e n answers
      (after-SameNames op _ _ h taken same e n he plain) (same e n he plain)
      (apply-Refined made ranges room e n he plain op h taken other)
      (mem_apply-Refined mem_made op e n mem_room plain taken)
