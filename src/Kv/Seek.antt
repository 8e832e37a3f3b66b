-- ===== src/Kv/Seek.antt =====
-- Positioning a cursor on the newest entry at or below a key: the entry that it reads is the floor.
use prfs.Prelude.{
  ◌≡◌, refl, sym, ap, ◌∙◌, Ordering, [], ◌∷◌, Option, none, some, Bool, arith, if◌then◌else◌,
}
use prfs.Bytes.{Bytes, cmp, is_eq}
use prfs.Bytes.Order.{eq_of_cmp, cmp_flip}
use prfs.Kv.{
  Map, Entry, Cursor, seek, seek_from, prev, step_prev, last, last_from, end_from, head, entry,
}
use prfs.Kv.Laws.{Sorted, Below}
use prfs.Kv.Scan.{floor}

-- The entry at the cursor if its key is `k`, and the one before it if not.
abbrev chosen : Bytes → Map → Map → Option Entry
chosen k b [] = head b
chosen k b (e ∷ h) = elim (cmp e.0 k) [ Ordering.eq ↦ some e | _ ↦ head b ]

abbrev or_head : Option Entry → Option Entry → Option Entry
or_head none o = o
or_head (some e) o = some e

floor-none : (k : Bytes) (m : Map) → Below k m → floor k m ≡ none
unfolding floor
floor-none k [] b = refl
floor-none k ((j, w) ∷ m) b = ground (arith, cmp_flip k j)

chosen-seek_from :
    (k : Bytes) (b m : Map)
    → Sorted m
    → chosen k (seek_from k b m).before (seek_from k b m).here ≡ or_head (floor k m) (head b)
unfolding seek_from floor
chosen-seek_from k b [] s = refl
chosen-seek_from k b ((j, w) ∷ m) s =
    ground (arith, chosen-seek_from k ((j, w) ∷ b) m s.1, floor-none k m, eq_of_cmp j k)

abbrev last_or : Map → Map → Option Entry
last_or b [] = head b
last_or b (e ∷ m) = last_or (e ∷ b) m

seek_from_end :
    (k : Bytes) (b m : Map)
    → (seek_from k b m).here ≡ []
    → head (seek_from k b m).before ≡ last_or b m
unfolding seek_from
seek_from_end k b [] h = refl
seek_from_end k b ((j, w) ∷ m) h = ground (arith, seek_from_end k ((j, w) ∷ b) m)

entry-last_from : (b : Map) (e : Entry) (m : Map) → entry (last_from b (e ∷ m)) ≡ last_or b (e ∷ m)
unfolding last_from
entry-last_from b e [] = refl
entry-last_from b e (f ∷ m) = entry-last_from (e ∷ b) f m

pub entry-last : (m : Map) → entry (last m) ≡ last_or [] m
unfolding last last_from
entry-last [] = refl
entry-last (e ∷ m) = entry-last_from [] e m

end_from_here : (b h : Map) → (end_from b h).here ≡ []
unfolding end_from
end_from_here b [] = refl
end_from_here b (e ∷ h) = end_from_here (e ∷ b) h

entry-step_prev : (b h : Map) → entry (step_prev b h) ≡ head b
unfolding step_prev
entry-step_prev [] h = ap head (end_from_here [] h)
entry-step_prev (e ∷ b) h = refl

-- What `loadNode` does with its cursor, for a test of the key that is equality with `k`.
abbrev pub settle : (Bytes → Bool) → Map → Cursor → Cursor
settle test m c = elim c.here [ [] ↦ last m | e ∷ h ↦ if test e.0 then c else prev c ]

abbrev pub AtHead : (Bytes → Bool) → Bytes → Map → Type 0
AtHead test k [] = Unit
AtHead test k (e ∷ h) = test e.0 ≡ is_eq (cmp e.0 k)

settle-entry :
    (test : Bytes → Bool) (k : Bytes) (m b h : Map)
    → AtHead test k h
    → (h ≡ [] → head b ≡ last_or [] m)
    → entry (settle test m (record { before = b; here = h })) ≡ chosen k b h
unfolding prev
settle-entry test k m b [] t l = entry-last m ∙ sym (l refl)
settle-entry test k m b (e ∷ h) t l = ground (arith, entry-step_prev b (e ∷ h))

pub settle-floor :
    (test : Bytes → Bool) (k : Bytes) (m : Map)
    → Sorted m
    → AtHead test k (seek k m).here
    → entry (settle test m (seek k m)) ≡ floor k m
unfolding seek
settle-floor test k m s t =
    settle-entry test k m _ _ t (seek_from_end k [] m)
    ∙ chosen-seek_from k [] m s
    ∙ or_none (floor k m)
  where
    or_none : (o : Option Entry) → or_head o none ≡ o
    or_none none = refl
    or_none (some e) = refl
