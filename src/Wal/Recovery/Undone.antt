-- ===== src/Wal/Recovery/Undone.antt =====
-- Which records recovery undoes, and in which order.
use akatsuki_db.Base.{
  ℕ, ◌≡◌, refl, sym, ap, ◌∙◌, Bool, true, false, not, ◌&&◌, ◌||◌, List, [], ◌∷◌, ◌++◌, ◌==◌, ==_iff,
  if◌then◌else◌, Result, ok, err, ◌>>=◌, arith, Bool-cases, inl, inr, append_assoc, append-nil,
}
use mathlib.Core.List.{reverse, reverse-append}
use mathlib.Core.Path.{subst, ap₂, fun_ext}
use akatsuki_db.Wal.Record.{WalRecord}
use akatsuki_db.Storage.PageManager.{StorageError}
use akatsuki_db.Wal.Recovery.{
  is_committed, is_marker, Groups, push_back, uncommitted, Tables, undo_record, undo_all,
  undo_groups, recover,
}

-- The records of the transaction `id`, in their order.
unfoldable pub of_txn : ℕ → List WalRecord → List WalRecord
of_txn id [] = []
of_txn id (r ∷ rs) = if r.header.txn_id == id then r ∷ of_txn id rs else of_txn id rs

-- Its changes: all but Begin, Commit and Rollback.
unfoldable pub changes_of : ℕ → List WalRecord → List WalRecord
changes_of id [] = []
changes_of id (r ∷ rs) =
    if not (is_marker r) && r.header.txn_id == id then r ∷ changes_of id rs else changes_of id rs

-- The group of `id`, empty if there is none.
unfoldable pub group : ℕ → Groups → List WalRecord
group id [] = []
group id ((k, rs) ∷ gs) = if k == id then rs else group id gs

unfoldable pub has_key : ℕ → Groups → Bool
has_key id [] = false
has_key id ((k, rs) ∷ gs) = k == id || has_key id gs

-- The keys are distinct, and every record stands in the group of its transaction.
abbrev pub AllOf : ℕ → List WalRecord → Type 0
AllOf id [] = Unit {0}
AllOf id (r ∷ rs) = (r.header.txn_id ≡ id) × AllOf id rs

abbrev pub IsMap : Groups → Type 0
IsMap [] = Unit {0}
IsMap ((k, rs) ∷ gs) = (has_key k gs ≡ false) × AllOf k rs × IsMap gs

-- A walk through a hash map visits every entry once, in some order.
pub record IsWalk (order : Groups → Groups) : Type 0 where
  pub is_map : (gs : Groups) → IsMap gs → IsMap (order gs)
  pub same_groups : (gs : Groups) (id : ℕ) → IsMap gs → group id (order gs) ≡ group id gs

-- The records that a walk through the groups undoes, in that order.
abbrev pub undone : Groups → List WalRecord
undone [] = []
undone ((id, rs) ∷ gs) = reverse rs ++ undone gs

group-push_back :
    (id k : ℕ) (r : WalRecord) (gs : Groups)
    → group id (push_back k r gs) ≡ (if k == id then group id gs ++ r ∷ [] else group id gs)
unfolding group push_back
group-push_back id k r [] = ground arith
group-push_back id k r ((j, rs) ∷ gs) = ground (arith, group-push_back id k r gs)

has_key-push_back :
    (id k : ℕ) (r : WalRecord) (gs : Groups)
    → has_key id (push_back k r gs) ≡ (k == id || has_key id gs)
unfolding has_key push_back
has_key-push_back id k r [] = ground arith
has_key-push_back id k r ((j, rs) ∷ gs) = ground (arith, has_key-push_back id k r gs)

AllOf-append :
    (id : ℕ) (rs : List WalRecord) (r : WalRecord)
    → AllOf id rs
    → r.header.txn_id ≡ id
    → AllOf id (rs ++ r ∷ [])
AllOf-append id [] r A e = (e, tt)
AllOf-append id (s ∷ rs) r A e = (A.0, AllOf-append id rs r A.1 e)

push_back-IsMap : (r : WalRecord) (gs : Groups) → IsMap gs → IsMap (push_back r.header.txn_id r gs)
unfolding push_back
push_back-IsMap r [] M = (unfold has_key in refl, (refl, tt), tt)
push_back-IsMap r ((k, rs) ∷ gs) M = elim (Bool-cases (k == r.header.txn_id)) [
  | inl e ↦ rw e (M.0, AllOf-append k rs r M.1 (sym ((==_iff k r.header.txn_id).0 e)), M.2)
  | inr e ↦ rw e (
    has_key-push_back k r.header.txn_id r gs ∙ ground (arith, M.0),
    M.1,
    push_back-IsMap r gs M.2,
  )
]

uncommitted-IsMap :
    (all rs : List WalRecord) (gs : Groups) → IsMap gs → IsMap (uncommitted all rs gs)
unfolding uncommitted
uncommitted-IsMap all [] gs M = M
uncommitted-IsMap all (r ∷ rs) gs M =
    uncommitted-IsMap all rs _ (step (is_marker r) (is_committed r.header.txn_id all))
  where
    step : (a b : Bool) → IsMap (if a then gs else if b then gs else push_back r.header.txn_id r gs)
    step true b = M
    step false true = M
    step false false = push_back-IsMap r gs M

abbrev nothing_left : List WalRecord
nothing_left = []

abbrev change : ℕ → WalRecord → List WalRecord
change id r = if not (is_marker r) && r.header.txn_id == id then r ∷ [] else []

changes_of-cons :
    (id : ℕ) (r : WalRecord) (rs : List WalRecord)
    → changes_of id (r ∷ rs) ≡ change id r ++ changes_of id rs
unfolding changes_of
changes_of-cons id r rs = elim (Bool-cases (not (is_marker r) && r.header.txn_id == id)) [
  | inl e ↦ rw e
  | inr e ↦ rw e
]

abbrev next_groups : List WalRecord → WalRecord → Groups → Groups
next_groups all r gs =
    if is_marker r
    then gs
    else if is_committed r.header.txn_id all
    then gs
    else push_back r.header.txn_id r gs

-- One round of the loop adds the record to the group of its transaction, or does nothing.
group-next_groups :
    (id : ℕ) (all : List WalRecord) (r : WalRecord) (gs : Groups)
    → group id (next_groups all r gs)
      ≡ group id gs ++ (if is_committed id all then [] else change id r)
group-next_groups id all r gs = elim (Bool-cases (is_marker r)) [
  | inl m ↦ rw m (
      sym (append-nil (group id gs))
      ∙ ap (λ l. group id gs ++ l) (sym (either (is_committed id all))))
  | inr m ↦ elim (Bool-cases (r.header.txn_id == id)) [
    | inl e ↦
        let same = (==_iff r.header.txn_id id).0 e in
        rw (m, e, ap (λ k. is_committed k all) same) (mine (is_committed id all) same)
    | inr e ↦
        rw (m, e)
          (other (is_committed r.header.txn_id all) e
            ∙ sym (append-nil (group id gs))
            ∙ ap (λ l. group id gs ++ l) (sym (either (is_committed id all))))
  ]
]
  where
    either : (b : Bool) → (if b then [] else []) ≡ nothing_left
    either true = refl
    either false = refl

    mine :
        (b : Bool)
        → r.header.txn_id ≡ id
        → group id (if b then gs else push_back r.header.txn_id r gs)
          ≡ group id gs ++ (if b then [] else r ∷ [])
    mine true same = sym (append-nil (group id gs))
    mine false same =
        group-push_back id r.header.txn_id r gs ∙ rw ((==_iff r.header.txn_id id).1 same)

    other :
        (b : Bool)
        → (r.header.txn_id == id) ≡ false
        → group id (if b then gs else push_back r.header.txn_id r gs) ≡ group id gs
    other true e = refl
    other false e = group-push_back id r.header.txn_id r gs ∙ rw e

group-uncommitted :
    (id : ℕ) (all rs : List WalRecord) (gs : Groups)
    → group id (uncommitted all rs gs)
      ≡ group id gs ++ (if is_committed id all then [] else changes_of id rs)
unfolding uncommitted
group-uncommitted id all [] gs =
    sym (append-nil (group id gs))
    ∙ ap (λ l. group id gs ++ l) (sym (nothing (is_committed id all)))
  where
    nothing : (b : Bool) → (if b then [] else changes_of id []) ≡ nothing_left
    nothing true = refl
    nothing false = unfold changes_of in refl
group-uncommitted id all (r ∷ rs) gs =
    group-uncommitted id all rs (next_groups all r gs)
    ∙ ap (λ l. l ++ (if is_committed id all then [] else changes_of id rs))
        (group-next_groups id all r gs)
    ∙ append_assoc (group id gs) _ _
    ∙ ap (λ l. group id gs ++ l) (join (is_committed id all))
  where
    join :
        (b : Bool)
        → (if b then [] else change id r) ++ (if b then [] else changes_of id rs)
          ≡ (if b then [] else changes_of id (r ∷ rs))
    join true = refl
    join false = sym (changes_of-cons id r rs)

-- Of the records that a walk undoes, those of one transaction are its group from last to first.
of_txn-append :
    (id : ℕ) (rs ss : List WalRecord) → of_txn id (rs ++ ss) ≡ of_txn id rs ++ of_txn id ss
unfolding of_txn
of_txn-append id [] ss = refl
of_txn-append id (r ∷ rs) ss = ground (arith, of_txn-append id rs ss)

of_txn_self : (id : ℕ) (rs : List WalRecord) → AllOf id rs → of_txn id rs ≡ rs
unfolding of_txn
of_txn_self id [] A = refl
of_txn_self id (r ∷ rs) A =
    rw ((==_iff r.header.txn_id id).1 A.0) (ap (◌∷◌ r) (of_txn_self id rs A.1))

of_txn-other : (id k : ℕ) (rs : List WalRecord) → AllOf k rs → (k == id) ≡ false → of_txn id rs ≡ []
unfolding of_txn
of_txn-other id k [] A e = refl
of_txn-other id k (r ∷ rs) A e = rw (ap (λ n. n == id) A.0 ∙ e) (of_txn-other id k rs A.1 e)

AllOf-both : (id : ℕ) (rs ss : List WalRecord) → AllOf id rs → AllOf id ss → AllOf id (rs ++ ss)
AllOf-both id [] ss A B = B
AllOf-both id (r ∷ rs) ss A B = (A.0, AllOf-both id rs ss A.1 B)

AllOf-reverse : (id : ℕ) (rs : List WalRecord) → AllOf id rs → AllOf id (reverse rs)
AllOf-reverse id [] A = tt
AllOf-reverse id (r ∷ rs) A =
    subst (AllOf id) (sym (reverse-append (r ∷ []) rs))
      (AllOf-both id (reverse rs) (r ∷ []) (AllOf-reverse id rs A.1) (A.0, tt))

no_group : (id : ℕ) (gs : Groups) → has_key id gs ≡ false → group id gs ≡ []
unfolding has_key group
no_group id [] h = refl
no_group id ((k, rs) ∷ gs) h = ground (arith, no_group id gs)

of_txn-undone : (id : ℕ) (gs : Groups) → IsMap gs → of_txn id (undone gs) ≡ reverse (group id gs)
unfolding group
of_txn-undone id [] M = unfold of_txn in refl
of_txn-undone id ((k, rs) ∷ gs) M = elim (Bool-cases (k == id)) [
  | inl e ↦
      let same = (==_iff k id).0 e in
      of_txn-append id (reverse rs) (undone gs)
      ∙ rw e (
          ap₂ (λ a b. a ++ b)
            (of_txn_self id (reverse rs) (AllOf-reverse id rs (subst (λ n. AllOf n rs) same M.1)))
            (of_txn-undone id gs M.2
              ∙ ap reverse (no_group id gs (subst (λ n. has_key n gs ≡ false) same M.0)))
          ∙ append-nil (reverse rs))
  | inr e ↦
      of_txn-append id (reverse rs) (undone gs)
      ∙ rw e (
          ap (λ l. l ++ of_txn id (undone gs))
            (of_txn-other id k (reverse rs) (AllOf-reverse k rs M.1) e)
          ∙ of_txn-undone id gs M.2)
]

module _ {ℓ} {S : Type ℓ} (tables : Tables S) where
  undo_all-append :
      (rs ss : List WalRecord) (s : S)
      → undo_all tables (rs ++ ss) s ≡ (undo_all tables rs s >>= undo_all tables ss)
  unfolding undo_all
  undo_all-append [] ss s = refl
  undo_all-append (r ∷ rs) ss s =
      then_append (undo_record tables r s) (λ t. undo_all-append rs ss t)
    where
      then_append :
          (m : Result StorageError S)
          → ((t : S) → undo_all tables (rs ++ ss) t ≡ (undo_all tables rs t >>= undo_all tables ss))
          → (m >>= undo_all tables (rs ++ ss)) ≡ ((m >>= undo_all tables rs) >>= undo_all tables ss)
      then_append (ok t) ih = ih t
      then_append (err e) ih = refl

  undo_groups-undone :
      (gs : Groups) (s : S) → undo_groups tables gs s ≡ undo_all tables (undone gs) s
  unfolding undo_groups undo_all
  undo_groups-undone [] s = refl
  undo_groups-undone ((id, rs) ∷ gs) s =
      ap (λ f. undo_all tables (reverse rs) s >>= f) (fun_ext (undo_groups-undone gs))
      ∙ sym (undo_all-append (reverse rs) (undone gs) s)

-- Recovery is one pass over a list of records, and that list holds, in whatever order the hash
-- map is walked, for every transaction with a Commit record nothing, and for every other one all
-- its changes, from the last to the first. (So a transaction that was rolled back is undone once
-- more, and one that bears the number of a committed one is not undone.)
pub recover-undone {ℓ} :
    {S : Type ℓ} (tables : Tables S) (order : Groups → Groups) (log : List WalRecord)
    → IsWalk order
    → (rs : List WalRecord) × ((s : S) → recover tables order log s ≡ undo_all tables rs s)
      × ((id : ℕ)
          → of_txn id rs ≡ (if is_committed id log then [] else reverse (changes_of id log)))
unfolding recover
recover-undone tables order log W =
    let M = uncommitted-IsMap log log [] tt in
    let gs = uncommitted log log [] in
    (
      undone (order gs),
      undo_groups-undone tables (order gs),
      λ id.
          of_txn-undone id (order gs) (W.is_map gs M)
          ∙ ap reverse (W.same_groups gs id M ∙ group-uncommitted id log log [])
          ∙ split id (is_committed id log),
    )
  where
    split :
        (id : ℕ) (b : Bool)
        → reverse (group id [] ++ (if b then [] else changes_of id log))
          ≡ (if b then [] else reverse (changes_of id log))
    split id true = unfold group in refl
    split id false = unfold group in refl
