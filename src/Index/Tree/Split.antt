-- ===== src/Index/Tree/Split.antt =====
-- `SplitLeaf`: the two leaves have together what was in the list that is split.
use akatsuki_db.Base.{
  ℕ, ◌+◌, ◌<◌, ◌≡◌, List, [], ◌∷◌, ◌++◌, Bytes, ℤ, length, write_at, le_bytes, bits_of, negsuc,
  Result, ok, err,
}
use akatsuki_db.Storage.Page.{page_size}
use akatsuki_db.Index.Node.{Node, InsertEntry, get_entry}
use akatsuki_db.Index.Node.Writes.{IsLeaf, IsEntry}
use akatsuki_db.Index.Node.Lists.{tabulate}
use akatsuki_db.Index.Node.Leaf.{entries}
use akatsuki_db.Index.Tree.{node_at}
use akatsuki_db.Storage.LruCache.{Address}
use akatsuki_db.Storage.BufferPool.{BufferPool}

abbrev pub AreEntries : List InsertEntry → Type 0
AreEntries [] = Unit {0}
AreEntries (e ∷ es) = IsEntry e × AreEntries es

-- The entries from `i` on that the list `es` was written to.
abbrev Holds : Node → ℕ → List InsertEntry → Node → Type 0
Holds r i es n =
    IsLeaf r
    × ((j : ℕ) → j < i → get_entry j r ≡ get_entry j n)
    × (tabulate (length es) (λ j. get_entry (i + j) r) ≡ es)

module _ (id : ℤ) (fresh : Node) (sized : length fresh.bytes ≡ page_size) where
  -- The bytes of a new leaf, but for its type.
  abbrev minus_one : Bytes
  minus_one = le_bytes 4 (bits_of 32 (negsuc 0))

  abbrev linked : Bytes
  linked = write_at 11 minus_one (write_at 7 minus_one fresh.bytes)

  abbrev numbered : Bytes
  numbered = write_at 15 (le_bytes 4 (bits_of 32 id)) linked

-- What holds of every value that a call can return.
abbrev pub AllResults : {X V : Type 0} → (V → Type 0) → Result X V → Type 0
AllResults P (ok v) = P v
AllResults P (err x) = Unit {0}

module _ (sort : List InsertEntry → List InsertEntry) (e : InsertEntry) (a : Address)
    (s : BufferPool) where
  -- The entries of the leaf and the new one, sorted.
  abbrev pub to_split : List InsertEntry
  to_split = sort (entries (node_at a s) ++ e ∷ [])

  abbrev pub HasKeyOf : InsertEntry → InsertEntry × BufferPool → Type 0
  HasKeyOf first result = result.0.key ≡ first.key
