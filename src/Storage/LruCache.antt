-- ===== src/Storage/LruCache.antt =====
-- `LruCache` (include/AkatsukiDB/Storage/LruCache.hpp, src/Storage/LruCache.cpp). The list that
-- hangs between the sentinels is the sequence of its nodes from `head->next` to `tail->prev`; the
-- hash map from ids to nodes is a search in it. A page is the address of a shared object.
pub mod Laws
pub mod Recency
use akatsuki_db.Base.{
  ℕ, Bool, true, false, ◌&&◌, Option, none, some, List, [], ◌∷◌, length, map, ℤ, eqb_ℤ, leb,
  if◌then◌else◌, Result, ok, err,
}
use akatsuki_db.Storage.PageManager.{StorageError, null_pointer}

abbrev pub Address : Type 0
Address = ℕ

pub record Node : Type 0 where
  pub page_id : ℤ
  pub page : Address

pub record LruCache : Type 0 where
  pub capacity : ℕ
  pub nodes : List Node

-- `cache.find(pageId)`
unfoldable pub find : ℤ → List Node → Option Address
find id [] = none
find id (n ∷ ns) = if eqb_ℤ n.page_id id then some n.page else find id ns

-- `Remove(node)`, the node known by its id
unfoldable pub remove : ℤ → List Node → List Node
remove id [] = []
remove id (n ∷ ns) = if eqb_ℤ n.page_id id then ns else n ∷ remove id ns

abbrev pub add_front : ℤ → Address → List Node → List Node
add_front id a ns = record { page_id = id; page = a } ∷ ns

-- `tail->prev`, unless that is the head sentinel, and the list without it
unfoldable pub pop_last : List Node → Option (Node × List Node)
pop_last [] = none
pop_last (n ∷ ns) = elim (pop_last ns) [
  | none ↦ some (n, [])
  | some (last, rest) ↦ some (last, n ∷ rest)
]

unfoldable pub get : ℤ → LruCache → Option (Address × LruCache)
get id c = elim (find id c.nodes) [
  | none ↦ none
  | some a ↦ some (a, record c { nodes = add_front id a (remove id c.nodes) })
]

module _ {ℓ} {S : Type ℓ} (is_dirty : S → Address → Bool) (on_evict : Address → S → S) where
  -- With `S` the world that the callback `OnEvict` changes. A full cache of capacity 0 takes the
  -- head sentinel for the last node and follows its null pointer.
  unfoldable pub evict : LruCache → S → Result StorageError (LruCache × S)
  evict c s = elim (pop_last c.nodes) [
    | none ↦ err null_pointer
    | some (last, rest) ↦
        ok (record c { nodes = rest }, if is_dirty s last.page then on_evict last.page s else s)
  ]

  unfoldable pub make_room : LruCache → S → Result StorageError (LruCache × S)
  unfolding evict
  make_room c s = if leb c.capacity (length c.nodes) then evict c s else ok (c, s)

  unfoldable pub put : ℤ → Address → LruCache → S → Result StorageError (LruCache × S)
  unfolding make_room
  put id a c s = elim (find id c.nodes) [
    | some _ ↦ ok (record c { nodes = add_front id a (remove id c.nodes) }, s)
    | none ↦ elim (make_room c s) [
      | err e ↦ err e
      | ok (c', s') ↦ ok (record c' { nodes = add_front id a c'.nodes }, s')
    ]
  ]

-- `Pages()`
abbrev pub pages : LruCache → List Address
pages c = map (λ n. n.page) c.nodes
