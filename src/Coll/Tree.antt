-- ===== src/Coll/Tree.antt =====
-- zownc/crates/zown-vm/src/coll.rs: the tree of a `te` collection.
pub mod Shape
pub mod Place
pub mod Scan
pub mod Get
pub mod Split
pub mod Into
pub mod Put
pub mod Refines
use Prim.Native.Nat.{Ordering, lt, eq, gt}
use zown.Prelude.{
  ℕ, zero, suc, ◌+◌, ◌-◌, Bool, true, false, List, [], ◌∷◌, ◌++◌, Text, Option, none, some, length,
  get_elem?, take, ltb, ◌==◌, if◌then◌else◌, ◌&&◌, ◌>>=◌,
}
use zown.Buf.{set_elem?}
use zown.Coll.Store.{Elem, BNode, bnode, BNodes, none_left, more}
use zown.Coll.TextOrder.{compare_text, by_order}
use zown.Coll.Rows.{Row}

abbrev pub keys_of : BNode → List Row
keys_of (bnode leaf keys kids) = keys

-- `node.kids.len()`
abbrev pub count : BNodes → ℕ
count none_left = 0
count (more t ts) = suc (count ts)

-- `tree_count`
unfoldable mutual
  pub tree_count : BNode → ℕ
  tree_count (bnode leaf keys kids) = length keys + kids_count kids

  pub kids_count : BNodes → ℕ
  kids_count none_left = 0
  kids_count (more t ts) = tree_count t + kids_count ts

-- the `while` loop of `tree_get`: the keys that are less than `key`, up to one that is not
abbrev pub scan : Text → List Row → ℕ
scan key [] = 0
scan key (r ∷ rows) = by_order (compare_text key r.0) 0 0 (suc (scan key rows))

-- `node.keys[i]`, if it is `key`
abbrev pub found_at : Text → Option Row → Option Elem
found_at key none = none
found_at key (some r) = by_order (compare_text key r.0) none (some r.1) none

abbrev pub or_below : Bool → Option (Option Elem) → Option Elem → Option (Option Elem)
or_below leaf below (some e) = some (some e)
or_below leaf below none = if leaf then some none else below

-- `tree_get`; `none` is an index out of range
unfoldable mutual
  pub tree_get : BNode → Text → Option (Option Elem)
  tree_get (bnode leaf keys kids) key =
      let below = kid_get kids (scan key keys) key in
      or_below leaf below (found_at key (get_elem? keys (scan key keys)))

  pub kid_get : BNodes → ℕ → Text → Option (Option Elem)
  kid_get none_left i key = none
  kid_get (more t ts) zero key = tree_get t key
  kid_get (more t ts) (suc i) key = kid_get ts i key

-- `tree_walk`: the loop, and the last child
unfoldable mutual
  pub tree_walk : BNode → Option (List Row)
  tree_walk (bnode leaf keys kids) =
      let rows = walk_keys keys kids >>= λ a. walk_last kids >>= λ b. some (a ++ b) in
      if leaf then some keys else rows

  pub walk_keys : List Row → BNodes → Option (List Row)
  walk_keys [] kids = some []
  walk_keys (r ∷ rows) none_left = none
  walk_keys (r ∷ rows) (more t ts) =
      tree_walk t >>= λ a. walk_keys rows ts >>= λ b. some (a ++ r ∷ b)

  pub walk_last : BNodes → Option (List Row)
  walk_last none_left = none
  walk_last (more t none_left) = tree_walk t
  walk_last (more t (more u us)) = walk_last (more u us)

abbrev pub kid_at : BNodes → ℕ → Option BNode
kid_at none_left i = none
kid_at (more t ts) zero = some t
kid_at (more t ts) (suc i) = kid_at ts i

abbrev pub set_kid : BNodes → ℕ → BNode → Option BNodes
set_kid none_left i u = none
set_kid (more t ts) zero u = some (more u ts)
set_kid (more t ts) (suc i) u = set_kid ts i u >>= λ us. some (more t us)

-- `kids.insert(i, u)` and `keys.insert(i, r)`
abbrev pub insert_kid : BNodes → ℕ → BNode → Option BNodes
insert_kid ts zero u = some (more u ts)
insert_kid none_left (suc i) u = none
insert_kid (more t ts) (suc i) u = insert_kid ts i u >>= λ us. some (more t us)

abbrev pub insert_key : List Row → ℕ → Row → Option (List Row)
insert_key rows zero s = some (s ∷ rows)
insert_key [] (suc i) s = none
insert_key (r ∷ rows) (suc i) s = insert_key rows i s >>= λ ss. some (r ∷ ss)

-- `y.keys[1].clone()`, `y.keys.split_off(2)` and `y.keys.truncate(1)`
abbrev pub split_keys : List Row → Option (List Row × Row × List Row)
split_keys (a ∷ b ∷ rest) = some (a ∷ [], b, rest)
split_keys _ = none

-- `y.kids.split_off(2)`: what stays and what is cut off
abbrev pub split_kids : BNodes → Option (BNodes × BNodes)
split_kids (more t (more u rest)) = some (more t (more u none_left), rest)
split_kids _ = none

abbrev pub split_node : BNode → Option (BNode × Row × BNode)
split_node (bnode leaf keys kids) = do
  (left, median, right) ← split_keys keys
  (stay, cut) ← if leaf then some (kids, none_left) else split_kids kids
  some (bnode leaf left stay, median, bnode leaf right cut)

unfoldable pub split_child : BNode → ℕ → Option BNode
split_child (bnode leaf keys kids) i = do
  y ← kid_at kids i
  (left, median, z) ← split_node y
  stayed ← set_kid kids i left
  kids ← insert_kid stayed (suc i) z
  keys ← insert_key keys i median
  some (bnode leaf keys kids)

-- `slot.1 = val` where the key is found
abbrev pub overwrite : Text → Elem → List Row → Option (List Row)
overwrite key val [] = none
overwrite key val (r ∷ rows) =
    let rest = overwrite key val rows >>= λ ss. some (r ∷ ss) in
    by_order (compare_text key r.0) rest (some ((r.0, val) ∷ rows)) rest

-- `sort_by` of the keys; it keeps the order of those that are the same
abbrev pub sort_in : Row → List Row → List Row
sort_in r [] = r ∷ []
sort_in r (s ∷ rows) =
    by_order (compare_text r.0 s.0) (r ∷ s ∷ rows) (r ∷ s ∷ rows) (s ∷ sort_in r rows)

abbrev pub sort_keys : List Row → List Row
sort_keys [] = []
sort_keys (r ∷ rows) = sort_in r (sort_keys rows)

abbrev pub or_sorted : Text → Elem → List Row → Option (List Row) → List Row
or_sorted key val keys (some written) = written
or_sorted key val keys none = sort_keys (keys ++ (key, val) ∷ [])

-- the `while` loop of `insert_nonfull`, from the right; its `i` is one less
abbrev pub scan_back : Text → List Row → ℕ
scan_back key [] = 0
scan_back key (r ∷ rows) =
    let behind = scan_back key rows in
    if behind == 0 then by_order (compare_text key r.0) 0 1 1 else suc behind

-- `node.keys[i].1 = val`, if that key is `key`
abbrev pub write_at : Text → Elem → List Row → ℕ → Option (List Row)
write_at key val [] i = none
write_at key val (r ∷ rows) zero =
    by_order (compare_text key r.0) none (some ((r.0, val) ∷ rows)) none
write_at key val (r ∷ rows) (suc i) = write_at key val rows i >>= λ ss. some (r ∷ ss)

-- `if i >= 0 && node.keys[i].0 == key`
abbrev pub write_back : Text → Elem → List Row → ℕ → Option (List Row)
write_back key val keys zero = none
write_back key val keys (suc i) = write_at key val keys i

-- a call of `insert_nonfull` on `node.kids[i]`
abbrev pub into : (BNode → Option BNode) → BNode → ℕ → Option BNode
into call (bnode leaf keys kids) i = do
  t ← kid_at kids i
  u ← call t
  kids ← set_kid kids i u
  some (bnode leaf keys kids)

-- `if key > node.keys[i].0 { i += 1; }` and the call
abbrev pub beside : (BNode → Option BNode) → Text → BNode → ℕ → Option BNode
beside call key (bnode leaf keys kids) i = do
  median ← get_elem? keys i
  into call (bnode leaf keys kids) (by_order (compare_text key median.0) i i (suc i))

abbrev pub or_beside :
    (BNode → Option BNode) → Text → Bool → List Row → BNodes → ℕ → Option (List Row) → Option BNode
or_beside call key leaf keys kids i (some written) = some (bnode leaf written kids)
or_beside call key leaf keys kids i none = beside call key (bnode leaf keys kids) i

-- `if key == node.keys[i].0`, once the child is split
abbrev pub after_split : (BNode → Option BNode) → Text → Elem → BNode → ℕ → Option BNode
after_split call key val (bnode leaf keys kids) i =
    or_beside call key leaf keys kids i (write_at key val keys i)

abbrev pub descend : (BNode → Option BNode) → Text → Elem → BNode → ℕ → Option BNode
descend call key val (bnode leaf keys kids) i =
    let split = split_child (bnode leaf keys kids) i >>= λ node. after_split call key val node i in
    let stay = into call (bnode leaf keys kids) i in
    kid_at kids i >>= λ t. if length (keys_of t) == 3 then split else stay

abbrev pub or_descend :
    (BNode → Option BNode) → Text → Elem → BNodes → List Row → ℕ → Option (List Row) → Option BNode
or_descend call key val kids keys i (some written) = some (bnode false written kids)
or_descend call key val kids keys i none = descend call key val (bnode false keys kids) i

-- `insert_nonfull`; the fuel is for the height of the tree
unfoldable pub insert_nonfull : ℕ → Text → Elem → BNode → Option BNode
insert_nonfull zero key val node = none
insert_nonfull (suc f) key val (bnode true keys kids) =
    some (bnode true (or_sorted key val keys (overwrite key val keys)) kids)
insert_nonfull (suc f) key val (bnode false keys kids) =
    let i = scan_back key keys in
    or_descend (insert_nonfull f key val) key val kids keys i (write_back key val keys i)

-- the height of the first branch
unfoldable mutual
  pub height : BNode → ℕ
  height (bnode leaf keys kids) = kids_height kids

  pub kids_height : BNodes → ℕ
  kids_height none_left = 0
  kids_height (more t ts) = suc (height t)

unfoldable pub tree_put : BNode → Text → Elem → Option BNode
tree_put root key val =
    if length (keys_of root) == 3
    then (do
      grown ← split_child (bnode false [] (more root none_left)) 0
      insert_nonfull (height root + 2) key val grown)
    else insert_nonfull (height root + 1) key val root
