-- ===== src/Activity/Cache.antt =====
-- problemcache/lr_cache.go: the problems that were seen lately, in a doubly linked list with a map
-- into it. A call's time.Now() is an argument; the mutex makes each call one step.
use crane_oss.Base.{
  ℕ, ◌+◌, String, Bool, true, false, Option, none, some, List, [], ◌∷◌, ◌++◌, ◌==◌, ltb, eqb,
  length, if◌then◌else◌, not,
}
use crane_oss.Base.Tables.{find, filter}

-- `id` is the identity of the allocated node.
pub record Node : Type 0 where
  pub id : ℕ
  pub key : String
  pub last_seen : ℕ

-- `nodes` is the list from LR.Next to MR.Prev, and `index` are the entries of the map Cache, each a
-- pointer to a node under its own key. `fresh` numbers the next allocation.
pub record Cache : Type 0 where
  pub nodes : List Node
  pub index : List Node
  pub capacity : ℕ
  pub ttl : ℕ
  pub fresh : ℕ

abbrev pub has_key : String → Node → Bool
has_key key n = n.key == key

abbrev pub has_id : ℕ → Node → Bool
has_id id n = eqb n.id id

abbrev pub other_key : String → Node → Bool
other_key key n = not (n.key == key)

abbrev pub other_id : ℕ → Node → Bool
other_id id n = not (eqb n.id id)

unfoldable pub new_cache : ℕ → ℕ → Cache
new_cache capacity ttl = record {
  nodes = [];
  index = [];
  capacity = capacity;
  ttl = ttl;
  fresh = 0;
}

-- removeNode: the node is unlinked, and the entry of its key deleted, whichever node it leads to.
abbrev pub remove_node : Node → Cache → Cache
remove_node n c = record c {
  nodes = filter (other_id n.id) c.nodes;
  index = filter (other_key n.key) c.index;
}

-- addMR
abbrev pub add_mr : ℕ → String → Cache → Cache
add_mr now key c =
    let n : Node = record { id = c.fresh; key = key; last_seen = now } in
    record c {
      nodes = c.nodes ++ n ∷ [];
      index = filter (other_key key) c.index ++ n ∷ [];
      fresh = c.fresh + 1;
    }

abbrev pub lookup : String → Cache → Option Node
lookup key c = find (has_key key) c.index

-- Go's `lrc.Capacity == len(lrc.Cache)` and the removal of LR.Next. In an empty list LR.Next is the
-- sentinel MR, whose Next is nil: the removal panics, which is `none`.
unfoldable pub evict : Cache → Option Cache
evict c = if eqb c.capacity (length c.index) then drop_first c.nodes else some c
  where
    drop_first : List Node → Option Cache
    drop_first [] = none
    drop_first (n ∷ ns) = some (remove_node n c)

-- Record, whose two calls of addMR read the clock each.
unfoldable pub record_problem : ℕ → ℕ → String → Cache → Option Cache
record_problem now later key c = elim (evict (renewed (lookup key c))) [
  | none ↦ none
  | some c' ↦ some (add_mr later key c')
]
  where
    renewed : Option Node → Cache
    renewed none = c
    renewed (some n) = add_mr now key (remove_node n c)

unfoldable pub seen_recently : ℕ → String → Cache → Bool × Cache
seen_recently now key c = elim (lookup key c) [
  | none ↦ (false, c)
  | some n ↦ (true, add_mr now key (remove_node n c))
]

-- PeriodicRun: expired nodes are removed from LR on, up to the first that is not.
unfoldable pub expire : ℕ → List Node → Cache → Cache
expire now [] c = c
expire now (n ∷ ns) c =
    let rest = expire now ns (remove_node n c) in if ltb (n.last_seen + c.ttl) now then rest else c

unfoldable pub periodic_run : ℕ → Cache → Cache
periodic_run now c = expire now c.nodes c
