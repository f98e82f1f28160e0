-- ===== src/VanillaDate/Cached.antt =====
-- cornelich/vanilla_date.h, vanilla_date.cpp: `cycle_formatter::date_from_cycle`, which keeps the dates
-- that were printed last in an array, one for each value of a hash.
-- Between the load and the store of one thread another may store too: `serve` takes the node that was
-- loaded and the array as it is by then.
pub mod Laws
use cornelich.Common.{ℕ, ◌-◌, ◌%◌, ◌==◌, if◌then◌else◌, Option, none, some, List, [], ◌∷◌}
use mathlib.Core.Logic.{ite}
use native.Mathlib.Decide.{ℕ_discrete}
use cornelich.Files.{Name}
use cornelich.Settings.{CycleFormatter}
use cornelich.VanillaDate.{DateLibrary, date_from_cycle_impl}

-- `CACHE_SIZE`
abbrev pub cache_size : ℕ
cache_size = 32

-- `node_t`
pub record Node : Type 0 where
  pub cycle : ℕ
  pub text : Name

-- `m_cache`: the nodes by their place, none for an empty pointer.
abbrev pub Nodes : Type 0
Nodes = ℕ → Option Node

abbrev pub no_nodes : Nodes
no_nodes i = none

-- `std::atomic_store(&m_cache[hash], node)`
unfoldable pub store_node : ℕ → Node → Nodes → Nodes
store_node i node nodes j = ite (ℕ_discrete i j) (some node) (nodes j)

-- `hash` is `std::hash<std::int64_t>`.
module _ (lib : DateLibrary) (hash : ℕ → ℕ) (f : CycleFormatter) where
  -- A cache miss.
  unfoldable pub print_and_store : ℕ → Nodes → Nodes × Name
  unfolding store_node
  print_and_store cycle nodes =
      let node : Node = record { cycle = cycle; text = date_from_cycle_impl lib f cycle } in
      (store_node (hash cycle % (cache_size - 1)) node nodes, node.text)

  -- What follows the load of the node.
  unfoldable pub serve : Option Node → ℕ → Nodes → Nodes × Name
  unfolding print_and_store
  serve none cycle nodes = print_and_store cycle nodes
  serve (some cached) cycle nodes =
      if cached.cycle == cycle then (nodes, cached.text) else print_and_store cycle nodes

  unfoldable pub date_from_cycle : ℕ → Nodes → Nodes × Name
  unfolding serve
  date_from_cycle cycle nodes = serve (nodes (hash cycle % (cache_size - 1))) cycle nodes

  -- The answers to a row of calls, each of which finds the array as the call before left it.
  unfoldable pub answers : List ℕ → Nodes → List Name
  unfolding date_from_cycle
  answers [] nodes = []
  answers (c ∷ cycles) nodes =
      let (nodes', text) = date_from_cycle c nodes in text ∷ answers cycles nodes'
