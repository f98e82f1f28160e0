-- ===== src/VanillaDate/Cached/Laws.antt =====
-- The cache of dates beside the printing without it.
use cornelich.Common.{
  ℕ, ◌-◌, ◌%◌, ◌≡◌, inl, inr, refl, ap, ◌∙◌, arith, ◌==◌, Option, none, some, Bool-cases, List, [],
  ◌∷◌, map,
}
use mathlib.Core.Path.{ap₂}
use native.Mathlib.Decide.{ℕ_discrete}
use cornelich.Settings.{CycleFormatter}
use cornelich.VanillaDate.{DateLibrary, date_from_cycle_impl}
use cornelich.VanillaDate.Cached.{
  Node, Nodes, store_node, print_and_store, serve, date_from_cycle, answers, cache_size,
}

module _ (lib : DateLibrary) (hash : ℕ → ℕ) (f : CycleFormatter) where
  -- Each node holds the date of its cycle.
  pub record IsSound (nodes : Nodes) : Type 0 where
    pub texts :
        (i : ℕ) (node : Node)
        → nodes i ≡ some node
        → node.text ≡ date_from_cycle_impl lib f node.cycle

  store_node-IsSound :
      {nodes : Nodes} (i : ℕ) (node : Node)
      → IsSound nodes
      → node.text ≡ date_from_cycle_impl lib f node.cycle
      → IsSound (store_node i node nodes)
  unfolding store_node
  store_node-IsSound {nodes} i node s h = record {
    texts = λ j m e. elim (ℕ_discrete i j) [
      | yes p ↦ ground (arith, s.texts j m)
      | no p ↦ ground (arith, s.texts j m)
    ];
  }

  print_and_store-IsSound :
      (cycle : ℕ) {nodes : Nodes}
      → IsSound nodes
      → IsSound (print_and_store lib hash f cycle nodes).0
  unfolding print_and_store
  print_and_store-IsSound cycle s = store_node-IsSound _ _ s refl

  -- A node loaded earlier serves as well as one of now: other threads may have stored in between.
  serve-IsSound :
      (o : Option Node) (cycle : ℕ) {nodes : Nodes}
      → ((node : Node) → o ≡ some node → node.text ≡ date_from_cycle_impl lib f node.cycle)
      → IsSound nodes
      → IsSound (serve lib hash f o cycle nodes).0
        × ((serve lib hash f o cycle nodes).1 ≡ date_from_cycle_impl lib f cycle)
  unfolding serve
  serve-IsSound none cycle h s = (print_and_store-IsSound cycle s, refl)
  serve-IsSound (some cached) cycle {nodes} h s = elim (Bool-cases (cached.cycle == cycle)) [
    | inl same ↦ rw same (s, h cached refl ∙ ap (date_from_cycle_impl lib f) (ground arith))
    | inr other ↦ rw other (print_and_store-IsSound cycle s, refl)
  ]

  -- A call keeps the array sound and answers the date that is printed without it.
  date_from_cycle-IsSound :
      (cycle : ℕ) {nodes : Nodes}
      → IsSound nodes
      → IsSound (date_from_cycle lib hash f cycle nodes).0
        × ((date_from_cycle lib hash f cycle nodes).1 ≡ date_from_cycle_impl lib f cycle)
  unfolding date_from_cycle
  date_from_cycle-IsSound cycle {nodes} s =
      serve-IsSound (nodes (hash cycle % (cache_size - 1))) cycle
        (s.texts (hash cycle % (cache_size - 1))) s

  -- Whatever the calls and the hash, and whatever sound nodes the array of `date_from_cycle`
  -- holds at first (none, or those of other threads), every answer is the date that is printed
  -- without the cache.
  pub answers-map :
      (cycles : List ℕ) {nodes : Nodes}
      → IsSound nodes
      → answers lib hash f cycles nodes ≡ map (date_from_cycle_impl lib f) cycles
  unfolding answers
  answers-map [] s = refl
  answers-map (c ∷ cycles) {nodes} s =
      let (sound, text) = date_from_cycle-IsSound c s in ap₂ (◌∷◌) text (answers-map cycles sound)
