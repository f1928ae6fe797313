-- ===== src/Adlist/Tests.antt =====
-- The theorems on linked lists, at a list of three nodes.
use credish.Prelude.{ℕ, ◌≡◌, refl, none, some, [], ◌∷◌, arith, if◌then◌else◌, ◌==◌}
use credish.Adlist.{Nodes, Adlist, adlist_delete_node}
use credish.Adlist.Linked.{Cells, Linked, IsList}
use credish.Adlist.Remove.{adlist_delete_node_lem}

abbrev nodes : Nodes ℕ
nodes a =
    if a == 0
    then some (record { prev = none; next = some 1; value = 7 })
    else if a == 1
    then some (record { prev = some 0; next = some 2; value = 8 })
    else if a == 2
    then some (record { prev = some 1; next = none; value = 9 })
    else none

abbrev three : Adlist ℕ
three = record { head = some 0; tail = some 2; len = 3; nodes = nodes; fresh = 3 }

abbrev cells : Cells ℕ
cells = (0, 7) ∷ (1, 8) ∷ (2, 9) ∷ []

three-IsList : IsList three cells
unfolding Linked
three-IsList = record {
  head = refl;
  tail = refl;
  len = refl;
  linked = (refl, (refl, (refl, tt)));
  apart = refl;
  old = λ a h. ground (arith, h);
}

adlist_delete_node_lem_example :
    (list' : Adlist ℕ) × (adlist_delete_node three 1 ≡ some list')
    × IsList list' ((0, 7) ∷ (2, 9) ∷ [])
adlist_delete_node_lem_example = adlist_delete_node_lem ((0, 7) ∷ []) ((2, 9) ∷ []) 1 8 three-IsList
