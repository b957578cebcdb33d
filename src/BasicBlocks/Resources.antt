-- ===== src/BasicBlocks/Resources.antt =====
-- renderComputeResources of src/basic_block_analysis.cc: the compute units, and the work groups that ran on
-- them, as JSON. The nested maps are read off the flat map of the analysis, whose keys are the numbers
-- of the XCC, the SE and the CU and the bytes of the work group, by which memcmp orders the work groups.
use omniprobe.Prelude.{
  ℕ, ◌+◌, ◌*◌, ◌/◌, List, [], ◌∷◌, ◌++◌, Bytes, codes, if◌then◌else◌, ◌==◌, length,
}
use omniprobe.Prelude.Digits.{decimal}

-- The last character is taken off; the texts here are never empty.
unfoldable pub pop_back : Bytes → Bytes
pop_back [] = []
pop_back (c ∷ []) = []
pop_back (c ∷ d ∷ s) = c ∷ pop_back (d ∷ s)

-- The work groups of a compute unit, each with its waves, and the maps above them.
abbrev pub Groups : Type 0
Groups = List (Bytes × List ℕ)

abbrev pub Units : Type 0
Units = List (ℕ × Groups)

abbrev pub Engines : Type 0
Engines = List (ℕ × Units)

abbrev pub Dies : Type 0
Dies = List (ℕ × Engines)

-- The map by the first number of the keys, in a list that is in the order of the keys.
unfoldable pub add_first : ℕ → Bytes → List ℕ → List (ℕ × Groups) → List (ℕ × Groups)
add_first n key waves [] = (n, (key, waves) ∷ []) ∷ []
add_first n key waves ((m, groups) ∷ more) =
    if n == m
    then (m, (key, waves) ∷ groups) ∷ more
    else (n, (key, waves) ∷ []) ∷ (m, groups) ∷ more

unfoldable pub by_first : Groups → List (ℕ × Groups)
unfolding add_first
by_first [] = []
by_first (([], waves) ∷ rest) = by_first rest
by_first ((n ∷ key, waves) ∷ rest) = add_first n key waves (by_first rest)

abbrev pub each_value : {A B : Type 0} → (A → B) → List (ℕ × A) → List (ℕ × B)
each_value f [] = []
each_value f ((n, a) ∷ rest) = (n, f a) ∷ each_value f rest

unfoldable pub nested : Groups → Dies
unfolding by_first
nested resources =
    each_value (λ engines. each_value by_first (by_first engines)) (by_first resources)

-- The numbers of a work group, from the bytes of its key.
abbrev pub triple_text : Bytes → Bytes
triple_text (x ∷ x_high ∷ y ∷ y_high ∷ z ∷ z_high ∷ rest) =
    codes "\"("
    ++ (decimal (x + 256 * x_high)
        ++ (codes ","
            ++ (decimal (y + 256 * y_high)
                ++ (codes "," ++ (decimal (z + 256 * z_high) ++ codes ")\"")))))
triple_text key = []

-- The loop over the work groups.
unfoldable pub render_groups : Groups → Bytes → Bytes
render_groups [] ss = ss
render_groups ((key, waves) ∷ rest) ss = render_groups rest (ss ++ (triple_text key ++ codes ","))

unfoldable pub total_waves : Groups → ℕ
total_waves [] = 0
total_waves ((key, waves) ∷ rest) = length waves + total_waves rest

abbrev pub unit_head : ℕ → Bytes
unit_head cu = codes "{\"cu_" ++ (decimal cu ++ codes "\": [")

abbrev pub unit_tail : Groups → Bytes
unit_tail groups =
    codes "],"
    ++ (codes "\"avg_wave_count\": " ++ (decimal (total_waves groups / length groups) ++ codes "}"))

-- The loops over the compute units, the shader engines and the dies.
unfoldable pub render_units : Units → Bytes → Bytes
unfolding render_groups pop_back total_waves
render_units [] ss = ss
render_units ((cu, groups) ∷ rest) ss =
    render_units rest
      (pop_back (render_groups groups (ss ++ unit_head cu)) ++ (unit_tail groups ++ codes ","))

unfoldable pub render_engines : Engines → Bytes → Bytes
unfolding render_units pop_back
render_engines [] ss = ss
render_engines ((se, units) ∷ rest) ss = render_engines rest (
    pop_back (render_units units (ss ++ (codes "{\"se_" ++ (decimal se ++ codes "\": ["))))
    ++ codes "]},")

unfoldable pub render_dies : Dies → Bytes → Bytes
unfolding render_engines pop_back
render_dies [] ss = ss
render_dies ((xcc, engines) ∷ rest) ss = render_dies rest (
    pop_back (render_engines engines (ss ++ (codes "{\"xcc_" ++ (decimal xcc ++ codes "\": ["))))
    ++ codes "]},")

abbrev pub resources_head : Bytes → ℕ → Bytes
resources_head kernel dispatch_id =
    codes "{\"kernel\": \""
    ++ (kernel
        ++ (codes "\", \"dispatch\": " ++ (decimal dispatch_id ++ codes ", \"resources\":[")))

-- What is written to the log file.
unfoldable pub render_compute_resources : Bytes → ℕ → Groups → Bytes
unfolding render_dies nested pop_back
render_compute_resources kernel dispatch_id resources =
    pop_back (render_dies (nested resources) (resources_head kernel dispatch_id)) ++ codes "]}\n"
