-- ===== src/Artifacts/Distinct.antt =====
-- Each artifact has a directory name of its own, below the collection's directory.
use rwx.Prelude.{
  ℕ, suc, ◌+◌, Bool, true, false, ◌&&◌, not, some, List, [], ◌∷◌, ◌++◌, ◌==◌, nat_eq, bytes_eq,
  bytes_beq_iff, Bytes, all, any-append, length, Bool-cases, inl, inr, ◌≡◌, refl, ◌∙◌, arith,
}
use rwx.Prelude.Dict.{Dict, get, put}
use rwx.Artifacts.Names.{
  base_names, is_in, numbered, choose_name, choose_names, first_suffix, output_names,
}
use rwx.Artifacts.Components.{is_component, numbered-is_component, base_names-is_component}
use rwx.Artifacts.FreeNames.{count_from-length, free_name-rounds}

-- No name twice.
unfoldable pub distinct : List Bytes → Bool
distinct [] = true
distinct (name ∷ names) = not (is_in names name) && distinct names

free_of_used :
    (reserved used : List Bytes) (name : Bytes)
    → is_in (reserved ++ used) name ≡ false
    → is_in used name ≡ false
unfolding is_in
free_of_used reserved used name h = ground (arith, h, any-append (λ n. n == name) reserved used)

choose_name-free :
    (reserved used : List Bytes) (next_suffix : Dict Bytes ℕ) (base_name : Bytes)
    → is_component base_name ≡ true
    → (name : Bytes) × (next_suffix' : Dict Bytes ℕ) × (choose_name reserved used next_suffix
          base_name
        ≡ some (name, next_suffix'))
      × (is_in used name ≡ false)
      × (is_component name ≡ true)
unfolding choose_name
choose_name-free reserved used next_suffix base_name c = elim (Bool-cases (is_in used base_name)) [
  | inr free ↦ (base_name, next_suffix, ground (arith, free), free, c)
  | inl taken ↦
      let suffix = first_suffix (get next_suffix base_name) in
      let (k, found, free) =
        free_name-rounds (suc (length (reserved ++ used))) (reserved ++ used) base_name suffix
          (omega (arith, count_from-length base_name suffix (reserved ++ used))) in
      (
        numbered base_name k,
        put next_suffix base_name (k + 1),
        ground (arith, taken, found),
        free_of_used reserved used (numbered base_name k) free,
        numbered-is_component base_name k c,
      )
]

abbrev avoids : List Bytes → List Bytes → Bool
avoids used names = all (λ n. not (is_in used n)) names

avoids-cons :
    (name : Bytes) (used names : List Bytes)
    → avoids (name ∷ used) names ≡ true
    → (avoids used names ≡ true) × (is_in names name ≡ false)
unfolding is_in
avoids-cons name used [] h = (refl, refl)
avoids-cons name used (n ∷ names) h =
    ground (arith, h, avoids-cons name used names, bytes_beq_iff n name, bytes_beq_iff name n)

choose_names-distinct :
    (reserved used : List Bytes) (next_suffix : Dict Bytes ℕ) (base_names : List Bytes)
    → all is_component base_names ≡ true
    → (names : List Bytes) × (choose_names reserved used next_suffix base_names ≡ some names)
      × (length names ≡ length base_names)
      × (avoids used names ≡ true)
      × (distinct names ≡ true)
      × (all is_component names ≡ true)
unfolding choose_names distinct
choose_names-distinct reserved used next_suffix [] c = ([], refl, refl, refl, refl, refl)
choose_names-distinct reserved used next_suffix (base_name ∷ base_names) c =
    let (name, next_suffix', chosen, free, fits) =
      choose_name-free reserved used next_suffix base_name (ground (arith, c)) in
    let (names, rest, len, off, apart, all_fit) =
      choose_names-distinct reserved (name ∷ used) next_suffix' base_names (ground (arith, c)) in
    let (kept, new) = avoids-cons name used names off in
    (
      name ∷ names,
      ground (arith, chosen, rest),
      ground (arith, len),
      ground (arith, free, kept),
      ground (arith, new, apart),
      ground (arith, fits, all_fit),
    )

length-base_names : (i : ℕ) (keys : List Bytes) → length (base_names i keys) ≡ length keys
unfolding base_names
length-base_names i [] = refl
length-base_names i (key ∷ keys) = ground (arith, length-base_names (i + 1) keys)

-- The search for names always ends, with one name for each artifact: no two are equal, and each is the
-- name of one directory that lies directly below the collection's, whatever the keys are.
pub output_names-distinct :
    (keys : List Bytes)
    → (names : List Bytes) × (output_names keys ≡ some names)
      × (length names ≡ length keys)
      × (distinct names ≡ true)
      × (all is_component names ≡ true)
unfolding output_names
output_names-distinct keys =
    let (names, found, len, _, apart, fit) =
      choose_names-distinct (base_names 0 keys) [] [] (base_names 0 keys)
        (base_names-is_component 0 keys) in
    (names, found, len ∙ length-base_names 0 keys, apart, fit)
