-- ===== src/Prelude/FilePath.antt =====
-- Go's `path/filepath` on Unix, as far as the program uses it.
use mathlib.Core.Path.{◌≡◌, refl}
use mathlib.Core.Bool.{Bool, true, false, ◌&&◌, ◌||◌, not}
use mathlib.Core.List.{List, [], ◌∷◌, ◌++◌, reverse, reverse_aux}
use native.Mathlib.Omega.{arith}
use mathlib.Core.Logic.{inl, inr}
use rwx.Prelude.Tests.{if◌then◌else◌, Bool-cases}
use rwx.Prelude.Classes.{Bytes, ◌==◌, nat_eq, bytes_eq, bytes_beq}
use Prim.Native.Nat.{suc}
use mathlib.Core.Option.{none, some}
use rwx.Prelude.Lists.{all, any, take}
use rwx.Prelude.Text.{codes, has_prefix, has_byte, split, last_index}
use rwx.Prelude.Cut.{split-append, split-free, has_byte-append}

-- filepath.IsAbs
unfoldable pub is_abs : Bytes → Bool
unfolding has_prefix
is_abs path = has_prefix path (codes "/")

-- The parts between slashes; `part` is the one being read.
parts : Bytes → Bytes → List Bytes
parts part [] = part ∷ []
parts part (c ∷ s) = elim (c == b'/') [
  | true ↦ part ∷ parts [] s
  | false ↦ parts (part ++ c ∷ []) s
]

-- One part against the parts kept so far, the last one first.
keep_part : Bool → List Bytes → Bytes → List Bytes
keep_part rooted [] part =
    if part == [] || part == codes "." || (rooted && part == codes "..") then [] else part ∷ []
keep_part rooted (top ∷ kept) part =
    if part == [] || part == codes "."
    then top ∷ kept
    else if not (part == codes "..") || top == codes ".."
    then part ∷ top ∷ kept
    else kept

keep_parts : Bool → List Bytes → List Bytes → List Bytes
keep_parts rooted kept [] = kept
keep_parts rooted kept (part ∷ rest) = keep_parts rooted (keep_part rooted kept part) rest

join_parts : List Bytes → Bytes
join_parts [] = []
join_parts (part ∷ []) = part
join_parts (part ∷ next ∷ rest) = part ++ (b'/' ∷ join_parts (next ∷ rest))

-- filepath.Clean
unfoldable pub clean : Bytes → Bytes
unfolding is_abs parts keep_part keep_parts join_parts bytes_beq
clean path =
    let kept = join_parts (reverse (keep_parts (is_abs path) [] (parts [] path))) in
    if is_abs path then b'/' ∷ kept else if kept == [] then codes "." else kept

-- filepath.Join of two elements
unfoldable pub join : Bytes → Bytes → Bytes
unfolding clean
join [] [] = []
join [] (c ∷ path) = clean (c ∷ path)
join (d ∷ dir) path = clean ((d ∷ dir) ++ (b'/' ∷ path))

-- filepath.Dir
unfoldable pub dir : Bytes → Bytes
unfolding clean last_index
dir path = elim (last_index path b'/') [ none ↦ clean [] | some i ↦ clean (take (suc i) path) ]

-- A joined path is absolute if its directory is.
pub is_abs-join : (dir path : Bytes) → is_abs dir ≡ true → is_abs (join dir path) ≡ true
unfolding is_abs join
is_abs-join [] path h = ground arith
is_abs-join (d ∷ dir) path h = ground arith

-- A part that is one name: no slash, and not the parent.
is_proper : Bytes → Bool
is_proper part = not (has_byte b'/' part) && not (part == codes "..")

is_free : Bytes → Bool
is_free part = not (has_byte b'/' part)

parts-free : (part s : Bytes) → has_byte b'/' part ≡ false → all is_free (parts part s) ≡ true
unfolding parts has_byte is_free
parts-free part [] h = ground (arith, h)
parts-free part (c ∷ s) h = elim (Bool-cases (c == b'/')) [
  | inl e ↦ ground (arith, e, h, parts-free [] s)
  | inr e ↦ ground (arith, e, h, parts-free (part ++ c ∷ []) s, has_byte-append b'/' part (c ∷ []))
]

keep_part-proper :
    (kept : List Bytes) (part : Bytes)
    → all is_proper kept ≡ true
    → is_free part ≡ true
    → all is_proper (keep_part true kept part) ≡ true
unfolding keep_part is_proper is_free
keep_part-proper [] part h f = ground (arith, h, f)
keep_part-proper (top ∷ kept) part h f = ground (arith, h, f)

keep_parts-proper :
    (kept ps : List Bytes)
    → all is_proper kept ≡ true
    → all is_free ps ≡ true
    → all is_proper (keep_parts true kept ps) ≡ true
unfolding keep_parts
keep_parts-proper kept [] h f = h
keep_parts-proper kept (part ∷ ps) h f =
    keep_parts-proper (keep_part true kept part) ps
      (keep_part-proper kept part h (ground (arith, f))) (ground (arith, f))

all-reverse_aux :
    (p : Bytes → Bool) (ps rest : List Bytes)
    → all p ps ≡ true
    → all p rest ≡ true
    → all p (reverse_aux ps rest) ≡ true
all-reverse_aux p [] rest h k = k
all-reverse_aux p (x ∷ ps) rest h k =
    all-reverse_aux p ps (x ∷ rest) (ground (arith, h)) (ground (arith, h, k))

is_not_parent : Bytes → Bool
is_not_parent part = not (part == codes "..")

split-join_parts-proper :
    (ps : List Bytes)
    → all is_proper ps ≡ true
    → all is_not_parent (split b'/' (join_parts ps)) ≡ true
unfolding join_parts is_proper is_not_parent split bytes_beq
split-join_parts-proper [] h = refl
split-join_parts-proper (part ∷ []) h = ground (arith, h, split-free b'/' part)
split-join_parts-proper (part ∷ next ∷ rest) h = ground (
  arith,
  h,
  split-append b'/' part (join_parts (next ∷ rest)),
  split-join_parts-proper (next ∷ rest),
)

-- Whether a path leads through a parent directory somewhere.
unfoldable pub has_parent_part : Bytes → Bool
has_parent_part path = any (λ part. part == codes "..") (split b'/' path)

not_parents :
    (ps : List Bytes) → all is_not_parent ps ≡ true → any (λ part. part == codes "..") ps ≡ false
unfolding is_not_parent
not_parents [] h = refl
not_parents (p ∷ ps) h = ground (arith, h, not_parents ps)

-- A cleaned absolute path has no parent parts left.
pub clean-has_parent_part :
    (path : Bytes) → is_abs path ≡ true → has_parent_part (clean path) ≡ false
unfolding clean has_parent_part split bytes_beq has_byte
clean-has_parent_part path h =
    let kept : List Bytes = keep_parts true [] (parts [] path) in
    let fine = split-join_parts-proper (reverse kept) (
      all-reverse_aux is_proper kept []
        (keep_parts-proper [] (parts [] path) refl (parts-free [] path refl)) refl) in
    ground (
      arith,
      h,
      split-append b'/' [] (join_parts (reverse kept)),
      not_parents (split b'/' (join_parts (reverse kept))) fine,
    )

pub join-has_parent_part :
    (dir path : Bytes) → is_abs dir ≡ true → has_parent_part (join dir path) ≡ false
unfolding join is_abs
join-has_parent_part [] path h = ground (arith, h)
join-has_parent_part (d ∷ dir) path h = clean-has_parent_part ((d ∷ dir) ++ (b'/' ∷ path)) h

join_runs : join (codes "/repo/./app") (codes "../x.yml") ≡ codes "/repo/x.yml"
unfolding join
join_runs = refl
