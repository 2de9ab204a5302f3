-- ===== src/TestPool/Names.antt =====
-- src/test_pool.rs: the names of the nodes and of their lock files.
use binderbinder.Base.{
  [], ◌∷◌, true, ◌==◌, Bool-cases, inl, inr, sym, ◌∙◌, arith, ℕ, ◌<◌, ◌≡◌, ap, ◌↔◌, List, refl,
  ◌++◌, some,
}
use binderbinder.Base.Words.{usize_mod}
use binderbinder.TestPool.{
  Environment, node_path, lock_path, lock_dir, mount_path, separator, join, pool_prefix,
  lock_suffix, pool_size, same_path,
}
use mathlib.Core.List.{append_cancel_left, append_cancel_right}
use binderbinder.TestPool.Decimal.{display, parse-display}

display_apart : (i j : ℕ) → i < usize_mod → j < usize_mod → display i ≡ display j → i ≡ j
display_apart i j small_i small_j same = cc (parse-display i small_i, parse-display j small_j, same)

pooled_apart :
    (path xs ys : List ℕ) → join path (pool_prefix ++ xs) ≡ join path (pool_prefix ++ ys) → xs ≡ ys
pooled_apart path xs ys same = append_cancel_left pool_prefix xs ys (
    append_cancel_left (separator path) (pool_prefix ++ xs) (pool_prefix ++ ys)
      (append_cancel_left path _ _ same))

pub same_path_refl : (xs : List ℕ) → same_path xs xs ≡ true
same_path_refl [] = refl
same_path_refl (x ∷ xs) = ground (arith, same_path_refl xs)

same_path-eq : (xs ys : List ℕ) → same_path xs ys ≡ true → xs ≡ ys
same_path-eq [] [] h = refl
same_path-eq (x ∷ xs) (y ∷ ys) h = ground (arith, h, same_path-eq xs ys)
same_path-eq [] (y ∷ ys) h = ground arith
same_path-eq (x ∷ xs) [] h = ground arith

-- The lock file of a node in a directory.
abbrev pub lock_in : List ℕ → ℕ → List ℕ
lock_in dir index = join dir (pool_prefix ++ (display index ++ lock_suffix))

pub lock_in-apart :
    (dir : List ℕ) (i j : ℕ)
    → i < usize_mod
    → j < usize_mod
    → same_path (lock_in dir i) (lock_in dir j) ≡ (i == j)
lock_in-apart dir i j small_i small_j = elim (Bool-cases (i == j)) [
  | inl e ↦
      let same : i ≡ j = ground (arith, e) in
      ap (λ k. same_path (lock_in dir k) (lock_in dir j)) same
      ∙ same_path_refl (lock_in dir j)
      ∙ sym e
  | inr e ↦ elim (Bool-cases (same_path (lock_in dir i) (lock_in dir j))) [
    | inr apart ↦ apart ∙ sym e
    | inl same ↦
        let files = same_path-eq (lock_in dir i) (lock_in dir j) same in
        let numbers = display_apart i j small_i small_j (
          append_cancel_right (display i) (display j) lock_suffix
            (pooled_apart dir (display i ++ lock_suffix) (display j ++ lock_suffix) files)) in
        ground (arith, numbers, e)
  ]
]

-- Two nodes of the pool never share a device node, nor a lock file, wherever the directories are; and a
-- size that is written out in decimal in the variable is the size of the pool.
pub names_apart :
    (env : Environment) (i j : ℕ)
    → i < usize_mod
    → j < usize_mod
    → ((node_path env i ≡ node_path env j) ↔ (i ≡ j))
      × ((lock_path env i ≡ lock_path env j) ↔ (i ≡ j))
      × (pool_size (record env { size_var = some (display i) }) ≡ i)
unfolding node_path lock_path pool_size
names_apart env i j small_i small_j = (
  (
    (λ same.
        display_apart i j small_i small_j
          (pooled_apart (mount_path env) (display i) (display j) same)),
    ap (node_path env),
  ),
  (
    (λ same. display_apart i j small_i small_j (
        append_cancel_right (display i) (display j) lock_suffix (
          pooled_apart (lock_dir env) (display i ++ lock_suffix) (display j ++ lock_suffix) same))),
    ap (lock_path env),
  ),
  rw (parse-display i small_i) refl,
)
