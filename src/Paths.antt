-- ===== src/Paths.antt =====
-- internal/util/pathutil.go: the package name of a file path.
mod Examples
use Prim.Native.Nat.{ℕ, zero, suc, ◌-◌}
use mathlib.Core.Path.{◌≡◌, refl}
use mathlib.Core.Logic.{inl, inr}
use mathlib.Core.Bool.{Bool, true, false, ◌||◌, ◌&&◌}
use mathlib.Core.List.{List, [], ◌∷◌, foldl, map}
use native.Mathlib.Omega.{arith}
use flash_code_graph.Common.Tests.{◌==◌, if◌then◌else◌, Bool-cases}
use flash_code_graph.Common.Lists.{length, take, is_empty, All}
use flash_code_graph.Common.Text.{Text, text, text_eq, has_suffix, trim_suffix, replace_byte}

-- The loop over the extensions.
unfoldable pub trim_extensions : Text → Text
trim_extensions path =
    trim_suffix
      (trim_suffix
        (trim_suffix (trim_suffix (trim_suffix path (text ".ts")) (text ".tsx")) (text ".js"))
        (text ".jsx"))
      (text ".py")

-- if strings.HasSuffix(base, "/name") || base == "name" { base = strings.TrimSuffix(base, "/name") }
unfoldable pub trim_directory_file : Text → Text → Text
trim_directory_file name base =
    if has_suffix base (b'/' ∷ name) || text_eq base name
    then trim_suffix base (b'/' ∷ name)
    else base

-- After each of the two steps an empty base is a file at the root, and its own name is the package.
unfoldable pub derive_package : Text → Text
derive_package file_path =
    let base = replace_byte b'\\' b'/' (trim_extensions file_path) in
    let without_index = trim_directory_file (text "index") base in
    let without_init = trim_directory_file (text "__init__") without_index in
    if is_empty without_index && has_suffix base (text "/index")
    then text "index"
    else if is_empty without_init && has_suffix without_index (text "/__init__")
    then text "__init__"
    else replace_byte b'/' b'.' without_init

-- A byte that separates no directories.
abbrev pub IsFlat : ℕ → Type 0
IsFlat c = ((c == b'/') ≡ false) × ((c == b'\\') ≡ false)

abbrev NoBackslash : ℕ → Type 0
NoBackslash c = (c == b'\\') ≡ false

take-All : (P : ℕ → Type 0) (n : ℕ) (s : Text) → All P s → All P (take n s)
take-All P zero s h = tt
take-All P (suc n) [] h = tt
take-All P (suc n) (c ∷ s) h = (h.0, take-All P n s h.1)

trim_suffix-All : (P : ℕ → Type 0) (s end : Text) → All P s → All P (trim_suffix s end)
unfolding trim_suffix
trim_suffix-All P s end h = elim (Bool-cases (has_suffix s end)) [
  | inl ends ↦ rw ends (take-All P (length s - length end) s h)
  | inr other ↦ rw other h
]

trim_directory_file-All :
    (P : ℕ → Type 0) (name s : Text) → All P s → All P (trim_directory_file name s)
unfolding trim_directory_file
trim_directory_file-All P name s h =
    elim (Bool-cases (has_suffix s (b'/' ∷ name) || text_eq s name)) [
      | inl there ↦ rw there (trim_suffix-All P s (b'/' ∷ name) h)
      | inr other ↦ rw other h
    ]

replace_byte-NoBackslash : (s : Text) → All NoBackslash (replace_byte b'\\' b'/' s)
unfolding replace_byte
replace_byte-NoBackslash [] = tt
replace_byte-NoBackslash (c ∷ s) = elim (Bool-cases (c == b'\\')) [
  | inl back ↦ rw back (refl, replace_byte-NoBackslash s)
  | inr other ↦ rw other (other, replace_byte-NoBackslash s)
]

replace_byte-IsFlat : (s : Text) → All NoBackslash s → All IsFlat (replace_byte b'/' b'.' s)
unfolding replace_byte
replace_byte-IsFlat [] h = tt
replace_byte-IsFlat (c ∷ s) h = elim (Bool-cases (c == b'/')) [
  | inl slash ↦ rw slash ((refl, refl), replace_byte-IsFlat s h.1)
  | inr other ↦ rw other ((other, h.0), replace_byte-IsFlat s h.1)
]

-- The package name of a file has no slash and no backslash in it, whatever the path is.
pub derive_package-IsFlat : (file_path : Text) → All IsFlat (derive_package file_path)
unfolding derive_package
derive_package-IsFlat file_path =
    let base = replace_byte b'\\' b'/' (trim_extensions file_path) in
    let without_index = trim_directory_file (text "index") base in
    let without_init = trim_directory_file (text "__init__") without_index in
    let flat = replace_byte-IsFlat without_init (
      trim_directory_file-All NoBackslash (text "__init__") without_index (
        trim_directory_file-All NoBackslash (text "index") base
          (replace_byte-NoBackslash (trim_extensions file_path)))) in
    elim (Bool-cases (is_empty without_index && has_suffix base (text "/index"))) [
      | inl index ↦
          rw (index, derive_package)
            ((refl, refl), ((refl, refl), ((refl, refl), ((refl, refl), ((refl, refl), tt)))))
      | inr no_index ↦
          elim (Bool-cases (is_empty without_init && has_suffix without_index (text "/__init__"))) [
            | inl init ↦
                rw (no_index, init, derive_package)
                  (
                    (refl, refl),
                    (
                      (refl, refl),
                      (
                        (refl, refl),
                        (
                          (refl, refl),
                          ((refl, refl), ((refl, refl), ((refl, refl), ((refl, refl), tt)))),
                        ),
                      ),
                    ),
                  )
            | inr no_init ↦ rw (no_index, no_init, derive_package) flat
          ]
    ]
