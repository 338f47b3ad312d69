-- ===== src/Tune/Path.antt =====
-- src/sidtune/SidTuneTools.cpp: the parts of a path, a list of characters.
use libsidplayfp.Base.{ℕ, ◌+◌, Bool, List, [], ◌∷◌, if◌then◌else◌, ◌==◌}

-- The loop of `fileNameWithoutPath` at `pos`: one more than the last position of a separator so far
unfoldable pub name_loop : (ℕ → Bool) → List ℕ → (pos last : ℕ) → ℕ
name_loop is_separator [] pos last = last
name_loop is_separator (c ∷ s) pos last =
    name_loop is_separator s (pos + 1) (if is_separator c then pos + 1 else last)

-- `fileNameWithoutPath`, with the separators that the build chooses
unfoldable pub file_name_without_path : (ℕ → Bool) → List ℕ → ℕ
unfolding name_loop
file_name_without_path is_separator s = name_loop is_separator s 0 0

abbrev pub is_slash : ℕ → Bool
is_slash c = c == b'/'

-- `slashedFileNameWithoutPath`
unfoldable pub slashed_file_name_without_path : List ℕ → ℕ
unfolding name_loop
slashed_file_name_without_path s = name_loop is_slash s 0 0

-- The loop of `fileExtOfPath`, which reads the characters from the last on: `rest` are those behind
unfoldable pub ext_loop : (reversed rest : List ℕ) → List ℕ
ext_loop [] rest = []
ext_loop (c ∷ before) rest =
    let found = ext_loop before (c ∷ rest) in if c == b'.' then c ∷ rest else found

abbrev pub rev_onto : List ℕ → List ℕ → List ℕ
rev_onto [] acc = acc
rev_onto (c ∷ s) acc = rev_onto s (c ∷ acc)

-- `fileExtOfPath`: the extension with its dot, empty when there is none
unfoldable pub file_ext_of_path : List ℕ → List ℕ
unfolding ext_loop
file_ext_of_path s = ext_loop (rev_onto s []) []
