-- ===== src/Prelude/Ascii.antt =====
-- What Go's strings package does to ASCII bytes: TrimSpace, HasPrefix, Index and ToLower.
use victoriametrics_importer.Prelude.Tests.{◌==◌, if◌then◌else◌, leb}
use victoriametrics_importer.Prelude.Lists.{length, take}
use Prim.Native.Nat.{ℕ, suc, ◌+◌}
use mathlib.Core.Bool.{false, Bool, ◌&&◌, ◌||◌}
use mathlib.Core.List.{List, [], ◌∷◌, ◌++◌}
use mathlib.Core.Path.{◌≡◌, refl, ap}
use native.Mathlib.Omega.{arith}
use victoriametrics_importer.Prelude.Sets.{has}
use mathlib.Core.Option.{Option, none, some}
use victoriametrics_importer.Prelude.Bytes.{bytes_eq}

abbrev pub is_white : ℕ → Bool
is_white c = c == 32 || (leb 9 c && leb c 13)

abbrev pub trim_left : List ℕ → List ℕ
trim_left [] = []
trim_left (c ∷ cs) = let rest = trim_left cs in if is_white c then rest else c ∷ cs

-- White space that nothing follows goes.
abbrev pub push_trimmed : ℕ → List ℕ → List ℕ
push_trimmed c [] = if is_white c then [] else c ∷ []
push_trimmed c (d ∷ ds) = c ∷ d ∷ ds

abbrev pub trim_right : List ℕ → List ℕ
trim_right [] = []
trim_right (c ∷ cs) = push_trimmed c (trim_right cs)

abbrev pub trim_space : List ℕ → List ℕ
trim_space s = trim_right (trim_left s)

abbrev pub has_prefix : List ℕ → List ℕ → Bool
has_prefix s prefix = bytes_eq (take (length prefix) s) prefix

-- The position of a byte, none if it is not there.
abbrev pub shift : Option ℕ → Option ℕ
shift none = none
shift (some i) = some (suc i)

abbrev pub index : List ℕ → ℕ → Option ℕ
index [] b = none
index (c ∷ cs) b = let rest = index cs b in if c == b then some 0 else shift rest

abbrev pub lower : ℕ → ℕ
lower c = if leb 65 c && leb c 90 then c + 32 else c

abbrev pub to_lower : List ℕ → List ℕ
to_lower [] = []
to_lower (c ∷ cs) = lower c ∷ to_lower cs

pub index-absent : (b : ℕ) (s : List ℕ) → has b s ≡ false → index s b ≡ none
index-absent b [] h = refl
index-absent b (c ∷ cs) h =
    let rest = index-absent b cs (ground (arith, h)) in
    let differs : (c == b) ≡ false = ground (arith, h) in rw differs (ap shift rest)

-- A text with a byte behind another text that does not have it.
pub index-append : (b : ℕ) (s t : List ℕ) → has b s ≡ false → index (s ++ b ∷ t) b ≡ some (length s)
index-append b [] t h = ground arith
index-append b (c ∷ cs) t h =
    let rest = index-append b cs t (ground (arith, h)) in
    let differs : (c == b) ≡ false = ground (arith, h) in rw differs (ap shift rest)
