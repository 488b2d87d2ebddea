-- ===== src/FilePath.antt =====
-- What aritfact/content/file uses of Go's package path/filepath on Unix: IsAbs, Clean, Join, Dir,
-- Abs and Rel. A path is a list of bytes.
pub mod Clean
pub mod Relative
pub mod Rooted
pub mod Ancestors
pub mod Joined
pub mod Below
use mathlib.Core.List.{reverse}
use containerd_attributes_cl.Base.{
  Text, lit, List, [], ◌∷◌, ◌++◌, split, join, is_empty, if◌then◌else◌, ◌==◌, nat_eq, text_eq, Bool,
  true, false, not, ◌&&◌, ◌||◌, has_prefix, Option, none, some,
}

unfoldable pub dot : Text
unfolding lit
dot = lit "."

unfoldable pub dotdot : Text
unfolding lit
dotdot = lit ".."

-- `filepath.IsAbs`
unfoldable pub is_abs : Text → Bool
is_abs [] = false
is_abs (c ∷ p) = c == b'/'

-- The parts between slashes that name something.
unfoldable pub keep : List Text → List Text
keep [] = []
keep (e ∷ es) = let rest = keep es in if is_empty e || e == dot then rest else e ∷ rest

unfoldable pub elements : Text → List Text
unfolding keep
elements p = keep (split p b'/')

-- One element on the elements before it, the last of them first: `..` takes one off; with none to
-- take off it stays, or goes if the path is rooted.
unfoldable pub step : Bool → List Text → Text → List Text
step rooted [] e = if e == dotdot then (if rooted then [] else e ∷ []) else e ∷ []
step rooted (t ∷ stack) e =
    if e == dotdot
    then (if t == dotdot then (if rooted then t ∷ stack else e ∷ t ∷ stack) else stack)
    else e ∷ t ∷ stack

unfoldable pub collapse : Bool → List Text → List Text → List Text
collapse rooted stack [] = stack
collapse rooted stack (e ∷ es) = collapse rooted (step rooted stack e) es

-- A path's elements without `.`, and with `..` taken back as far as it goes.
unfoldable pub parts : Text → List Text
unfolding elements step collapse
parts p = reverse (collapse (is_abs p) [] (elements p))

pub render : Bool → List Text → Text
render true es = b'/' ∷ join es b'/'
render false [] = dot
render false (e ∷ es) = join (e ∷ es) b'/'

-- `filepath.Clean`
unfoldable pub clean : Text → Text
unfolding render
clean p = render (is_abs p) (parts p)

-- `filepath.Join` of two elements
unfoldable pub join_path : Text → Text → Text
join_path a b = if is_empty a then (if is_empty b then [] else clean b) else clean (a ++ b'/' ∷ b)

-- The path up to its last slash.
pub up_to_slash : Text → Text
up_to_slash [] = []
up_to_slash (c ∷ p) =
    let rest = up_to_slash p in
    if is_empty rest then (if c == b'/' then c ∷ [] else []) else c ∷ rest

-- `filepath.Dir`
unfoldable pub dir : Text → Text
unfolding up_to_slash
dir p = clean (up_to_slash p)

-- `filepath.Abs`, in the working directory of the process.
unfoldable pub abs : Text → Text → Text
abs cwd p = if is_abs p then clean p else join_path cwd p

-- `..` for each element of the base that is left, then what is left of the target.
pub climb : List Text → List Text → List Text
climb [] ts = ts
climb (b ∷ bs) ts = dotdot ∷ climb bs ts

pub rel_parts : List Text → List Text → Option Text
rel_parts [] ts = some (join ts b'/')
rel_parts (b ∷ bs) [] = if b == dotdot then none else some (join (climb (b ∷ bs) []) b'/')
rel_parts (b ∷ bs) (t ∷ ts) =
    let rest = rel_parts bs ts in
    if b == t
    then rest
    else if b == dotdot
    then none
    else some (join (climb (b ∷ bs) (t ∷ ts)) b'/')

-- The elements of the cleaned target, which is `.` if it has none.
pub target_parts : Text → List Text
target_parts p = if clean p == dot then dot ∷ [] else parts p

-- `filepath.Rel`; `none` is its error.
unfoldable pub rel : Text → Text → Option Text
unfolding climb rel_parts target_parts
rel base target =
    if clean base == clean target
    then some dot
    else if is_abs base
    then (if is_abs target then rel_parts (parts base) (target_parts target) else none)
    else (if is_abs target then none else rel_parts (parts base) (target_parts target))

-- The test of `resolveWritePath` and of `ensureBasePath` on a relative path.
unfoldable pub escapes : Text → Bool
unfolding lit
escapes p = has_prefix p (lit "../") || p == dotdot
