-- ===== src/Base/Paths.antt =====
-- `std::path` on Unix, as far as the source uses it: the components of a path, `join` and
-- `starts_with`. A path is a text. Windows prefixes do not occur.
use mathlib.Core.List.{append-nil, append_assoc}
use rendermesh.Base.Search.{ends_with_iff, split, starts_with, ends_with, starts_with-char}
use rendermesh.Base.Lists.{All, is_empty}
use rendermesh.Base.Tests.{◌==◌, if◌then◌else◌, Bool-cases}
use rendermesh.Base.Strings.{Text, text, ◌===◌, text_dec}
use Prim.Native.Nat.{ℕ}
use mathlib.Core.Path.{◌≡◌, refl}
use mathlib.Core.Logic.{inl, inr}
use mathlib.Core.Bool.{Bool, true, false, ◌&&◌, ◌||◌}
use mathlib.Core.List.{List, [], ◌∷◌, ◌++◌}
use native.Mathlib.Omega.{arith}

pub data Component : Type 0 where
  root_dir cur_dir parent_dir : Component
  normal : Text → Component

-- The components behind the first: empty parts and "." are dropped.
unfoldable pub interior : List Text → List Component
interior [] = []
interior (part ∷ parts) =
    let rest = interior parts in
    if is_empty part || part === text "."
    then rest
    else if part === text ".."
    then parent_dir ∷ rest
    else normal part ∷ rest

abbrev relative_components : List Text → List Component
relative_components [] = []
relative_components (part ∷ parts) =
    if part === text "." then cur_dir ∷ interior parts else interior (part ∷ parts)

-- `Path::components`
unfoldable pub components : Text → List Component
unfolding interior
components path =
    let parts = split b'/' path in
    if starts_with path (text "/") then root_dir ∷ interior parts else relative_components parts

-- `Path::is_absolute`
unfoldable pub is_absolute : Text → Bool
is_absolute path = starts_with path (text "/")

-- `Path::join`
unfoldable pub join : Text → Text → Text
unfolding is_absolute
join base path =
    if is_absolute path || is_empty base
    then path
    else if ends_with base (text "/")
    then base ++ path
    else base ++ b'/' ∷ path

-- `Path::starts_with`, on components
abbrev component_eq : Component → Component → Bool
component_eq root_dir root_dir = true
component_eq cur_dir cur_dir = true
component_eq parent_dir parent_dir = true
component_eq (normal s) (normal t) = s === t
component_eq _ _ = false

unfoldable pub components_start_with : List Component → List Component → Bool
components_start_with cs [] = true
components_start_with [] (d ∷ ds) = false
components_start_with (c ∷ cs) (d ∷ ds) = component_eq c d && components_start_with cs ds

unfoldable pub path_starts_with : Text → Text → Bool
unfolding components_start_with components
path_starts_with path base = components_start_with (components path) (components base)

pub split_cases : (c : ℕ) (s : Text) → (p : Text) × (ps : List Text) × (split c s ≡ p ∷ ps)
unfolding split
split_cases c [] = ([], [], refl)
split_cases c (d ∷ s) =
    let (p, ps, e) = split_cases c s in
    elim (Bool-cases (d == c)) [
      | inl hit ↦ ([], split c s, rw hit)
      | inr miss ↦ (d ∷ p, ps, rw (miss, e))
    ]

pub split-append : (c : ℕ) (a b : Text) → split c (a ++ c ∷ b) ≡ split c a ++ split c b
unfolding split
split-append c [] b = ground arith
split-append c (d ∷ a) b =
    let (p, ps, e) = split_cases c a in
    elim (Bool-cases (d == c)) [
      | inl hit ↦ rw (hit, split-append c a b)
      | inr miss ↦ rw (miss, split-append c a b) (rw e)
    ]

pub interior-append : (ps qs : List Text) → interior (ps ++ qs) ≡ interior ps ++ interior qs
unfolding interior
interior-append [] qs = refl
interior-append (p ∷ ps) qs = ground (arith, interior-append ps qs)

-- A component that stays where it is or goes down.
abbrev pub Descends : Component → Type 0
Descends root_dir = ⊥
Descends parent_dir = ⊥
Descends cur_dir = Unit
Descends (normal _) = Unit

relative_components-append :
    (p : Text) (ps qs : List Text)
    → relative_components ((p ∷ ps) ++ qs) ≡ relative_components (p ∷ ps) ++ interior qs
relative_components-append p ps qs = elim (Bool-cases (p === text ".")) [
  | inl dot ↦ rw dot (rw interior-append)
  | inr other ↦ rw other (interior-append (p ∷ ps) qs)
]

-- What stands behind a slash is added to the components.
pub components-append :
    (c : ℕ) (a b : Text)
    → components ((c ∷ a) ++ b'/' ∷ b) ≡ components (c ∷ a) ++ interior (split b'/' b)
unfolding components
components-append c a b =
    let (p, ps, e) = split_cases b'/' (c ∷ a) in
    rw (split-append b'/' (c ∷ a) b, starts_with-char, starts_with-char, e)
      (elim (Bool-cases (c == b'/')) [
        | inl rooted ↦ rw (rooted, interior-append (p ∷ ps) (split b'/' b))
        | inr other ↦ rw other (relative_components-append p ps (split b'/' b))
      ])

component_eq_refl : (c : Component) → component_eq c c ≡ true
unfolding text_dec
component_eq_refl root_dir = refl
component_eq_refl cur_dir = refl
component_eq_refl parent_dir = refl
component_eq_refl (normal s) = ground arith

components_start_with_refl : (cs : List Component) → components_start_with cs cs ≡ true
unfolding components_start_with
components_start_with_refl [] = refl
components_start_with_refl (c ∷ cs) =
    ground (arith, component_eq_refl c, components_start_with_refl cs)

pub path_starts_with_refl : (path : Text) → path_starts_with path path ≡ true
unfolding path_starts_with
path_starts_with_refl path = components_start_with_refl (components path)

pub components_start_with-append :
    (cs ds : List Component) → components_start_with (cs ++ ds) cs ≡ true
unfolding components_start_with
components_start_with-append [] [] = refl
components_start_with-append [] (d ∷ ds) = refl
components_start_with-append (c ∷ cs) ds =
    ground (arith, component_eq_refl c, components_start_with-append cs ds)

components-slash : (path : Text) → components (b'/' ∷ path) ≡ root_dir ∷ interior (split b'/' path)
unfolding components split
components-slash path = rw (starts_with-char b'/' b'/' path)

interior-split_nil : interior (split b'/' []) ≡ []
unfolding interior split
interior-split_nil = refl

components-append_slash :
    (front path : Text)
    → components (front ++ b'/' ∷ path)
      ≡ components (front ++ b'/' ∷ []) ++ interior (split b'/' path)
components-append_slash [] path =
    rw (components-slash path) (rw (components-slash [], interior-split_nil))
components-append_slash (c ∷ front) path =
    rw (components-append c front path)
      (rw (components-append c front [], interior-split_nil, append-nil))

components-join_slash :
    (base path : Text)
    → ends_with base (text "/") ≡ true
    → components (base ++ path) ≡ components base ++ interior (split b'/' path)
components-join_slash base path h =
    let (front, e) = (ends_with_iff base (text "/")).0 h in
    rw (e, append_assoc) (components-append_slash front path)

-- A relative path that is joined to a directory is added to its components.
pub components-join :
    (base path : Text)
    → is_empty base ≡ false
    → is_absolute path ≡ false
    → components (join base path) ≡ components base ++ interior (split b'/' path)
unfolding join
components-join [] path h k = cc
components-join (c ∷ base) path h k = elim (Bool-cases (ends_with (c ∷ base) (text "/"))) [
  | inl slash ↦ rw (k, slash) (components-join_slash (c ∷ base) path slash)
  | inr bare ↦ rw (k, bare) (components-append c base path)
]

relative_components-Descends :
    (parts : List Text) → All Descends (relative_components parts) → All Descends (interior parts)
unfolding interior
relative_components-Descends [] h = tt
relative_components-Descends (part ∷ parts) h = ground arith

-- What descends as a relative path descends behind any directory.
pub components-Descends-interior :
    (path : Text)
    → is_absolute path ≡ false
    → All Descends (components path)
    → All Descends (interior (split b'/' path))
unfolding components is_absolute
components-Descends-interior path h d =
    relative_components-Descends (split b'/' path) (ground arith)
