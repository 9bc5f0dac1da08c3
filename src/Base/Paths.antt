-- ===== src/Base/Paths.antt =====
-- `std::path`, as far as the program uses it. A path is the list of its components: that is what
-- the equality and the hash of `PathBuf`, `parent` and `strip_prefix` go by.
use Prim.Native.Nat.{ℕ, zero, suc}
use mathlib.Core.Path.{◌≡◌, ap}
use mathlib.Core.Logic.{◌↔◌}
use mathlib.Core.Bool.{Bool, true, false, ◌&&◌}
use mathlib.Core.List.{List, [], ◌∷◌, ◌++◌}
use mathlib.Core.Option.{Option, none, some}
use native.Mathlib.Omega.{arith}
use fake_notify.Base.Tests.{
  Eq, ◌==◌, ltb, leb, nat_beq, list_eq, nat_eq, if◌then◌else◌, list_beq, list_beq_iff,
}
use fake_notify.Base.Maps.{map_some}

-- Bytes of UTF-8.
abbrev pub Text : Type 0
Text = List ℕ

pub data Component : Type 0 where
  root_dir cur_dir parent_dir : Component
  normal : Text → Component

abbrev pub component_beq : Component → Component → Bool
component_beq root_dir root_dir = true
component_beq cur_dir cur_dir = true
component_beq parent_dir parent_dir = true
component_beq (normal a) (normal b) = list_beq a b
component_beq _ _ = false

pub component_beq_iff : (a b : Component) → (component_beq a b ≡ true) ↔ (a ≡ b)
component_beq_iff (normal a) (normal b) =
    (λ h. ap normal ((list_beq_iff a b).0 h), λ p. (list_beq_iff a b).1 (cc))
component_beq_iff a b = ground arith

instance abbrev pub component_eq : Eq Component
component_eq = record { beq = component_beq; beq_lem = component_beq_iff }

abbrev pub FilePath : Type 0
FilePath = List Component

abbrev cons_head : ℕ → List Text → List Text
cons_head b [] = (b ∷ []) ∷ []
cons_head b (s ∷ ss) = (b ∷ s) ∷ ss

-- The parts between the slashes.
unfoldable pub segments : Text → List Text
segments [] = [] ∷ []
segments (b ∷ bs) = let rest = segments bs in if nat_beq b b'/' then [] ∷ rest else cons_head b rest

abbrev pub dot : Text
dot = b'.' ∷ []

abbrev pub dot_dot : Text
dot_dot = b'.' ∷ b'.' ∷ []

-- Empty segments and `.` are dropped.
unfoldable pub later_components : List Text → FilePath
later_components [] = []
later_components (s ∷ ss) =
    let rest = later_components ss in
    if s == []
    then rest
    else (if s == dot then rest else (if s == dot_dot then parent_dir ∷ rest else normal s ∷ rest))

-- A leading slash is the root, and a leading `.` of a relative path is kept.
unfoldable pub first_components : List Text → FilePath
unfolding later_components
first_components [] = []
first_components (s ∷ ss) =
    if s == dot then cur_dir ∷ later_components ss else later_components (s ∷ ss)

-- `PathBuf::from`, up to the equality of paths.
unfoldable pub path_from : Text → FilePath
unfolding segments first_components
path_from [] = []
path_from (b ∷ bs) =
    if nat_beq b b'/'
    then root_dir ∷ later_components (segments bs)
    else first_components (segments (b ∷ bs))

-- `Path::join` with a single name.
unfoldable pub join : FilePath → Text → FilePath
join p name = p ++ (normal name ∷ [])

unfoldable pub parent : FilePath → Option FilePath
parent [] = none
parent (root_dir ∷ []) = none
parent (c ∷ []) = some []
parent (c ∷ d ∷ cs) = map_some (◌∷◌ c) (parent (d ∷ cs))

-- `path.strip_prefix(base)`, with its error forgotten.
unfoldable pub strip_prefix : FilePath → FilePath → Option FilePath
strip_prefix path [] = some path
strip_prefix [] (c ∷ base) = none
strip_prefix (d ∷ path) (c ∷ base) =
    let rest = strip_prefix path base in if d == c then rest else none

unfoldable pub component_text : Component → Text
component_text root_dir = []
component_text cur_dir = dot
component_text parent_dir = dot_dot
component_text (normal name) = name

-- The components with a slash between two; the root alone is one slash.
unfoldable pub path_text : FilePath → Text
unfolding component_text
path_text [] = []
path_text (root_dir ∷ []) = b'/' ∷ []
path_text (c ∷ []) = component_text c
path_text (c ∷ d ∷ cs) = component_text c ++ (b'/' ∷ path_text (d ∷ cs))

-- What a byte that begins a character asks for: how many bytes follow, and the range of the first
-- of them.
unfoldable pub utf8_lead : ℕ → Option (ℕ × ℕ × ℕ)
utf8_lead b =
    if ltb b 0x80
    then some (0, 0, 0)
    else (if ltb b 0xc2
        then none
        else (if ltb b 0xe0
            then some (1, 0x80, 0xbf)
            else (if nat_beq b 0xe0
                then some (2, 0xa0, 0xbf)
                else (if nat_beq b 0xed
                    then some (2, 0x80, 0x9f)
                    else (if ltb b 0xf0
                        then some (2, 0x80, 0xbf)
                        else (if nat_beq b 0xf0
                            then some (3, 0x90, 0xbf)
                            else (if ltb b 0xf4
                                then some (3, 0x80, 0xbf)
                                else (if nat_beq b 0xf4 then some (3, 0x80, 0x8f) else none))))))))

-- `due` bytes of a character are still to come, the next within a range.
utf8_from : ℕ → ℕ → ℕ → Text → Bool
utf8_from due lo hi [] = nat_beq due 0
utf8_from zero lo hi (b ∷ bs) = elim (utf8_lead b) [
  | none ↦ false
  | some (n, l, h) ↦ utf8_from n l h bs
]
utf8_from (suc due) lo hi (b ∷ bs) = leb lo b && (leb b hi && utf8_from due 0x80 0xbf bs)

unfoldable pub is_utf8 : Text → Bool
unfolding utf8_from utf8_lead
is_utf8 bs = utf8_from 0 0 0 bs

-- `path.to_str()`
unfoldable pub to_str : FilePath → Option Text
unfolding path_text is_utf8
to_str p = if is_utf8 (path_text p) then some (path_text p) else none
