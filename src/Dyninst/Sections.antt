-- ===== src/Dyninst/Sections.antt =====
-- The sections of a binary: `SectionManager` of tools/mcsema_disass/dyninst/SectionManager.cpp and
-- SectionManager.h. A region of Dyninst is its number, name, offset and size.
pub mod Names
mod Tests
use mcsema.Prelude.{
  ℕ, Bool, true, false, ◌&&◌, ◌||◌, Option, none, some, List, [], ◌∷◌, ◌++◌, ltb, ◌==◌,
  if◌then◌else◌, add64, same_text,
}

abbrev pub Text : Type 0
Text = List ℕ

pub record Region : Type 0 where
  pub id : ℕ
  pub name : Text
  pub mem_offset : ℕ
  pub mem_size : ℕ

pub record Section : Type 0 where
  pub region : Region
  pub name : Text
  pub cfg_segment : Option ℕ

-- `IsInRegion` of a region, which may be null. The end counts as inside.
pub is_in_region : Option Region → ℕ → Bool
is_in_region none a = false
is_in_region (some r) a =
    if ltb a r.mem_offset
    then false
    else (if ltb (add64 r.mem_offset r.mem_size) a then false else true)

-- `GetRegion` and `GetSection`: the first of that name.
pub get_section : List Section → Text → Option Section
unfolding same_text
get_section [] name = none
get_section (s ∷ sections) name =
    if same_text s.name name then some s else get_section sections name

pub region_of : Option Section → Option Region
region_of none = none
region_of (some s) = some s.region

pub get_region : List Section → Text → Option Region
unfolding get_section region_of
get_region sections name = region_of (get_section sections name)

-- `IsInRegion` of a name, `IsCode`.
pub is_in_region_named : List Section → Text → ℕ → Bool
unfolding is_in_region get_region
is_in_region_named sections name a = is_in_region (get_region sections name) a

-- ".text"
abbrev pub text_name : Text
text_name = 46 ∷ 116 ∷ 101 ∷ 120 ∷ 116 ∷ []

unfoldable pub is_code : List Section → ℕ → Bool
unfolding is_in_region_named
is_code sections a = is_in_region_named sections text_name a

-- `IsInRegions`
pub any_name : Section → List Text → ℕ → Bool
unfolding same_text is_in_region
any_name s [] a = false
any_name s (name ∷ names) a =
    if same_text name s.name && is_in_region (some s.region) a then true else any_name s names a

pub is_in_regions : List Section → List Text → ℕ → Bool
unfolding any_name
is_in_regions [] names a = false
is_in_regions (s ∷ sections) names a =
    if any_name s names a then true else is_in_regions sections names a

pub is_in_binary : List Section → ℕ → Bool
unfolding is_in_region
is_in_binary [] a = false
is_in_binary (s ∷ sections) a =
    if is_in_region (some s.region) a then true else is_in_binary sections a

-- `AddRegion`. (Its `should_write` is computed and not used.)
pub has_name : List Section → Text → Bool
unfolding same_text
has_name [] name = false
has_name (s ∷ sections) name = if same_text s.name name then true else has_name sections name

pub add_region : Region → List Section → List Section
unfolding has_name
add_region r sections =
    if has_name sections r.name
    then sections
    else sections ++ record { region = r; name = r.name; cfg_segment = none } ∷ []

-- The regions of a binary added one after the other.
pub add_regions : List Region → List Section → List Section
unfolding add_region
add_regions [] sections = sections
add_regions (r ∷ regions) sections = add_regions regions (add_region r sections)

-- `SetCFG` and `GetCFG`, which compare regions as pointers.
pub set_cfg : (region : ℕ) → (segment : ℕ) → List Section → List Section
set_cfg region segment [] = []
set_cfg region segment (s ∷ sections) =
    (if s.region.id == region then record s { cfg_segment = some segment } else s)
    ∷ set_cfg region segment sections

pub get_cfg : List Section → (region : ℕ) → Option ℕ
get_cfg [] region = none
get_cfg (s ∷ sections) region =
    if s.region.id == region then s.cfg_segment else get_cfg sections region
