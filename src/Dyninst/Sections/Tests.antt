-- ===== src/Dyninst/Sections/Tests.antt =====
-- Two regions of one name (tools/mcsema_disass/dyninst/SectionManager.cpp).
use mcsema.Prelude.{◌≡◌, List, [], ◌∷◌}
use mcsema.Dyninst.Sections.{Region, text_name, get_region, add_regions}
use mcsema.Dyninst.Sections.Names.{NamesApart, first_region, get_region-add_regions}

abbrev regions : List Region
regions =
    record { id = 0; name = text_name; mem_offset = 0x1000; mem_size = 0x100 }
    ∷ record { id = 1; name = text_name; mem_offset = 0x2000; mem_size = 0x100 }
    ∷ []

get_region-add_regions_example :
    NamesApart (add_regions regions [])
    × (get_region (add_regions regions []) text_name ≡ first_region text_name regions)
get_region-add_regions_example = get_region-add_regions regions text_name
