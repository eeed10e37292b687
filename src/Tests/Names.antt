-- ===== src/Tests/Names.antt =====
-- A title that is a reserved name.
use knowtion.Base.{refl, codes, Text}
use knowtion.Formula.Parse.{lower_ascii}
use knowtion.Export.Names.{truncated, sanitise_name}
use knowtion.Export.Names.Safe.{KeepsUnderscore, Named, sanitise_name-Named}

ascii-KeepsUnderscore : KeepsUnderscore lower_ascii
unfolding lower_ascii
ascii-KeepsUnderscore t = (lower_ascii t, refl)

abbrev con : Text
con = codes "CON. "

sanitise_name-Named_example : Named lower_ascii (truncated con) (sanitise_name lower_ascii con)
sanitise_name-Named_example = sanitise_name-Named lower_ascii ascii-KeepsUnderscore con
