-- ===== src/Orphans/Examples.antt =====
-- A line of process_orphans.txt, read as gettextpo-helper/gtpo/processorphans.cpp does it.
use stupid_ids.Base.{◌≡◌, [], ◌∷◌, ◌++◌, some, ok, arith, refl}
use stupid_ids.Content.Template.{codes}
use stupid_ids.Orphans.{move, parse_line}
use stupid_ids.Orphans.Lines.{parse_line-line_of}

-- "move a/b.po c/d.po"
parse_line-line_of_example :
    parse_line (codes "move a/b.po c/d.po" ++ 10 ∷ [])
    ≡ ok (
        some (record {
          command = move;
          orig_path = codes "a";
          orig_name_pot = codes "b.pot";
          dest_path = codes "c";
          dest_name_pot = codes "d.pot";
        }))
parse_line-line_of_example =
    parse_line-line_of move (codes "a") (codes "b.po") (codes "c") (codes "d.po") refl
      (omega arith, (omega arith, (omega arith, (omega arith, tt))))
      (omega arith, (omega arith, (omega arith, (omega arith, tt))))
      (omega arith, (omega arith, (omega arith, (omega arith, (omega arith, (omega arith, tt))))))
      (refl, (refl, (refl, (refl, (refl, (refl, tt))))))
