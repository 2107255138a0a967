-- ===== src/Examples/Filters.antt =====
-- Some input, and what is proved of the filters at it.
use nycu_np.Prelude.{codes, ◌≡◌, refl}
use nycu_np.Filters.Tags.{Marked, IsMarked, output, output-removetag0}
use nycu_np.Filters.{removetag, removetag0}

abbrev bold : Marked
bold = record { text = codes "ab"; tag = codes "b" }

bold-IsMarked : IsMarked bold
bold-IsMarked = record { plain_text = (refl, (refl, tt)); plain_tag = (refl, tt) }

output-removetag0_example : output (removetag0 (codes "a<1>b")) ≡ removetag (codes "a<1>b")
output-removetag0_example = output-removetag0 (codes "a<1>b")
